-- ===== src/Smp/Can/Transport.antt =====
-- subsys/smp/can/smp_can_transport.cpp: binding the transport to an address of a bus, and releasing it.
-- A Canbus instance is a number, and `bus` is what canbus_->Get() gives during the call; the calls of
-- Canbus and of MCUmgr are listed, and the handler ID that Canbus returns is an argument.
pub mod Handlers
pub mod Lifetime
use rt_core.Prelude.{
  ℕ, Bool, true, false, not, ◌||◌, Option, none, some, List, [], ◌∷◌, ◌++◌, map, ltb, ◌==◌,
  if◌then◌else◌,
}
use rt_core.Smp.Can.IdLayout.{
  is_valid_address, make_layout, get_target_filter_id, target_filter_mask,
}
use rt_core.Smp.Can.Receiver.{CanFrame, Receiver, Delivery, release_rx_slot, on_frame}
use rt_core.Smp.Can.Sender.{Sender, enqueue}

-- handler_id_ and bound_canbus_; `none` is handler_id_ -1.
pub record Handler : Type 0 where
  pub id : ℕ
  pub bus : ℕ

pub record Transport : Type 0 where
  pub sender : Sender
  pub receiver : Receiver
  pub handler : Option Handler
  pub has_proxy : Bool
  pub has_sink : Bool

pub data Call : Type 0 where
  register_handler : ℕ → ℕ → ℕ → Call
  remove_handler : ℕ → ℕ → Call
  clear_smp_rx : Call

-- Get() of the proxy, when there is one.
unfoldable pub get_bus : Option ℕ → Transport → Option ℕ
get_bus bus t = if t.has_proxy then bus else none

unfoldable pub is_bus : Option ℕ → ℕ → Bool
is_bus none bound = false
is_bus (some b) bound = b == bound

unfoldable pub unbind_locked : Option ℕ → Transport → Transport × List Call
unfolding get_bus is_bus release_rx_slot
unbind_locked bus t = elim t.handler [
  | none ↦ (t, [])
  | some h ↦ (
    record t {
      sender = record t.sender {
        address = 0;
        is_tx_due = t.sender.is_tx_due || t.sender.has_tx_task;
      };
      receiver = record t.receiver { slots = map release_rx_slot t.receiver.slots };
      handler = none;
    },
    (if is_bus (get_bus bus t) h.bus then remove_handler h.bus h.id ∷ [] else [])
        ++ clear_smp_rx ∷ [],
  )
]

-- The Boolean is false when it throws std::invalid_argument, for the share before anything changes, for
-- the base after the old binding and the old bus are gone.
unfoldable pub configure : Option ℕ → Bool → ℕ → ℕ → Transport → Bool × Transport × List Call
unfolding unbind_locked make_layout
configure bus has_proxy id_base bus_share_percent t =
    if bus_share_percent == 0 || ltb 100 bus_share_percent
    then (false, t, [])
    else let (u, calls) = unbind_locked bus t in
      elim (make_layout id_base) [
        | none ↦ (false, record u { has_proxy = has_proxy }, calls)
        | some layout ↦ (
          true,
          record u {
            has_proxy = has_proxy;
            sender = record u.sender {
              layout = layout;
              bus_share_percent = bus_share_percent;
              pacer_frame_time_ns = 0;
            };
          },
          calls,
        )
      ]

-- `registered` is the result of RegisterFrameReceivedHandler(), `none` when it is negative.
unfoldable pub register : ℕ → Option ℕ → ℕ → Transport → Bool × Transport × List Call
unfolding get_target_filter_id
register address registered b t = elim registered [
  | none ↦ (false, t, [])
  | some id ↦ (
    true,
    record t {
      handler = some (record { id = id; bus = b });
      sender = record t.sender { address = address };
    },
    register_handler b id (get_target_filter_id t.sender.layout address) ∷ [],
  )
]

unfoldable pub bind : ℕ → Option ℕ → Option ℕ → Transport → Bool × Transport × List Call
unfolding is_valid_address unbind_locked get_bus register
bind address bus registered t =
    if not (is_valid_address address) || not t.sender.has_tx_task
    then (false, t, [])
    else if t.sender.address == address
    then (true, t, [])
    else let (u, calls) = unbind_locked bus t in
      elim (get_bus bus u) [
        | none ↦ (false, u, calls)
        | some b ↦
            let (bound, v, more) = register address registered b u in (bound, v, calls ++ more)
      ]

unfoldable pub forward : ℕ → List ℕ → Transport → Bool × Transport
unfolding enqueue
forward target packet t =
    let (queued, s) = enqueue t.sender target packet in (queued, record t { sender = s })

unfoldable pub set_response_sink : Bool → Transport → Transport
set_response_sink has_sink t = record t { has_sink = has_sink }

-- Initialize(): `registers` is the result of smp_transport_init() being 0.
unfoldable pub initialize : Bool → Transport → Bool × Transport
initialize registers t =
    if t.sender.has_tx_task
    then (true, t)
    else if registers
    then (true, record t { sender = record t.sender { has_tx_task = true } })
    else (false, t)

-- The handler that Bind() registers.
unfoldable pub receive : Option (List ℕ) → CanFrame → ℕ → Transport → Transport × Option Delivery
unfolding on_frame
receive allocated frame now_ms t =
    let (r, delivery) = on_frame t.has_sink allocated frame now_ms t.receiver in
    (record t { receiver = r }, delivery)
