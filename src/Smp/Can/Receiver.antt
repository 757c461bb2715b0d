-- ===== src/Smp/Can/Receiver.antt =====
-- subsys/smp/can/smp_can_transport.h and .cpp: the receiving side, from a CAN frame to the packet that
-- is handed on. Memory for a packet is the list of bytes that the allocation of Zephyr gives, or none.
pub mod Packets
use rt_core.Prelude.{
  ℕ, ◌+◌, Bool, true, false, not, ◌&&◌, ◌||◌, Option, none, some, List, [], ◌∷◌, take, ◌==◌, ◌!=◌,
  if◌then◌else◌,
}
use rt_core.Prelude.Bits.{u32}
use rt_core.Prelude.Tables.{find_index, modify_at}
use rt_core.Smp.Header.{parse, is_request, is_response}
use rt_core.Smp.Can.FrameFormat.{FrameFormat}
use rt_core.Smp.Can.IdLayout.{get_source, is_valid_address}
use rt_core.Smp.Can.Reassembler.{
  Reassembler, Result, in_progress, complete, dropped, ignored, reset, attach, is_expired,
  is_start_frame, accept,
}

pub record CanFrame : Type 0 where
  pub id : ℕ
  pub is_extended : Bool
  pub is_transmit : Bool
  pub is_can_fd : Bool
  pub is_bitrate_switch : Bool
  pub is_remote_request : Bool
  pub bytes : List ℕ

-- `source` 0 marks a free slot. The packet of a slot is the buffer of its reassembler.
pub record RxSlot : Type 0 where
  pub source : ℕ
  pub reassembler : Reassembler

pub record Receiver : Type 0 where
  pub slots : List RxSlot
  pub rx_dropped : ℕ

-- Where a packet goes: to the local SMP server, or to the response sink.
pub data Delivery : Type 0 where
  to_server to_sink : ℕ → List ℕ → Delivery

unfoldable pub release_rx_slot : RxSlot → RxSlot
unfolding reset
release_rx_slot s = record { source = 0; reassembler = reset s.reassembler }

unfoldable pub release_expired_rx_slots : ℕ → List RxSlot → List RxSlot × ℕ
unfolding is_expired release_rx_slot
release_expired_rx_slots now_ms [] = ([], 0)
release_expired_rx_slots now_ms (s ∷ rest) =
    let (rest', count) = release_expired_rx_slots now_ms rest in
    if s.source != 0 && is_expired s.reassembler now_ms
    then (release_rx_slot s ∷ rest', count + 1)
    else (s ∷ rest', count)

-- The position of a source's slot, and the slot.
unfoldable pub find_rx_slot : ℕ → List RxSlot → Option (ℕ × RxSlot)
find_rx_slot source [] = none
find_rx_slot source (s ∷ rest) =
    let later : Option (ℕ × RxSlot) = elim (find_rx_slot source rest) [
      | none ↦ none
      | some (i, x) ↦ some (i + 1, x)
    ] in
    if s.source == source then some (0, s) else later

unfoldable pub has_format : FrameFormat → RxSlot → Bool
has_format format s =
    if s.reassembler.format.is_can_fd then format.is_can_fd else not format.is_can_fd

-- A slot of the source in another format is given up.
unfoldable pub release_other_format : ℕ → FrameFormat → Receiver → Receiver
unfolding find_rx_slot has_format release_rx_slot modify_at
release_other_format source format t = elim (find_rx_slot source t.slots) [
  | none ↦ t
  | some (i, s) ↦ if has_format format s then t else record {
    slots = modify_at i release_rx_slot t.slots;
    rx_dropped = u32 (t.rx_dropped + 1);
  }
]

-- `none` is a dropped packet.
unfoldable pub deliver : Bool → ℕ → List ℕ → Option Delivery
unfolding parse is_request is_response
deliver has_sink source packet = elim (parse packet) [
  | none ↦ none
  | some h ↦
      if is_request h
      then some (to_server source packet)
      else if is_response h && has_sink
      then some (to_sink source packet)
      else none
]

-- What is done with the result of Accept(): the slot, the packets dropped, and the packet handed on.
unfoldable pub on_result : Bool → ℕ → RxSlot → Reassembler × Result → RxSlot × ℕ × Option Delivery
unfolding release_rx_slot deliver
on_result has_sink source s (r, in_progress) = (record s { reassembler = r }, 0, none)
on_result has_sink source s (r, complete) =
    let delivery = deliver has_sink source (take r.length_ r.buffer) in
    (
      release_rx_slot (record s { reassembler = r }),
      elim delivery [ none ↦ 1 | some x ↦ 0 ],
      delivery,
    )
on_result has_sink source s (r, dropped) = (release_rx_slot (record s { reassembler = r }), 1, none)
on_result has_sink source s (r, ignored) = (release_rx_slot (record s { reassembler = r }), 0, none)

unfoldable pub accept_in_slot :
    Bool → ℕ → CanFrame → ℕ → ℕ → RxSlot → Receiver → Receiver × Option Delivery
unfolding on_result accept modify_at
accept_in_slot has_sink source frame now_ms i s t =
    let (s', count, delivery) =
      on_result has_sink source s (accept s.reassembler frame.bytes now_ms) in
    (
      record { slots = modify_at i (λ x. s') t.slots; rx_dropped = u32 (t.rx_dropped + count) },
      delivery,
    )

-- A free slot with the memory that the allocation gave.
unfoldable pub acquire_rx_slot :
    Option (List ℕ) → ℕ → FrameFormat → List RxSlot → Option (ℕ × RxSlot)
unfolding find_rx_slot attach
acquire_rx_slot allocated source format slots = elim (find_rx_slot 0 slots) [
  | none ↦ none
  | some (i, s) ↦ elim allocated [
    | none ↦ none
    | some buffer ↦
        some (i, record { source = source; reassembler = attach s.reassembler buffer format })
  ]
]

-- The frame in the slot of its source, which a start frame may acquire.
unfoldable pub receive_from :
    Bool → Option (List ℕ) → ℕ → FrameFormat → CanFrame → ℕ → Receiver → Receiver × Option Delivery
unfolding find_rx_slot is_start_frame acquire_rx_slot accept_in_slot
receive_from has_sink allocated source format frame now_ms t = elim (find_rx_slot source t.slots) [
  | some (i, s) ↦ accept_in_slot has_sink source frame now_ms i s t
  | none ↦
      if not (is_start_frame frame.bytes)
      then (t, none)
      else elim (acquire_rx_slot allocated source format t.slots) [
        | none ↦ (record t { rx_dropped = u32 (t.rx_dropped + 1) }, none)
        | some (i, s) ↦ accept_in_slot has_sink source frame now_ms i s t
      ]
]

unfoldable pub on_frame :
    Bool → Option (List ℕ) → CanFrame → ℕ → Receiver → Receiver × Option Delivery
unfolding get_source is_valid_address release_expired_rx_slots release_other_format receive_from
on_frame has_sink allocated frame now_ms t =
    let source = get_source frame.id in
    let format : FrameFormat = record { is_can_fd = frame.is_can_fd } in
    if not frame.is_extended || (frame.is_remote_request || not (is_valid_address source))
    then (t, none)
    else let (slots, expired) = release_expired_rx_slots now_ms t.slots in
      receive_from has_sink allocated source format frame now_ms (
        release_other_format source format
          (record { slots = slots; rx_dropped = u32 (t.rx_dropped + expired) }))
