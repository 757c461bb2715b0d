-- ===== src/Smp/Can/Sender.antt =====
-- subsys/smp/can/smp_can_transport.h and .cpp: the sending side, from a queued packet to its frames.
-- The results of SendFrame() are a function of the number of calls of one run, `burst` is
-- CONFIG_EERIE_LEAP_SMP_CAN_TX_BURST_FRAMES, and the events of a run record what it did.
pub mod Waiting
pub mod Rounds
pub mod Process
pub mod Queue
pub mod Share
pub mod Progress
use rt_core.Prelude.{
  ℕ, zero, suc, ◌+◌, ◌/◌, max, Bool, true, false, ◌||◌, not, Option, none, some, List, [], ◌∷◌,
  ◌++◌, length, replicate, ◌==◌, if◌then◌else◌,
}
use rt_core.Prelude.Bits.{u32}
use rt_core.Smp.Can.FrameFormat.{FrameFormat, get_frame_time_ns}
use rt_core.Smp.Can.IdLayout.{IdLayout, is_valid_address, make_id}
use rt_core.Smp.Can.Framer.{Framer, make_framer, is_done, encode, advance}
use rt_core.Smp.Can.Pacer.{Pacer, make_pacer, reset, update, can_send, get_wait_us, on_sent}

-- A packet, with the peer that its user data holds.
pub record Outgoing : Type 0 where
  pub target : ℕ
  pub packet : List ℕ

-- `has_tx_task` is set by Initialize(); `is_tx_due` is the scheduled task.
pub record Sender : Type 0 where
  pub address : ℕ
  pub layout : IdLayout
  pub bus_share_percent : ℕ
  pub has_tx_task : Bool
  pub is_tx_due : Bool
  pub tx_queue : List Outgoing
  pub tx_packet : Option Outgoing
  pub tx_framer : Framer
  pub pacer : Pacer
  pub pacer_frame_time_ns : ℕ
  pub tx_dropped : ℕ

-- CanbusConfig, as far as it is read.
pub record BusConfig : Type 0 where
  pub is_can_fd : Bool
  pub bitrate : ℕ
  pub data_bitrate : ℕ

-- SendFrame(): 0, -EAGAIN, or another error.
pub data SendResult : Type 0 where
  accepted busy refused : SendResult

pub data TxEvent : Type 0 where
  sent : ℕ → List ℕ → TxEvent
  gave_up : TxEvent

-- WorkQueueTaskResult: the task ends, or runs again after a delay.
pub data TaskResult : Type 0 where
  stop : TaskResult
  run_again_us : ℕ → TaskResult

pub record Run : Type 0 where
  pub sender : Sender
  pub events : List TxEvent
  pub result : TaskResult

abbrev pub tx_retry_delay_us : ℕ
tx_retry_delay_us = 1000

unfoldable pub can_enqueue : Sender → ℕ → List ℕ → Bool
unfolding is_valid_address
can_enqueue s target packet = not (
    length packet == 0
    || (s.address == 0
        || (not s.has_tx_task || (not (is_valid_address target) || target == s.address))))

unfoldable pub enqueue : Sender → ℕ → List ℕ → Bool × Sender
unfolding can_enqueue
enqueue s target packet =
    if can_enqueue s target packet
    then (
      true,
      record s {
        tx_queue = s.tx_queue ++ record { target = target; packet = packet } ∷ [];
        is_tx_due = true;
      },
    )
    else (false, record s { tx_dropped = u32 (s.tx_dropped + 1) })

-- The loop of DropTx() over the queue, as it counts.
unfoldable pub count_dropped : List Outgoing → ℕ → ℕ
count_dropped [] dropped = dropped
count_dropped (p ∷ ps) dropped = count_dropped ps (u32 (dropped + 1))

unfoldable pub drop_tx : Sender → Sender
unfolding count_dropped
drop_tx s = record s {
  tx_packet = none;
  tx_queue = [];
  tx_dropped =
      count_dropped s.tx_queue
        (elim s.tx_packet [ none ↦ s.tx_dropped | some p ↦ u32 (s.tx_dropped + 1) ]);
}

-- The packet in progress, which the queue provides when there is none.
unfoldable pub next_packet : FrameFormat → Sender → Option (Outgoing × Sender)
unfolding make_framer
next_packet format s = elim s.tx_packet [
  | some p ↦ some (p, s)
  | none ↦ elim s.tx_queue [
    | [] ↦ none
    | p ∷ rest ↦ some (
      p,
      record s { tx_queue = rest; tx_packet = some p; tx_framer = make_framer p.packet format },
    )
  ]
]

unfoldable pub give_up : Sender → Sender
give_up s = record s { tx_packet = none; tx_dropped = u32 (s.tx_dropped + 1) }

unfoldable pub after_sent : Sender → Sender
unfolding is_done advance on_sent
after_sent s = record s {
  pacer = on_sent s.pacer;
  tx_framer = advance s.tx_framer;
  tx_packet = if is_done (advance s.tx_framer) then none else s.tx_packet;
}

-- One round of the loop: it ends the run, or goes on after an event.
pub data Round : Type 0 where
  ended : Sender → TaskResult → Round
  went_on : TxEvent → Sender → Round

unfoldable pub on_send_result : Outgoing → Sender → SendResult → Round
unfolding make_id encode after_sent give_up
on_send_result p s accepted =
    went_on (sent (make_id s.layout p.target s.address) (encode s.tx_framer)) (after_sent s)
on_send_result p s busy = ended s (run_again_us tx_retry_delay_us)
on_send_result p s refused = went_on gave_up (give_up s)

unfoldable pub tx_round : SendResult → FrameFormat → ℕ → Sender → Round
unfolding next_packet can_send get_wait_us on_send_result
tx_round outcome format burst s = elim (next_packet format s) [
  | none ↦ ended s stop
  | some (p, s') ↦
      if can_send s'.pacer
      then on_send_result p s' outcome
      else ended s' (run_again_us (get_wait_us s'.pacer (max (burst / 2) 1)))
]

unfoldable pub add_event : TxEvent → Option Run → Option Run
add_event e none = none
add_event e (some r) = some (record r { events = e ∷ r.events })

-- The loop of ProcessTx(); `none` only when the fuel is out.
unfoldable pub send_loop : (ℕ → SendResult) → FrameFormat → ℕ → ℕ → ℕ → Sender → Option Run
unfolding tx_round add_event
send_loop outcomes format burst zero n s = none
send_loop outcomes format burst (suc fuel) n s = elim (tx_round (outcomes n) format burst s) [
  | ended s' result ↦ some (record { sender = s'; events = []; result = result })
  | went_on e s' ↦ add_event e (send_loop outcomes format burst fuel (suc n) s')
]

-- The pacer is built anew when the frame time changes; `none` is its std::invalid_argument.
unfoldable pub pace : ℕ → ℕ → ℕ → Sender → Option Sender
unfolding make_pacer reset update
pace frame_time_ns burst now_us s =
    if frame_time_ns == s.pacer_frame_time_ns
    then some (record s { pacer = update s.pacer now_us })
    else elim (make_pacer frame_time_ns s.bus_share_percent burst) [
      | none ↦ none
      | some p ↦
          some (record s {
            pacer = update (reset p now_us) now_us;
            pacer_frame_time_ns = frame_time_ns;
          })
    ]

-- The configuration that is used without a bus: CanbusType::NONE.
abbrev pub no_config : BusConfig
no_config = record { is_can_fd = false; bitrate = 0; data_bitrate = 0 }

unfoldable pub get_config : Option BusConfig → Sender → BusConfig
get_config canbus s =
    if s.address == 0 then no_config else elim canbus [ none ↦ no_config | some c ↦ c ]

unfoldable pub pending_count : Sender → ℕ
pending_count s = elim s.tx_packet [ none ↦ 0 | some p ↦ 1 ] + length s.tx_queue

unfoldable pub process_tx : (ℕ → SendResult) → Option BusConfig → ℕ → ℕ → ℕ → Sender → Option Run
unfolding get_config get_frame_time_ns drop_tx pending_count pace send_loop
process_tx outcomes canbus burst fuel now_us s =
    let config = get_config canbus s in
    let format : FrameFormat = record { is_can_fd = config.is_can_fd } in
    let frame_time_ns = get_frame_time_ns format config.bitrate config.data_bitrate in
    if frame_time_ns == 0
    then some
        (record { sender = drop_tx s; events = replicate (pending_count s) gave_up; result = stop })
    else elim (pace frame_time_ns burst now_us s) [
      | none ↦ none
      | some s' ↦ send_loop outcomes format burst fuel 0 s'
    ]
