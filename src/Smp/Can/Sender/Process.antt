-- ===== src/Smp/Can/Sender/Process.antt =====
-- smp_can_transport.cpp: every run of ProcessTx(), against the frames that wait.
use rt_core.Prelude.{
  ℕ, zero, suc, ◌+◌, ◌≤◌, ◌<◌, ◌≡◌, refl, ◌*◌, ◌==◌, sym, ap, subst, ◌∙◌, inl, inr, Option, some,
  List, [], ◌∷◌, arith, length, replicate, Bool-cases, Option-cases,
}
use rt_core.Prelude.Bits.{u32}
use rt_core.Smp.Can.FrameFormat.{FrameFormat, get_frame_time_ns}
use rt_core.Smp.Can.IdLayout.{IdLayout}
use rt_core.Smp.Can.Pacer.{Pacer, reset, update}
use rt_core.Smp.Can.Sender.{
  Outgoing, Sender, BusConfig, SendResult, TxEvent, gave_up, Run, drop_tx, count_dropped, stop,
  pace, get_config, pending_count, process_tx,
}
use rt_core.Smp.Can.Sender.Waiting.{
  Waiting, gives_up, Drains, drained, emits, waiting, waiting-some, waiting-none, queue_waiting,
  IsSender, work, count_gave_up,
}
use rt_core.Smp.Can.Sender.Rounds.{Drained, send_loop-Returned}

-- A pacer can be built, and only the pacer changes.
record Paced (format : FrameFormat) (s : Sender) (o : Option Sender) : Type 0 where
  sender : Sender
  returns : o ≡ some sender
  same : waiting format sender ≡ waiting format s
  same_work : work sender ≡ work s
  count : sender.tx_dropped ≡ s.tx_dropped
  valid : IsSender sender

abbrev new_pacer : ℕ → ℕ → ℕ → Pacer
new_pacer frame_time_ns share_percent burst = record {
  rate = share_percent * 1000;
  frame_cost = frame_time_ns * 100;
  capacity = burst * (frame_time_ns * 100);
  credit = 0;
  last_update_us = 0;
}

Paced-with :
    (format : FrameFormat) (s : Sender) (p : Pacer) (time : ℕ) (o : Option Sender)
    → IsSender s
    → o ≡ some (record s { pacer = p; pacer_frame_time_ns = time })
    → Paced format s o
unfolding waiting work
Paced-with format s p time o v e = record {
  sender = record s { pacer = p; pacer_frame_time_ns = time };
  returns = e;
  same = refl;
  same_work = refl;
  count = refl;
  valid = record { queued = v.queued; current = v.current; count_fits = v.count_fits };
}

pace-Paced :
    (format : FrameFormat) (frame_time_ns burst now_us : ℕ) (s : Sender)
    → 0 < burst
    → 0 < frame_time_ns
    → 0 < s.bus_share_percent
    → s.bus_share_percent ≤ 100
    → IsSender s
    → Paced format s (pace frame_time_ns burst now_us s)
unfolding pace
pace-Paced format time burst now s b f p q v = elim (Bool-cases (time == s.pacer_frame_time_ns)) [
  | inl same ↦ Paced-with format s (update s.pacer now) time _ v (ground arith)
  | inr new ↦
      Paced-with format s (update (reset (new_pacer time s.bus_share_percent burst) now) now) time _
        v (ground arith)
]

count_dropped_lem :
    (ps : List Outgoing) (dropped : ℕ)
    → dropped < 4294967296
    → (count_dropped ps dropped ≡ u32 (dropped + length ps))
      × (count_dropped ps dropped < 4294967296)
unfolding count_dropped
count_dropped_lem [] dropped h = omega arith
count_dropped_lem (p ∷ ps) dropped h =
    omega (arith, count_dropped_lem ps (u32 (dropped + 1)) (omega arith))

count_gave_up-replicate : (n : ℕ) → count_gave_up (replicate n gave_up) ≡ n
count_gave_up-replicate zero = refl
count_gave_up-replicate (suc n) = ap suc (count_gave_up-replicate n)

drop_queue :
    (format : FrameFormat) (layout : IdLayout) (address : ℕ) (ps : List Outgoing)
    → Drains (queue_waiting format layout address ps) (replicate (length ps) gave_up) []
unfolding queue_waiting
drop_queue format layout address [] = drained _
drop_queue format layout address (p ∷ ps) =
    emits (gives_up _ _) (drop_queue format layout address ps)

Drains-along :
    {p p' r : Waiting} {es es' : List TxEvent} → p ≡ p' → es ≡ es' → Drains p' es' r → Drains p es r
Drains-along {p' = p'} {r = r} {es = es} a b d =
    subst (λ x. Drains x es r) (sym a) (subst (λ x. Drains p' x r) (sym b) d)

drop_waiting :
    (format : FrameFormat) (s : Sender)
    → Drains (waiting format s) (replicate (pending_count s) gave_up) []
unfolding waiting pending_count
drop_waiting format s = elim (Option-cases s.tx_packet) [
  | inl nothing ↦
      let n : pending_count s ≡ length s.tx_queue = ground arith in
      Drains-along (waiting-none format s nothing) (ap (λ k. replicate k gave_up) n)
        (drop_queue format s.layout s.address s.tx_queue)
  | inr (p, found) ↦
      let n : pending_count s ≡ suc (length s.tx_queue) = ground arith in
      Drains-along (waiting-some format s p found refl) (ap (λ k. replicate k gave_up) n)
        (emits (gives_up _ _) (drop_queue format s.layout s.address s.tx_queue))
]

drop_tx-Drained :
    (format : FrameFormat) (s : Sender)
    → IsSender s
    → Drained format s
        (record { sender = drop_tx s; events = replicate (pending_count s) gave_up; result = stop })
unfolding drop_tx waiting queue_waiting pending_count
drop_tx-Drained format s v = record {
  drains = drop_waiting format s;
  valid = record {
    queued = tt;
    current = tt;
    count_fits = ground (
      arith,
      count_dropped_lem s.tx_queue s.tx_dropped,
      count_dropped_lem s.tx_queue (u32 (s.tx_dropped + 1)),
    );
  };
  dropped = ground (
    arith,
    count_gave_up-replicate (pending_count s),
    count_dropped_lem s.tx_queue s.tx_dropped,
    count_dropped_lem s.tx_queue (u32 (s.tx_dropped + 1)),
  );
}

Drained-before :
    (format : FrameFormat) (s t : Sender) (r : Run)
    → waiting format t ≡ waiting format s
    → t.tx_dropped ≡ s.tx_dropped
    → Drained format t r
    → Drained format s r
Drained-before format s t r w c d = record {
  drains = Drains-along (sym w) refl d.drains;
  valid = d.valid;
  dropped = d.dropped ∙ ap (λ n. u32 (n + count_gave_up r.events)) c;
}

-- The format that a run reads from the bus.
abbrev pub format_of : Option BusConfig → Sender → FrameFormat
format_of canbus s = record { is_can_fd = (get_config canbus s).is_can_fd }

pub record Processed (canbus : Option BusConfig) (s : Sender) (o : Option Run) : Type 0 where
  pub run : Run
  pub returns : o ≡ some run
  pub result : Drained (format_of canbus s) s run

-- With a share of 1 to 100 %, a burst, and fuel above the frames that wait, every run of the sending
-- task returns, whatever SendFrame() answers and whatever the bus is.
pub process_tx-Processed :
    (outcomes : ℕ → SendResult) (canbus : Option BusConfig) (burst fuel now_us : ℕ) (s : Sender)
    → IsSender s
    → 0 < s.bus_share_percent
    → s.bus_share_percent ≤ 100
    → 0 < burst
    → work s < fuel
    → Processed canbus s (process_tx outcomes canbus burst fuel now_us s)
unfolding process_tx
process_tx-Processed outcomes canbus burst fuel now s v p q b l =
    let config = get_config canbus s in
    let time = get_frame_time_ns (format_of canbus s) config.bitrate config.data_bitrate in
    elim (Bool-cases (time == 0)) [
      | inl none_yet ↦ record { run = _; returns = ground arith; result = drop_tx-Drained _ s v }
      | inr known ↦
          let paced = pace-Paced (format_of canbus s) time burst now s b (ground arith) p q v in
          let k =
            send_loop-Returned outcomes (format_of canbus s) burst fuel 0 paced.sender paced.valid
              (omega (arith, paced.same_work)) in
          record {
            run = k.run;
            returns = ground (arith, paced.returns, k.returns);
            result = Drained-before _ s paced.sender k.run paced.same paced.count k.result;
          }
    ]
