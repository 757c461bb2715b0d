-- ===== src/Smp/Can/Sender/Progress.antt =====
-- smp_can_transport.cpp: the delay after which ProcessTx() asks to run again.
use rt_core.Prelude.{
  ℕ, zero, suc, ◌∙◌, ◌+◌, ◌/◌, ◌<◌, ◌≡◌, sym, max, true, List, Option, subst, none, some, arith,
}
use rt_core.Smp.Can.FrameFormat.{FrameFormat}
use rt_core.Smp.Can.Pacer.{update, can_send, get_wait_us}
use rt_core.Smp.Can.Pacer.Rate.{IsPacer, get_wait_us_enough}
use rt_core.Smp.Can.IdLayout.{make_id}
use rt_core.Smp.Can.Framer.{encode}
use rt_core.Smp.Can.Sender.{
  Outgoing, Sender, BusConfig, SendResult, accepted, sent, Run, after_sent, next_packet, went_on,
  on_send_result, tx_round, add_event, send_loop, pace, process_tx,
}
use rt_core.Smp.Can.Sender.Waiting.{IsSender, work}
use rt_core.Smp.Can.Sender.Rounds.{send_loop-Returned}
use rt_core.Smp.Can.Sender.Process.{format_of}
use rt_core.Smp.Can.Sender.Share.{sent_count, time_of}

-- The run returns, and has sent a frame.
abbrev pub Progresses : Option Run → Type 0
Progresses none = ⊥
Progresses (some r) = 0 < sent_count r.events

-- The moment that a run names when it waits for the pacer.
unfoldable pub wake_time : ℕ → Sender → ℕ
wake_time burst s = s.pacer.last_update_us + get_wait_us s.pacer (max (burst / 2) 1)

first_sends :
    (outcome : SendResult) (format : FrameFormat) (burst : ℕ) (s : Sender) (p : Outgoing)
    → s.tx_packet ≡ some p
    → can_send s.pacer ≡ true
    → outcome ≡ accepted
    → tx_round outcome format burst s
      ≡ went_on (sent (make_id s.layout p.target s.address) (encode s.tx_framer)) (after_sent s)
unfolding tx_round next_packet on_send_result
first_sends outcome format burst s p h c o = ground arith

add_event-Progresses :
    (id : ℕ) (bytes : List ℕ) (o : Option Run) {r : Run}
    → add_event (sent id bytes) o ≡ some r
    → Progresses (add_event (sent id bytes) o)
unfolding add_event
add_event-Progresses id bytes none e = cc
add_event-Progresses id bytes (some r) e = omega arith

send_loop-Progresses :
    (outcomes : ℕ → SendResult) (format : FrameFormat) (burst fuel : ℕ) (s : Sender) (p : Outgoing)
    → IsSender s
    → s.tx_packet ≡ some p
    → can_send s.pacer ≡ true
    → outcomes 0 ≡ accepted
    → work s < fuel
    → Progresses (send_loop outcomes format burst fuel 0 s)
unfolding send_loop
send_loop-Progresses outcomes format burst zero s p v h c o l = absurd (omega arith)
send_loop-Progresses outcomes format burst (suc fuel) s p v h c o l =
    let first = sent (make_id s.layout p.target s.address) (encode s.tx_framer) in
    let rest = send_loop outcomes format burst fuel 1 (after_sent s) in
    let goes : send_loop outcomes format burst (suc fuel) 0 s ≡ add_event first rest =
      ground (arith, first_sends (outcomes 0) format burst s p h c o) in
    let k = send_loop-Returned outcomes format burst (suc fuel) 0 s v l in
    subst Progresses (sym goes) (add_event-Progresses _ _ rest (sym goes ∙ k.returns))

-- A run with a packet in progress, at the moment that waiting for the pacer names, returns and sends a
-- frame when SendFrame() takes its first one.
pub process_tx-Progresses :
    (outcomes : ℕ → SendResult) (canbus : Option BusConfig) (burst fuel : ℕ) (s : Sender)
    (p : Outgoing)
    → IsSender s
    → IsPacer s.pacer
    → s.tx_packet ≡ some p
    → 0 < time_of canbus s
    → s.pacer_frame_time_ns ≡ time_of canbus s
    → outcomes 0 ≡ accepted
    → work s < fuel
    → Progresses (process_tx outcomes canbus burst fuel (wake_time burst s) s)
unfolding process_tx pace work
process_tx-Progresses outcomes canbus burst fuel s p v c h b e o l =
    let now = wake_time burst s in
    let s' = record s { pacer = update s.pacer now } in
    let goes : process_tx outcomes canbus burst fuel now s
        ≡ send_loop outcomes (format_of canbus s) burst fuel 0 s' =
      ground arith in
    let v' : IsSender s' = record {
      queued = v.queued;
      current = v.current;
      count_fits = v.count_fits;
    } in
    let ready = (get_wait_us_enough s.pacer (max (burst / 2) 1) c).1 in
    subst Progresses (sym goes) (
      send_loop-Progresses outcomes (format_of canbus s) burst fuel s' p v' h
        (unfold wake_time in ready) o l)
