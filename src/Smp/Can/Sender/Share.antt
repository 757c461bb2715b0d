-- ===== src/Smp/Can/Sender/Share.antt =====
-- smp_can_transport.cpp: the share of the bus that ProcessTx() keeps to, over any history of runs.
use rt_core.Prelude.{ℕ, suc, ◌+◌, ◌≡◌, true, Option, none, some, List, [], ◌∷◌}
use rt_core.Smp.Can.FrameFormat.{FrameFormat, get_frame_time_ns}
use rt_core.Smp.Can.Pacer.{Pacer, can_send, on_sent}
use rt_core.Smp.Can.Pacer.Rate.{Trace, sent as spent}
use rt_core.Smp.Can.Sender.{
  Sender, BusConfig, SendResult, TxEvent, sent, gave_up, Run, enqueue, Round, ended, went_on,
  get_config, process_tx,
}
use rt_core.Smp.Can.Sender.Process.{format_of}

abbrev pub sent_count : List TxEvent → ℕ
sent_count [] = 0
sent_count (sent id bytes ∷ es) = suc (sent_count es)
sent_count (gave_up ∷ es) = sent_count es

-- What a round or a run leaves of the sender's identity.
record Same (s t : Sender) : Type 0 where
  address : t.address ≡ s.address
  time : t.pacer_frame_time_ns ≡ s.pacer_frame_time_ns

-- A frame goes out only when the pacer allows it, and is charged to it.
abbrev Charged : TxEvent → Pacer → Pacer → Type 0
Charged (sent id bytes) p q = (can_send p ≡ true) × (q ≡ on_sent p)
Charged gave_up p q = q ≡ p

abbrev RoundCharged : Sender → Round → Type 0
RoundCharged s (ended t result) = Same s t × (t.pacer ≡ s.pacer)
RoundCharged s (went_on e t) = Same s t × Charged e s.pacer t.pacer

record Took (s t : Sender) : Type 0 where
  same : Same s t
  pacer : t.pacer ≡ s.pacer

-- The pacer of a run has allowed each frame that the run has sent.
record Allowed (p : Pacer) (n : ℕ) (s : Sender) (r : Run) : Type 0 where
  same : Same s r.sender
  trace : Trace p (n + sent_count r.events) r.sender.pacer

abbrev AllowedIf : Pacer → ℕ → Sender → Option Run → Type 0
AllowedIf p n s none = Unit
AllowedIf p n s (some r) = Allowed p n s r

-- Runs of the task and queued packets in any order, on one bus; the number counts the frames sent.
pub data History (canbus : Option BusConfig) (burst : ℕ) (s : Sender) : ℕ → Sender → Type 0 where
  begins : History canbus burst s 0 s
  queues :
      {n : ℕ} {t : Sender}
      → History canbus burst s n t
      → (target : ℕ) (packet : List ℕ) → History canbus burst s n (enqueue t target packet).1
  runs :
      {n : ℕ} {t : Sender}
      → History canbus burst s n t
      → (outcomes : ℕ → SendResult) (fuel now_us : ℕ) (r : Run)
      → process_tx outcomes canbus burst fuel now_us t ≡ some r
      → History canbus burst s (n + sent_count r.events) r.sender

-- The frame time of the bus.
abbrev pub time_of : Option BusConfig → Sender → ℕ
time_of canbus s =
    get_frame_time_ns (format_of canbus s) (get_config canbus s).bitrate
      (get_config canbus s).data_bitrate
