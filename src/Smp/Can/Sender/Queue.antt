-- ===== src/Smp/Can/Sender/Queue.antt =====
-- smp_can_transport.cpp: Enqueue(), against the frames that wait.
use rt_core.Prelude.{
  ℕ, ◌+◌, ◌%◌, ◌<◌, ◌≡◌, ◌≢◌, refl, sym, ap, subst, ◌⊎◌, inl, inr, Bool, true, false, List, [], ◌∷◌,
  ◌++◌, arith, length, Bool-cases,
}
use rt_core.Prelude.Bits.{u32}
use rt_core.Smp.Can.FrameFormat.{FrameFormat}
use rt_core.Smp.Can.IdLayout.{IdLayout, is_valid_address}
use rt_core.Smp.Can.Framer.{make_framer}
use rt_core.Smp.Can.Sender.{Outgoing, Sender, can_enqueue, enqueue}
use rt_core.Smp.Can.Sender.Waiting.{
  to_events, frames_left, waiting, queue_waiting, IsSender, AllFilled,
}

AllFilled-append :
    (ps : List Outgoing) (p : Outgoing)
    → AllFilled ps
    → 0 < length p.packet
    → AllFilled (ps ++ p ∷ [])
AllFilled-append [] p f h = (h, tt)
AllFilled-append (q ∷ ps) p (g, f) h = (g, AllFilled-append ps p f h)

queue_waiting-append :
    (format : FrameFormat) (layout : IdLayout) (address : ℕ) (ps : List Outgoing) (p : Outgoing)
    → queue_waiting format layout address (ps ++ p ∷ [])
      ≡ queue_waiting format layout address ps ++ queue_waiting format layout address (p ∷ [])
unfolding queue_waiting to_events frames_left
queue_waiting-append format layout address [] p = refl
queue_waiting-append format layout address (q ∷ ps) p =
    ap (◌∷◌ (to_events layout address q.target (frames_left (make_framer q.packet format))))
      (queue_waiting-append format layout address ps p)

-- A packet that may be queued: it is not empty, the transport is at an address and has its task, and the
-- target is another unit's address.
pub record IsAcceptable (s : Sender) (target : ℕ) (packet : List ℕ) : Type 0 where
  pub filled : 0 < length packet
  pub is_bound : s.address ≢ 0
  pub has_task : s.has_tx_task ≡ true
  pub has_target : (target ≢ 0) × (target ≢ 255)
  pub is_peer : target ≢ s.address

can_enqueue-IsAcceptable :
    (s : Sender) (target : ℕ) (packet : List ℕ)
    → can_enqueue s target packet ≡ true
    → IsAcceptable s target packet
unfolding can_enqueue is_valid_address
can_enqueue-IsAcceptable s target packet e = record {
  filled = ground arith;
  is_bound = ground arith;
  has_task = ground arith;
  has_target = ground arith;
  is_peer = ground arith;
}

IsAcceptable-can_enqueue :
    (s : Sender) (target : ℕ) (packet : List ℕ)
    → IsAcceptable s target packet
    → can_enqueue s target packet ≡ true
unfolding can_enqueue is_valid_address
IsAcceptable-can_enqueue s target packet a =
    ground (arith, a.filled, a.is_bound, a.has_task, a.has_target, a.is_peer)

-- A packet that Enqueue() takes: its frames wait behind all others, and the task is scheduled.
pub record Accepted (format : FrameFormat) (s : Sender) (target : ℕ) (packet : List ℕ)
    (r : Bool × Sender) : Type 0 where
  pub is_right : IsAcceptable s target packet
  pub says : r.0 ≡ true
  pub waits :
      waiting format r.1
      ≡ waiting format s
        ++ to_events s.layout s.address target (frames_left (make_framer packet format)) ∷ []
  pub is_due : r.1.is_tx_due ≡ true
  pub dropped : r.1.tx_dropped ≡ s.tx_dropped

-- A packet that Enqueue() drops.
pub record Refused (format : FrameFormat) (s : Sender) (target : ℕ) (packet : List ℕ)
    (r : Bool × Sender) : Type 0 where
  pub is_wrong : ¬ IsAcceptable s target packet
  pub says : r.0 ≡ false
  pub waits : waiting format r.1 ≡ waiting format s
  pub is_due : r.1.is_tx_due ≡ s.is_tx_due
  pub dropped : r.1.tx_dropped ≡ (s.tx_dropped + 1) % 4294967296

-- What Enqueue() returns and leaves.
abbrev pub Enqueued : FrameFormat → Sender → ℕ → List ℕ → Bool × Sender → Type 0
Enqueued format s target packet r =
    IsSender r.1 × (Accepted format s target packet r ⊎ Refused format s target packet r)

-- Enqueue() of a packet that is not empty, to the valid address of another unit, by a bound transport
-- with its task: it returns true, the frames of the packet wait behind all others that wait, the task is
-- scheduled, and nothing is counted as dropped. Any other packet it refuses: it returns false, counts one
-- dropped packet modulo 2^32, and leaves what waits and the task's schedule. Both keep the sender valid.
pub enqueue-Enqueued :
    (format : FrameFormat) (s : Sender) (target : ℕ) (packet : List ℕ)
    → IsSender s
    → Enqueued format s target packet (enqueue s target packet)
unfolding enqueue waiting queue_waiting
enqueue-Enqueued format s target packet v =
    let p : Outgoing = record { target = target; packet = packet } in
    elim (Bool-cases (can_enqueue s target packet)) [
      | inl ok ↦
          let a = can_enqueue-IsAcceptable s target packet ok in
          let e : enqueue s target packet
              ≡ (true, record s { tx_queue = s.tx_queue ++ p ∷ []; is_tx_due = true }) =
            ground arith in
          subst (Enqueued format s target packet) (sym e) (
            record {
              queued = AllFilled-append s.tx_queue p v.queued a.filled;
              current = v.current;
              count_fits = v.count_fits;
            },
            inl (record {
              is_right = a;
              says = refl;
              waits = ground (arith, queue_waiting-append format s.layout s.address s.tx_queue p);
              is_due = refl;
              dropped = refl;
            }),
          )
      | inr bad ↦
          let e : enqueue s target packet
              ≡ (false, record s { tx_dropped = u32 (s.tx_dropped + 1) }) =
            ground arith in
          subst (Enqueued format s target packet) (sym e) (
            record { queued = v.queued; current = v.current; count_fits = omega arith },
            inr (record {
              is_wrong = λ a. cc (IsAcceptable-can_enqueue s target packet a);
              says = refl;
              waits = refl;
              is_due = refl;
              dropped = refl;
            }),
          )
    ]
