-- ===== src/Smp/Can/Sender/Rounds.antt =====
-- smp_can_transport.cpp: the rounds of the loop in ProcessTx(), against the frames that wait.
use rt_core.Prelude.{
  ℕ, zero, suc, ◌+◌, ◌<◌, ◌≡◌, refl, ◌/◌, max, sym, subst, ◌∙◌, inl, inr, false, Option, some, [],
  ◌∷◌, arith, Bool-cases, Option-cases,
}
use rt_core.Prelude.Bits.{u32}
use rt_core.Smp.Can.FrameFormat.{FrameFormat}
use rt_core.Smp.Can.Framer.{is_done}
use rt_core.Smp.Can.Pacer.{can_send, get_wait_us}
use rt_core.Smp.Can.Sender.{
  Outgoing, Sender, SendResult, accepted, busy, refused, TxEvent, Run, next_packet, Round, ended,
  went_on, stop, run_again_us, on_send_result, tx_round, add_event, send_loop,
}
use rt_core.Smp.Can.Sender.Waiting.{
  Emits, Drains, drained, emits, waiting, IsSender, work, count_gave_up, Emitted, next_packet-Taken,
  next_packet-work, give_up-Emitted, after_sent-Emitted,
}

-- What a run leaves: the frames of its events are gone from those that waited, in their order, and the
-- counter has counted the packets given up.
pub record Drained (format : FrameFormat) (s : Sender) (r : Run) : Type 0 where
  pub drains : Drains (waiting format s) r.events (waiting format r.sender)
  pub valid : IsSender r.sender
  pub dropped : r.sender.tx_dropped ≡ u32 (s.tx_dropped + count_gave_up r.events)

-- A round that ends the run leaves the packets that wait.
record Rested (format : FrameFormat) (s t : Sender) : Type 0 where
  same : waiting format s ≡ waiting format t
  pub valid : IsSender t
  count : t.tx_dropped ≡ s.tx_dropped

abbrev RoundKeeps : FrameFormat → Sender → Round → Type 0
RoundKeeps format s (ended t result) = Rested format s t
RoundKeeps format s (went_on e t) = Emitted format s e t

on_send_result-RoundKeeps :
    (format : FrameFormat) (s : Sender) (p : Outgoing) (o : SendResult)
    → s.tx_packet ≡ some p
    → is_done s.tx_framer ≡ false
    → IsSender s
    → RoundKeeps format s (on_send_result p s o)
unfolding on_send_result
on_send_result-RoundKeeps format s p accepted h m v = after_sent-Emitted format s p h m v
on_send_result-RoundKeeps format s p busy h m v = record { same = refl; valid = v; count = refl }
on_send_result-RoundKeeps format s p refused h m v = give_up-Emitted format s p h v

-- A round after a packet was taken, seen from before.
RoundKeeps-before :
    (format : FrameFormat) (s t : Sender) (r : Round)
    → waiting format s ≡ waiting format t
    → work t ≡ work s
    → t.tx_dropped ≡ s.tx_dropped
    → RoundKeeps format t r
    → RoundKeeps format s r
RoundKeeps-before format s t (ended u result) w k d h = record {
  same = w ∙ h.same;
  valid = h.valid;
  count = h.count ∙ d;
}
RoundKeeps-before format s t (went_on e u) w k d h = record {
  step = subst (λ x. Emits x e (waiting format u)) (sym w) h.step;
  valid = h.valid;
  less = omega (arith, h.less);
  dropped = subst (λ n. u.tx_dropped ≡ u32 (n + count_gave_up (e ∷ []))) d h.dropped;
}

tx_round-RoundKeeps :
    (outcome : SendResult) (format : FrameFormat) (burst : ℕ) (s : Sender)
    → IsSender s
    → RoundKeeps format s (tx_round outcome format burst s)
unfolding tx_round
tx_round-RoundKeeps outcome format burst s v = elim (Option-cases (next_packet format s)) [
  | inl missing ↦
      let at_end : tx_round outcome format burst s ≡ ended s stop = ground arith in
      subst (RoundKeeps format s) (sym at_end) (record { same = refl; valid = v; count = refl })
  | inr ((p, t), found) ↦
      let k = next_packet-Taken format s t v found in
      let (same_work, same_count) = next_packet-work format s t found in
      let back = λ (r : Round). RoundKeeps-before format s t r k.keeps same_work same_count in
      elim (Bool-cases (can_send t.pacer)) [
        | inl ready ↦
            let goes : tx_round outcome format burst s ≡ on_send_result p t outcome =
              ground arith in
            subst (RoundKeeps format s) (sym goes)
              (back _ (on_send_result-RoundKeeps format t p outcome k.holds k.more k.valid))
        | inr wait ↦
            let waits : tx_round outcome format burst s
                ≡ ended t (run_again_us (get_wait_us t.pacer (max (burst / 2) 1))) =
              ground arith in
            subst (RoundKeeps format s) (sym waits)
              (record { same = k.keeps; valid = k.valid; count = same_count })
      ]
]

-- With fuel above the work the loop returns, having drained what its events say.
pub record Returned (format : FrameFormat) (s : Sender) (o : Option Run) : Type 0 where
  pub run : Run
  pub returns : o ≡ some run
  pub result : Drained format s run

add_event-Returned :
    (format : FrameFormat) (s t : Sender) (e : TxEvent) (o : Option Run)
    → Emitted format s e t
    → Returned format t o
    → Returned format s (add_event e o)
unfolding add_event
add_event-Returned format s t e o h k = record {
  run = record k.run { events = e ∷ k.run.events };
  returns = rw k.returns refl;
  result = record {
    drains = emits h.step k.result.drains;
    valid = k.result.valid;
    dropped = ground (arith, h.dropped, k.result.dropped);
  };
}

pub send_loop-Returned :
    (outcomes : ℕ → SendResult) (format : FrameFormat) (burst fuel n : ℕ) (s : Sender)
    → IsSender s
    → work s < fuel
    → Returned format s (send_loop outcomes format burst fuel n s)
unfolding send_loop
send_loop-Returned outcomes format burst zero n s v l = absurd (omega arith)
send_loop-Returned outcomes format burst (suc fuel) n s v l =
    after (tx_round (outcomes n) format burst s) (tx_round-RoundKeeps (outcomes n) format burst s v)
      (λ t. send_loop-Returned outcomes format burst fuel (suc n) t)
  where
    after :
        (r : Round)
        → RoundKeeps format s r
        → ((t : Sender)
            → IsSender t
            → work t < fuel
            → Returned format t (send_loop outcomes format burst fuel (suc n) t))
        → Returned format s (elim r [
          | ended t result ↦ some (record { sender = t; events = []; result = result })
          | went_on e t ↦ add_event e (send_loop outcomes format burst fuel (suc n) t)
        ])
    after (ended t result) h rest = record {
      run = record { sender = t; events = []; result = result };
      returns = refl;
      result = record {
        drains = subst (λ w. Drains (waiting format s) [] w) h.same (drained _);
        valid = h.valid;
        dropped = omega (arith, h.count, h.valid.count_fits);
      };
    }
    after (went_on e t) h rest =
        add_event-Returned format s t e _ h (rest t h.valid (omega (arith, h.less)))
