-- ===== src/Dfu/Confirmation/Confirmed.antt =====
-- image_confirmation.cpp: when an image confirms itself.
use rt_core.Prelude.{
  ℕ, ◌+◌, ◌/◌, ◌≤◌, ◌<◌, ◌≡◌, ap, ◌∙◌, inl, inr, Bool, true, false, Option, none, some, [], ◌∷◌,
  ◌++◌, arith, if◌then◌else◌, Bool-cases,
}
use rt_core.Prelude.Bits.{u32}
use rt_core.Dfu.Confirmation.{
  Config, confirmed, verifying, confirming, is_state, Call, ImageConfirmation, Round, call,
  is_reached, disable_watchdog, stand_down, check_and_rearm_probes, report_boot_complete, reported,
  decide_confirmation, feed_and_decide, judge_probes, tick,
}
use rt_core.Dfu.Confirmation.Ticks.{
  confirms, confirms-append, check_entries-quiet, report-calls, reported-same, AllRan,
  all_ran-AllRan, DfuState-cases,
}

-- A report while a tick runs comes after the tick has read the clock, and not long after.
unfoldable pub IsWithin : ℕ → ℕ → Option ℕ → Type 0
IsWithin from until none = Unit
IsWithin from until (some b) = (from ≤ b) × (b ≤ until)

-- The tick `r` ends at `until`, within 2 ^ 30 ms.
pub record IsTimed (r : Round) (until : ℕ) : Type 0 where
  pub ordered : r.clock_ms ≤ until
  pub short : until < r.clock_ms + 1073741824
  pub exchange : IsWithin r.clock_ms until r.before_exchange
  pub probes : IsWithin r.clock_ms until r.before_probes
  pub decision : IsWithin r.clock_ms until r.before_decision

-- The delay is at least 1 ms and below 2 ^ 30.
pub record IsConfig (c : Config) : Type 0 where
  pub delay_pos : 0 < c.confirm_delay_ms
  pub delay_short : c.confirm_delay_ms < 1073741824

-- `now` is before the time at which the image may confirm itself, if it may at all.
record NotDue (now : ℕ) (s : ImageConfirmation) : Type 0 where
  config : IsConfig s.config
  early : s.state ≡ confirming → is_reached (u32 now) s.confirm_at_ms ≡ false

reported-NotDue :
    (now until : ℕ) (o : Option ℕ) (s : ImageConfirmation)
    → until < now + 1073741824
    → IsWithin now until o
    → NotDue now s
    → NotDue now (reported o s)
unfolding reported report_boot_complete IsWithin is_reached
reported-NotDue now until none s l w n = n
reported-NotDue now until (some b) s l (from, to) n = record {
  config = ground (arith, n.config);
  early = λ h. elim (Bool-cases (is_state s.state verifying)) [
    | inl v ↦ ground (arith, n.config.delay_pos, n.config.delay_short)
    | inr other ↦ ground (arith, n.early)
  ];
}

decide-NotDue :
    (r : Round) (now : ℕ) (all_ran : Bool) (s : ImageConfirmation)
    → NotDue now s
    → decide_confirmation r (u32 now) all_ran s ≡ s
unfolding decide_confirmation is_state
decide-NotDue r now all_ran s n = elim (DfuState-cases s.state) [
  | inl e ↦ ground (arith, e)
  | inr (inl e) ↦ ground (arith, e)
  | inr (inr (inl e)) ↦ ground (arith, e, n.early e)
  | inr (inr (inr e)) ↦ ground (arith, e)
]

feed-confirms :
    (s : ImageConfirmation)
    → confirms (if s.is_watchdog_armed then call Call.feed s else s).calls ≡ confirms s.calls
unfolding call confirms
feed-confirms s = ground (arith, confirms-append s.calls (Call.feed ∷ []))

feed_and_decide-NotDue :
    (r : Round) (now until : ℕ) (all_ran : Bool) (s : ImageConfirmation)
    → until < now + 1073741824
    → IsWithin now until r.before_decision
    → NotDue now s
    → confirms (feed_and_decide r (u32 now) all_ran s).calls ≡ confirms s.calls
unfolding feed_and_decide call
feed_and_decide-NotDue r now until all_ran s l w n =
    let fed = if s.is_watchdog_armed then call Call.feed s else s in
    let fed-NotDue : NotDue now fed = record {
      config = ground (arith, n.config);
      early = λ h. ground (arith, n.early);
    } in
    let later = reported-NotDue now until r.before_decision fed l w fed-NotDue in
    ap (λ (t : ImageConfirmation). confirms t.calls)
      (decide-NotDue r now all_ran (reported r.before_decision fed) later)
    ∙ ap confirms (report-calls r.before_decision fed)
    ∙ feed-confirms s

judge-NotDue :
    (r : Round) (now until : ℕ) (s : ImageConfirmation)
    → until < now + 1073741824
    → IsWithin now until r.before_decision
    → NotDue now s
    → confirms (judge_probes r (u32 now) s).calls ≡ confirms s.calls
unfolding judge_probes check_and_rearm_probes
judge-NotDue r now until s l w n =
    let checked = check_and_rearm_probes (u32 now) r.ran s in
    let t = record s { probes = checked.entries; calls = s.calls ++ checked.armed_now } in
    let quiet : confirms t.calls ≡ confirms s.calls = omega (
      arith,
      confirms-append s.calls checked.armed_now,
      (check_entries-quiet (s.config.watchdog_timeout_ms / 2) (u32 now) r.ran 0 s.probes).1,
    ) in
    let fed = feed_and_decide-NotDue r now until true s l w n in
    let fed_t =
      feed_and_decide-NotDue r now until checked.all_ran t l w
        (record { config = n.config; early = n.early }) in
    ground arith

disable-confirms :
    (result : ℕ) (s : ImageConfirmation)
    → confirms (disable_watchdog result s).calls ≡ confirms s.calls
unfolding disable_watchdog call confirms
disable-confirms result s = ground (
  arith,
  confirms-append s.calls (Call.feed ∷ []),
  confirms-append (s.calls ++ Call.feed ∷ []) (Call.disable ∷ []),
)

stand_down-confirms :
    (result : ℕ) (s : ImageConfirmation) → confirms (stand_down result s).calls ≡ confirms s.calls
unfolding stand_down
stand_down-confirms result s = disable-confirms result (record s { state = confirmed })

tick-verifying :
    (r : Round) (until : ℕ) (s : ImageConfirmation)
    → IsTimed r until
    → IsConfig s.config
    → s.state ≡ verifying
    → confirms (tick r s).calls ≡ confirms s.calls
unfolding tick is_state
tick-verifying r until s timed c v =
    let n : NotDue r.clock_ms s = record { config = c; early = λ h. ground arith } in
    let t = reported r.before_exchange s in
    let u = reported r.before_probes t in
    let t-NotDue =
      reported-NotDue r.clock_ms until r.before_exchange s timed.short timed.exchange n in
    let u-NotDue =
      reported-NotDue r.clock_ms until r.before_probes t timed.short timed.probes t-NotDue in
    let judged : confirms (judge_probes r (u32 r.clock_ms) u).calls ≡ confirms s.calls =
      judge-NotDue r r.clock_ms until u timed.short timed.decision u-NotDue
      ∙ ap confirms (report-calls r.before_probes t)
      ∙ ap confirms (report-calls r.before_exchange s) in
    let first : confirms t.calls ≡ confirms s.calls =
      ap confirms (report-calls r.before_exchange s) in
    let down = stand_down-confirms r.disable_result s in ground arith

-- What a confirmation by the unit itself rests on.
pub record Justified (r : Round) (s : ImageConfirmation) : Type 0 where
  pub by_itself : s.config.self_confirm ≡ true
  pub was_confirming : s.state ≡ confirming
  pub due : is_reached (u32 r.clock_ms) s.confirm_at_ms ≡ true
  pub probes_ran : AllRan r.ran 0 s.probes

-- The confirmation of a state that is confirming.
decide-Confirms :
    (r : Round) (now : ℕ) (all_ran : Bool) (s : ImageConfirmation)
    → confirms s.calls < confirms (decide_confirmation r now all_ran s).calls
    → (s.config.self_confirm ≡ true) × (is_reached now s.confirm_at_ms ≡ true) × (all_ran ≡ true)
unfolding decide_confirmation
decide-Confirms r now all_ran s h = (ground arith, ground arith, ground arith)

confirming-Confirms :
    (r : Round) (s : ImageConfirmation)
    → s.state ≡ confirming
    → confirms s.calls < confirms (tick r s).calls
    → Justified r s
unfolding tick is_state judge_probes feed_and_decide check_and_rearm_probes
confirming-Confirms r s e h =
    let now = u32 r.clock_ms in
    let checked = check_and_rearm_probes now r.ran s in
    let t = record s { probes = checked.entries; calls = s.calls ++ checked.armed_now } in
    let fed = if t.is_watchdog_armed then call Call.feed t else t in
    let quiet : confirms t.calls ≡ confirms s.calls = omega (
      arith,
      confirms-append s.calls checked.armed_now,
      (check_entries-quiet (s.config.watchdog_timeout_ms / 2) now r.ran 0 s.probes).1,
    ) in
    let same1 : reported r.before_exchange s ≡ s =
      reported-same r.before_exchange s (ground arith) in
    let same2 : reported r.before_probes s ≡ s = reported-same r.before_probes s (ground arith) in
    let same3 : reported r.before_decision fed ≡ fed =
      reported-same r.before_decision fed (unfold call in (ground arith)) in
    let down = stand_down-confirms r.disable_result s in
    let e1 : feed_and_decide r now checked.all_ran t
        ≡ decide_confirmation r now checked.all_ran fed =
      ap (decide_confirmation r now checked.all_ran) same3 in
    let calls : confirms fed.calls ≡ confirms s.calls = feed-confirms t ∙ quiet in
    let more : confirms fed.calls < confirms (decide_confirmation r now checked.all_ran fed).calls =
      ground arith in
    let (own, reached, ran) = decide-Confirms r now checked.all_ran fed more in
    record {
      by_itself = unfold call in (ground arith);
      was_confirming = e;
      due = unfold call in (ground arith);
      probes_ran = all_ran-AllRan (s.config.watchdog_timeout_ms / 2) now r.ran 0 s.probes ran;
    }

pub tick-Confirms :
    (r : Round) (until : ℕ) (s : ImageConfirmation)
    → IsTimed r until
    → IsConfig s.config
    → confirms s.calls < confirms (tick r s).calls
    → Justified r s
unfolding tick is_state
tick-Confirms r until s timed c h = elim (DfuState-cases s.state) [
  | inl e ↦ absurd (ground (arith, disable-confirms r.disable_result s))
  | inr (inl e) ↦ absurd (ground (arith, tick-verifying r until s timed c e))
  | inr (inr (inl e)) ↦ confirming-Confirms r s e h
  | inr (inr (inr e)) ↦ absurd (ground (arith, stand_down-confirms r.disable_result s))
]
