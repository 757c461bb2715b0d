-- ===== src/Dfu/Confirmation/Ticks.antt =====
-- image_confirmation.cpp: what the parts of a tick leave as it was.
use rt_core.Prelude.{
  ℕ, ◌+◌, ◌≡◌, refl, ◌⊎◌, inl, inr, Bool, true, false, Option, none, some, List, [], ◌∷◌, ◌++◌,
  arith,
}
use rt_core.Dfu.Confirmation.{
  DfuState, confirmed, verifying, confirming, failed, is_state, ProbeEntry, Call, install, start,
  feed, disable, confirm, arm, ImageConfirmation, check_entries, report_boot_complete, reported,
}

-- The states of the machine.
pub DfuState-cases :
    (a : DfuState) → (a ≡ confirmed) ⊎ ((a ≡ verifying) ⊎ ((a ≡ confirming) ⊎ (a ≡ failed)))
DfuState-cases confirmed = inl refl
DfuState-cases verifying = inr (inl refl)
DfuState-cases confirming = inr (inr (inl refl))
DfuState-cases failed = inr (inr (inr refl))

-- The calls that keep the unit running or the image: feeding the watchdog, and the confirmation.
unfoldable pub feeds : List Call → ℕ
feeds [] = 0
feeds (feed ∷ cs) = 1 + feeds cs
feeds (_ ∷ cs) = feeds cs

unfoldable pub confirms : List Call → ℕ
confirms [] = 0
confirms (confirm ∷ cs) = 1 + confirms cs
confirms (_ ∷ cs) = confirms cs

pub feeds-append : (a b : List Call) → feeds (a ++ b) ≡ feeds a + feeds b
unfolding feeds
feeds-append [] b = omega arith
feeds-append (install n ∷ a) b = feeds-append a b
feeds-append (start ∷ a) b = feeds-append a b
feeds-append (feed ∷ a) b = omega (arith, feeds-append a b)
feeds-append (disable ∷ a) b = feeds-append a b
feeds-append (confirm ∷ a) b = feeds-append a b
feeds-append (arm i ∷ a) b = feeds-append a b

pub confirms-append : (a b : List Call) → confirms (a ++ b) ≡ confirms a + confirms b
unfolding confirms
confirms-append [] b = omega arith
confirms-append (install n ∷ a) b = confirms-append a b
confirms-append (start ∷ a) b = confirms-append a b
confirms-append (feed ∷ a) b = confirms-append a b
confirms-append (disable ∷ a) b = confirms-append a b
confirms-append (confirm ∷ a) b = omega (arith, confirms-append a b)
confirms-append (arm i ∷ a) b = confirms-append a b

-- Judging the probes calls only them.
pub check_entries-quiet :
    (allowed_ms now : ℕ) (ran : ℕ → Bool) (i : ℕ) (probes : List ProbeEntry)
    → let cs = (check_entries allowed_ms now ran i probes).armed_now in
      (feeds cs ≡ 0) × (confirms cs ≡ 0)
unfolding check_entries feeds confirms
check_entries-quiet allowed now ran i [] = (refl, refl)
check_entries-quiet allowed now ran i (e ∷ probes) =
    let (f, c) = check_entries-quiet allowed now ran (i + 1) probes in (ground arith, ground arith)

-- Every probe was posted before and has run since.
unfoldable pub AllRan : (ℕ → Bool) → ℕ → List ProbeEntry → Type 0
AllRan ran i [] = Unit
AllRan ran i (e ∷ probes) = (e.armed ≡ true) × (ran i ≡ true) × AllRan ran (i + 1) probes

pub all_ran-AllRan :
    (allowed_ms now : ℕ) (ran : ℕ → Bool) (i : ℕ) (probes : List ProbeEntry)
    → (check_entries allowed_ms now ran i probes).all_ran ≡ true
    → AllRan ran i probes
unfolding check_entries AllRan
all_ran-AllRan allowed now ran i [] h = tt
all_ran-AllRan allowed now ran i (e ∷ probes) h =
    (ground arith, ground arith, all_ran-AllRan allowed now ran (i + 1) probes (ground arith))

pub report-calls : (o : Option ℕ) (s : ImageConfirmation) → (reported o s).calls ≡ s.calls
unfolding reported report_boot_complete
report-calls none s = refl
report-calls (some b) s = ground arith

-- Reports have no effect but in VERIFYING.
pub reported-same :
    (o : Option ℕ) (s : ImageConfirmation) → is_state s.state verifying ≡ false → reported o s ≡ s
unfolding reported report_boot_complete
reported-same none s h = refl
reported-same (some b) s h = ground arith
