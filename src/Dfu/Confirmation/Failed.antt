-- ===== src/Dfu/Confirmation/Failed.antt =====
-- image_confirmation.cpp: a unit that fails is left to its watchdog.
use rt_core.Prelude.{
  zero, suc, ℕ, ◌+◌, ◌-◌, ◌/◌, ◌≤◌, ◌≡◌, refl, sym, ap, subst, ◌∙◌, Bool, true, false, Option, none,
  some, List, [], ◌∷◌, ◌++◌, arith, get_elem?,
}
use rt_core.Prelude.Bits.{u32}
use rt_core.Dfu.Confirmation.{
  verifying, confirming, failed, is_state, ProbeEntry, Call, ImageConfirmation, Round, is_reached,
  check_entries, check_and_rearm_probes, report_boot_complete, reported, add_probe, judge_probes,
  tick,
}
use rt_core.Dfu.Confirmation.Ticks.{
  feeds, confirms, feeds-append, confirms-append, check_entries-quiet, reported-same,
}

-- What comes after: ticks that find the image unconfirmed, reports and new probes, in any order.
pub data Unconfirmed (s : ImageConfirmation) : ImageConfirmation → Type 0 where
  begins : Unconfirmed s s
  ticks :
      {t : ImageConfirmation}
      → Unconfirmed s t
      → (r : Round) → r.is_confirmed ≡ false
      → Unconfirmed s (tick r t)
  reports :
      {t : ImageConfirmation}
      → Unconfirmed s t
      → (clock_ms : ℕ) → Unconfirmed s (report_boot_complete clock_ms t)
  adds : {t : ImageConfirmation} → Unconfirmed s t → Unconfirmed s (add_probe t)

-- The unit has failed and was neither fed nor confirmed since `cs`.
record IsLeft (cs : List Call) (t : ImageConfirmation) : Type 0 where
  is_failed : t.state ≡ failed
  unfed : feeds t.calls ≡ feeds cs
  unconfirmed : confirms t.calls ≡ confirms cs

IsLeft-same :
    (cs : List Call) (t u : ImageConfirmation)
    → u.state ≡ t.state
    → u.calls ≡ t.calls
    → IsLeft cs t
    → IsLeft cs u
IsLeft-same cs t u e f l = record {
  is_failed = e ∙ l.is_failed;
  unfed = ap feeds f ∙ l.unfed;
  unconfirmed = ap confirms f ∙ l.unconfirmed;
}

tick-failed :
    (r : Round) (t : ImageConfirmation) → r.is_confirmed ≡ false → t.state ≡ failed → tick r t ≡ t
unfolding tick is_state
tick-failed r t c f = ground arith

report-failed :
    (clock_ms : ℕ) (t : ImageConfirmation) → t.state ≡ failed → report_boot_complete clock_ms t ≡ t
unfolding report_boot_complete is_state
report-failed clock t f = ground arith

Unconfirmed-IsLeft :
    {cs : List Call} {s t : ImageConfirmation} → Unconfirmed s t → IsLeft cs s → IsLeft cs t
unfolding add_probe
Unconfirmed-IsLeft begins l = l
Unconfirmed-IsLeft {cs} (ticks {t = t} u r c) l =
    let ih = Unconfirmed-IsLeft u l in subst (IsLeft cs) (sym (tick-failed r t c ih.is_failed)) ih
Unconfirmed-IsLeft {cs} (reports {t = t} u clock) l =
    let ih = Unconfirmed-IsLeft u l in
    subst (IsLeft cs) (sym (report-failed clock t ih.is_failed)) ih
Unconfirmed-IsLeft {cs} (adds {t = t} u) l =
    IsLeft-same cs t (add_probe t) refl refl (Unconfirmed-IsLeft u l)

-- A probe that was posted and has not run within the time allowed.
abbrev pub IsStuck : ℕ → ℕ → (ℕ → Bool) → ℕ → Option ProbeEntry → Type 0
IsStuck allowed_ms now ran i none = ⊥
IsStuck allowed_ms now ran i (some e) =
    (e.armed ≡ true) × (ran i ≡ false) × (allowed_ms ≤ u32 (now + 4294967296 - e.armed_at_ms))

check_entries-stuck :
    (allowed_ms now : ℕ) (ran : ℕ → Bool) (i j : ℕ) (probes : List ProbeEntry)
    → IsStuck allowed_ms now ran (i + j) (get_elem? probes j)
    → (check_entries allowed_ms now ran i probes).is_healthy ≡ false
unfolding check_entries
check_entries-stuck allowed now ran i j [] h = absurd h
check_entries-stuck allowed now ran i zero (e ∷ probes) (armed, stuck, late) =
    let here : ran i ≡ false = subst (λ k. ran k ≡ false) (omega arith) stuck in ground arith
check_entries-stuck allowed now ran i (suc j) (e ∷ probes) h =
    let there =
      check_entries-stuck allowed now ran (i + 1) j probes
        (subst (λ k. IsStuck allowed now ran k (get_elem? probes j)) (omega arith) h) in
    ground arith

-- A tick at which the boot deadline is reached and boot complete was not reported, or at which a probe is
-- stuck while the image is about to confirm itself.
pub data Fails (r : Round) (s : ImageConfirmation) : Type 0 where
  missed_deadline :
      s.state ≡ verifying
      → r.before_exchange ≡ none
      → is_reached (u32 r.clock_ms) s.deadline_ms ≡ true
      → Fails r s
  stuck_probe :
      s.state ≡ confirming
      → (i : ℕ)
      → IsStuck (s.config.watchdog_timeout_ms / 2) (u32 r.clock_ms) r.ran i (get_elem? s.probes i)
      → Fails r s

missed-IsLeft :
    (r : Round) (s : ImageConfirmation)
    → r.is_confirmed ≡ false
    → s.state ≡ verifying
    → r.before_exchange ≡ none
    → is_reached (u32 r.clock_ms) s.deadline_ms ≡ true
    → IsLeft s.calls (tick r s)
unfolding tick is_state reported
missed-IsLeft r s c v b d =
    let e : tick r s ≡ record s { state = failed } = ground arith in
    subst (IsLeft s.calls) (sym e) (record { is_failed = refl; unfed = refl; unconfirmed = refl })

stuck-IsLeft :
    (r : Round) (s : ImageConfirmation) (i : ℕ)
    → r.is_confirmed ≡ false
    → s.state ≡ confirming
    → IsStuck (s.config.watchdog_timeout_ms / 2) (u32 r.clock_ms) r.ran i (get_elem? s.probes i)
    → IsLeft s.calls (tick r s)
unfolding tick is_state judge_probes check_and_rearm_probes
stuck-IsLeft r s i c v stuck =
    let checked = check_and_rearm_probes (u32 r.clock_ms) r.ran s in
    let quiet =
      check_entries-quiet (s.config.watchdog_timeout_ms / 2) (u32 r.clock_ms) r.ran 0 s.probes in
    let sick =
      check_entries-stuck (s.config.watchdog_timeout_ms / 2) (u32 r.clock_ms) r.ran 0 i s.probes (
        subst
          (λ k.
            IsStuck (s.config.watchdog_timeout_ms / 2) (u32 r.clock_ms) r.ran k
              (get_elem? s.probes i))
          (omega arith) stuck) in
    let a : reported r.before_exchange s ≡ s = reported-same r.before_exchange s (ground arith) in
    let b : reported r.before_probes s ≡ s = reported-same r.before_probes s (ground arith) in
    let t : ImageConfirmation = record s {
      probes = checked.entries;
      calls = s.calls ++ checked.armed_now;
      state = failed;
    } in
    let f : judge_probes r (u32 r.clock_ms) s ≡ t = ground arith in
    let e : tick r s ≡ judge_probes r (u32 r.clock_ms) s = ground arith in
    subst (IsLeft s.calls) (sym (e ∙ f)) (record {
      is_failed = refl;
      unfed = omega (arith, feeds-append s.calls checked.armed_now, quiet.0);
      unconfirmed = omega (arith, confirms-append s.calls checked.armed_now, quiet.1);
    })

Fails-IsLeft :
    (r : Round) (s : ImageConfirmation)
    → r.is_confirmed ≡ false
    → Fails r s
    → IsLeft s.calls (tick r s)
Fails-IsLeft r s c (missed_deadline v b d) = missed-IsLeft r s c v b d
Fails-IsLeft r s c (stuck_probe v i h) = stuck-IsLeft r s i c v h

-- The tick of an unconfirmed image that misses the boot deadline without a report, or finds a posted probe
-- that has not run for half the watchdog timeout while the image is about to confirm itself, fails the
-- image; and whatever ticks, reports and probes follow without a client's confirmation: the state stays
-- FAILED, the watchdog is not fed and the image not confirmed, by this tick or later.
pub tick-Fails :
    (r : Round) (s t : ImageConfirmation)
    → r.is_confirmed ≡ false
    → Fails r s
    → Unconfirmed (tick r s) t
    → (t.state ≡ failed) × (feeds t.calls ≡ feeds s.calls) × (confirms t.calls ≡ confirms s.calls)
tick-Fails r s t c f u =
    let l = Unconfirmed-IsLeft u (Fails-IsLeft r s c f) in (l.is_failed, l.unfed, l.unconfirmed)
