-- ===== src/Cdmp/Network/Claim/Ends.antt =====
-- cdmp_network_service.cpp: an ID claim comes to an end.
use rt_core.Prelude.{
  ℕ, suc, ◌+◌, ◌-◌, ◌*◌, ◌≤◌, ◌<◌, ◌≡◌, refl, sym, subst, inl, inr, Bool, true, false, not, ◌||◌,
  Option, none, some, List, arith, Option-cases, ◌==◌, if◌then◌else◌,
}
use rt_core.Cdmp.Status.{claiming, same_status}
use rt_core.Cdmp.Network.Devices.{PendingIdClaim, get_lowest_available_id}
use rt_core.Cdmp.Network.Devices.Available.{get_lowest_available_id-above}
use rt_core.Cdmp.Network.Service.{NetworkService, run_in_session, enter_error}
use rt_core.Cdmp.Messages.Network.{Heartbeat}
use rt_core.Cdmp.Network.Frames.{process_frame}
use rt_core.Cdmp.Network.Frames.Progress.{
  Kept, KeptBy, process_frame-KeptBy, heartbeat-Kept, periodic-Kept,
}
use rt_core.Cdmp.Network.Service.{update_device_from_heartbeat, process_periodic_tasks}
use rt_core.Cdmp.Network.Claim.{
  Next, finished, again_ms, begin_id_claim, send_id_claim, claim_again, has_result, claim_next,
  run_id_claim_attempt, accept, reject, version_incompatible,
}

-- The claimed identifier is a unit's, and there were at most 10 attempts with it.
pub record IsClaim (s : NetworkService) : Type 0 where
  pub below : s.claiming_device_id < 255
  pub few : s.id_claim_attempt ≤ 10

-- The attempts that are left: 10 for each identifier above, and those of this one.
abbrev attempts_left : ℕ → ℕ → ℕ
attempts_left claiming_id attempt =
    if claiming_id == 0 then 2540 else (254 - claiming_id) * 10 + (10 - attempt)

unfoldable pub claim_budget : NetworkService → ℕ
claim_budget s = attempts_left s.claiming_device_id s.id_claim_attempt

record Attempted (s t : NetworkService) : Type 0 where
  valid : IsClaim t
  less : claim_budget t < claim_budget s

-- A step that runs again has used one attempt.
abbrev StepUses : NetworkService → Next × NetworkService → Type 0
StepUses s (finished, t) = Unit
StepUses s (again_ms d, t) = Attempted s t

claim_again-StepUses :
    (s : NetworkService)
    → IsClaim s
    → (s.claiming_device_id == 0) ≡ false
    → (s.id_claim_attempt == 10) ≡ false
    → StepUses s (claim_again s)
unfolding claim_again send_id_claim claim_budget
claim_again-StepUses s v c a = record {
  valid = record { below = v.below; few = ground arith };
  less = ground arith;
}

abbrev available : ℕ → NetworkService → Option ℕ × List PendingIdClaim
available now s = get_lowest_available_id now s.claiming_device_id s.devices s.pending_id_claims

claim_next-StepUses : (now : ℕ) (s : NetworkService) → IsClaim s → StepUses s (claim_next now s)
unfolding claim_next claim_again send_id_claim claim_budget
claim_next-StepUses now s v = elim (Option-cases (available now s).0) [
  | inl none_left ↦
      let t =
        run_in_session enter_error
          (record s { pending_id_claims = (available now s).1; claiming_device_id = 0 }) in
      let e : claim_next now s ≡ (finished, t) = ground arith in subst (StepUses s) (sym e) tt
  | inr (id, found) ↦
      let (above, below) =
        get_lowest_available_id-above now s.claiming_device_id s.devices s.pending_id_claims v.below
          found in
      let t = record s {
        pending_id_claims = (available now s).1;
        claiming_device_id = id;
        id_claim_attempt = 0;
        id_claim_result = none;
      } in
      let e : claim_next now s ≡ claim_again t = ground arith in
      let used : Attempted s (claim_again t).1 = record {
        valid = record { below = below; few = omega arith };
        less = ground (arith, v.below, v.few, above, below);
      } in
      subst (StepUses s) (sym e) used
]

StepUses-if :
    (s : NetworkService) (b : Bool) (x y : Next × NetworkService)
    → (b ≡ true → StepUses s x)
    → (b ≡ false → StepUses s y)
    → StepUses s (if b then x else y)
StepUses-if s true x y f g = f refl
StepUses-if s false x y f g = g refl

run_id_claim_attempt-StepUses :
    (now : ℕ) (s : NetworkService) → IsClaim s → StepUses s (run_id_claim_attempt now s)
unfolding run_id_claim_attempt
run_id_claim_attempt-StepUses now s v =
    StepUses-if s (not (same_status s.unit.status claiming) || not s.has_bus) _ _ (λ _. tt)
      λ _.
        StepUses-if s (has_result version_incompatible s) _ _ (λ _. tt)
          λ _.
            StepUses-if s (has_result accept s) _ _ (λ _. tt)
              λ _.
                StepUses-if s (s.claiming_device_id == 0 || has_result reject s) _ _
                  (λ _. claim_next-StepUses now s v)
                  λ open_claim.
                    StepUses-if s (s.id_claim_attempt == 10) _ _ (λ _. tt)
                      λ more. claim_again-StepUses s v (ground arith) more

-- The attempts of one claim, and what comes in between two of them: management frames, heartbeats and the
-- periodic validation, each at any time and with any content.
pub data ClaimRun (s : NetworkService) : ℕ → NetworkService → Type 0 where
  begins : ClaimRun s 0 (begin_id_claim s)
  attempts :
      {n : ℕ} {t : NetworkService}
      → ClaimRun s n t
      → (now delay_ms : ℕ) (u : NetworkService)
      → run_id_claim_attempt now t ≡ (again_ms delay_ms, u)
      → ClaimRun s (suc n) u
  receives :
      {n : ℕ} {t : NetworkService}
      → ClaimRun s n t
      → (now : ℕ) (frame : List ℕ) (u : NetworkService) → process_frame now frame t ≡ some u
      → ClaimRun s n u
  hears :
      {n : ℕ} {t : NetworkService}
      → ClaimRun s n t
      → (now : ℕ) (h : Heartbeat) → ClaimRun s n (update_device_from_heartbeat now h t)
  validates :
      {n : ℕ} {t : NetworkService}
      → ClaimRun s n t
      → (now : ℕ) → ClaimRun s n (process_periodic_tasks now t)

record Spent (n : ℕ) (t : NetworkService) : Type 0 where
  valid : IsClaim t
  account : n + claim_budget t ≤ 2540

Kept-Spent : {n : ℕ} {t u : NetworkService} → Spent n t → Kept t u → Spent n u
unfolding claim_budget
Kept-Spent s k = record {
  valid = record {
    below = omega (arith, k.claimed, s.valid.below);
    few = omega (arith, k.attempt, s.valid.few);
  };
  account = ground (arith, k.claimed, k.attempt, s.account);
}

ClaimRun-Spent : {s : NetworkService} {n : ℕ} {t : NetworkService} → ClaimRun s n t → Spent n t
unfolding begin_id_claim claim_budget
ClaimRun-Spent begins = record {
  valid = record { below = omega arith; few = omega arith };
  account = omega arith;
}
ClaimRun-Spent (attempts {n = n} {t = t} r now delay u e) =
    let ih = ClaimRun-Spent r in
    let a : Attempted t u = subst (StepUses t) e (run_id_claim_attempt-StepUses now t ih.valid) in
    record { valid = a.valid; account = omega (arith, a.less, ih.account) }
ClaimRun-Spent (receives {t = t} r now frame u e) =
    Kept-Spent (ClaimRun-Spent r) (subst (KeptBy t) e (process_frame-KeptBy now frame t))
ClaimRun-Spent (hears {t = t} r now h) = Kept-Spent (ClaimRun-Spent r) (heartbeat-Kept now h t)
ClaimRun-Spent (validates {t = t} r now) = Kept-Spent (ClaimRun-Spent r) (periodic-Kept now t)

-- Whatever frames and heartbeats come in meanwhile: a claim runs again at most 2540 times, 10 for each
-- identifier.
pub claim_ends : {s : NetworkService} {n : ℕ} {t : NetworkService} → ClaimRun s n t → n ≤ 2540
claim_ends r = omega (arith, (ClaimRun-Spent r).account)
