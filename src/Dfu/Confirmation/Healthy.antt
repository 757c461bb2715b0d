-- ===== src/Dfu/Confirmation/Healthy.antt =====
-- image_confirmation.cpp: a healthy image is confirmed.
use rt_core.Prelude.{ℕ, ◌≡◌, Bool, true, false, ◌&&◌, List, [], ◌∷◌, ◌++◌, if◌then◌else◌}
use rt_core.Prelude.Bits.{u32}
use rt_core.Dfu.Confirmation.{
  confirmed, confirming, ProbeEntry, Call, ImageConfirmation, Round, call, check_and_rearm_probes,
  decide_confirmation, tick,
}

-- No client confirms the image, every probe that was posted runs before the tick, and the bootloader
-- takes the confirmation.
pub record IsHealthy (r : Round) : Type 0 where
  pub unconfirmed : r.is_confirmed ≡ false
  pub probes_run : (i : ℕ) → r.ran i ≡ true
  pub takes : r.confirm_result ≡ 0

unfoldable all_armed : List ProbeEntry → Bool
all_armed [] = true
all_armed (e ∷ probes) = e.armed && all_armed probes

-- A tick that finds the image confirming itself, up to the decision.
record IsFed (r : Round) (s fed : ImageConfirmation) : Type 0 where
  all_ran : Bool
  ticked : tick r s ≡ decide_confirmation r (u32 r.clock_ms) all_ran fed
  state : fed.state ≡ confirming
  due : fed.confirm_at_ms ≡ s.confirm_at_ms
  own : fed.config.self_confirm ≡ s.config.self_confirm
  armed : all_armed fed.probes ≡ true
  ran : all_armed s.probes ≡ true → all_ran ≡ true

fed_by : Round → ImageConfirmation → ImageConfirmation
unfolding check_and_rearm_probes call
fed_by r s =
    let checked = check_and_rearm_probes (u32 r.clock_ms) r.ran s in
    let t = record s { probes = checked.entries; calls = s.calls ++ checked.armed_now } in
    if t.is_watchdog_armed then call Call.feed t else t

-- Confirmed, or confirming itself with every probe posted.
data Settled (s t : ImageConfirmation) : Type 0 where
  is_confirmed : t.state ≡ confirmed → Settled s t
  waits :
      t.state ≡ confirming
      → all_armed t.probes ≡ true
      → t.confirm_at_ms ≡ s.confirm_at_ms
      → t.config.self_confirm ≡ s.config.self_confirm
      → Settled s t
