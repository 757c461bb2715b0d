-- ===== src/Dfu/Confirmation/History.antt =====
-- image_confirmation.cpp: the life of the machine, from Initialize() on.
use rt_core.Prelude.{ℕ, ◌+◌, ◌≤◌, ◌≡◌, true, false}
use rt_core.Prelude.Bits.{u32}
use rt_core.Dfu.Confirmation.{
  Config, confirming, ImageConfirmation, Round, is_reached, initialize, report_boot_complete,
  add_probe, tick,
}
use rt_core.Dfu.Confirmation.Ticks.{AllRan}
use rt_core.Dfu.Confirmation.Confirmed.{IsTimed}

-- An unconfirmed boot, and the ticks, reports and new probes after it; the first number is the time of the
-- clock at the end.
pub data History (s : ImageConfirmation) : ℕ → ImageConfirmation → Type 0 where
  boots :
      (clock_ms install_result start_result : ℕ)
      → History s clock_ms (initialize false install_result start_result clock_ms s).1
  ticks :
      {c : ℕ} {t : ImageConfirmation}
      → History s c t
      → (r : Round) (until : ℕ) → c ≤ r.clock_ms
      → IsTimed r until
      → History s until (tick r t)
  reports :
      {c : ℕ} {t : ImageConfirmation}
      → History s c t
      → (clock_ms : ℕ) → c ≤ clock_ms
      → History s clock_ms (report_boot_complete clock_ms t)
  adds : {c : ℕ} {t : ImageConfirmation} → History s c t → History s c (add_probe t)

-- Boot complete was reported by `until`, in time, and the delay counts from then.
pub record ReportedBy (until : ℕ) (s : ImageConfirmation) : Type 0 where
  pub at : ℕ
  pub by : at ≤ until
  pub in_time : is_reached (u32 at) s.deadline_ms ≡ false
  pub delayed : s.confirm_at_ms ≡ u32 (u32 at + s.config.confirm_delay_ms)

-- With the configuration `g`: in CONFIRMING, boot complete was reported.
record Claims (g : Config) (c : ℕ) (s : ImageConfirmation) : Type 0 where
  config : s.config ≡ g
  reported_by : s.state ≡ confirming → ReportedBy c s

-- What leaves the times as they are and does not make the state CONFIRMING.
record Calm (s t : ImageConfirmation) : Type 0 where
  config : t.config ≡ s.config
  deadline : t.deadline_ms ≡ s.deadline_ms
  delayed : t.confirm_at_ms ≡ s.confirm_at_ms
  state : t.state ≡ confirming → s.state ≡ confirming

-- What the image earns its own confirmation with.
pub record Earned (r : Round) (t : ImageConfirmation) : Type 0 where
  pub by_itself : t.config.self_confirm ≡ true
  pub probes_ran : AllRan r.ran 0 t.probes
  pub reported_at : ℕ
  pub in_time : is_reached (u32 reported_at) t.deadline_ms ≡ false
  pub elapsed : reported_at + t.config.confirm_delay_ms ≤ r.clock_ms
