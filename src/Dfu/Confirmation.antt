-- ===== src/Dfu/Confirmation.antt =====
-- subsys/dfu/image_confirmation.h and .cpp: a new image is confirmed, or the unit is left to its watchdog.
-- The clock, the bootloader, the watchdog and the probes are injected; what they answer is an argument.
pub mod Ticks
pub mod Confirmed
pub mod History
pub mod Failed
pub mod Healthy
use rt_core.Prelude.{
  ℕ, suc, ◌+◌, ◌-◌, ◌/◌, max, Bool, true, false, not, ◌&&◌, ◌||◌, Option, none, some, List, [], ◌∷◌,
  ◌++◌, ltb, leb, ◌==◌, ◌!=◌, if◌then◌else◌,
}
use rt_core.Prelude.Bits.{u32}

pub data DfuState : Type 0 where
  confirmed verifying confirming failed : DfuState

unfoldable pub is_state : DfuState → DfuState → Bool
is_state confirmed confirmed = true
is_state verifying verifying = true
is_state confirming confirming = true
is_state failed failed = true
is_state _ _ = false

pub record Config : Type 0 where
  pub self_confirm : Bool
  pub boot_deadline_ms : ℕ
  pub confirm_delay_ms : ℕ
  pub watchdog_timeout_ms : ℕ

-- A probe is known by its place in the list.
pub record ProbeEntry : Type 0 where
  pub armed : Bool
  pub armed_at_ms : ℕ

-- The calls of the bootloader, the watchdog and the probes that change them, in their order.
pub data Call : Type 0 where
  install : ℕ → Call
  start feed disable confirm : Call
  arm : ℕ → Call

pub record ImageConfirmation : Type 0 where
  pub config : Config
  pub has_watchdog : Bool
  pub probes : List ProbeEntry
  pub state : DfuState
  pub is_watchdog_armed : Bool
  pub deadline_ms : ℕ
  pub confirm_at_ms : ℕ
  pub calls : List Call

unfoldable pub call : Call → ImageConfirmation → ImageConfirmation
call c s = record s { calls = s.calls ++ c ∷ [] }

unfoldable pub make_image_confirmation : Bool → Config → ImageConfirmation
make_image_confirmation has_watchdog config = record {
  config = config;
  has_watchdog = has_watchdog;
  probes = [];
  state = confirmed;
  is_watchdog_armed = false;
  deadline_ms = 0;
  confirm_at_ms = 0;
  calls = [];
}

-- `now - at` on 32 bits, read as a signed number, is not negative.
unfoldable pub is_reached : ℕ → ℕ → Bool
is_reached now at = ltb (u32 (now + 4294967296 - at)) 2147483648

-- An error of the watchdog or the bootloader is its errno without the sign, and 0 is success.
unfoldable pub arm_watchdog : ℕ → ℕ → ImageConfirmation → ℕ × ImageConfirmation
unfolding call
arm_watchdog install_result start_result s =
    let installed = call (install s.config.watchdog_timeout_ms) s in
    let started = call start installed in
    if install_result != 0
    then (install_result, installed)
    else if start_result != 0
    then (start_result, started)
    else (0, record started { is_watchdog_armed = true })

unfoldable pub disable_watchdog : ℕ → ImageConfirmation → ImageConfirmation
unfolding call
disable_watchdog disable_result s =
    let t = call disable (call feed s) in
    if not s.is_watchdog_armed
    then s
    else if disable_result != 0
    then t
    else record t { is_watchdog_armed = false }

unfoldable pub stand_down : ℕ → ImageConfirmation → ImageConfirmation
unfolding disable_watchdog
stand_down disable_result s = disable_watchdog disable_result (record s { state = confirmed })

pub record Checked : Type 0 where
  pub is_healthy : Bool
  pub all_ran : Bool
  pub entries : List ProbeEntry
  pub armed_now : List Call

-- The loop of CheckAndRearmProbes() from the probe `i` on; `ran` is what Check() of a probe answers.
unfoldable pub check_entries : ℕ → ℕ → (ℕ → Bool) → ℕ → List ProbeEntry → Checked
check_entries allowed_ms now ran i [] = record {
  is_healthy = true;
  all_ran = true;
  entries = [];
  armed_now = [];
}
check_entries allowed_ms now ran i (entry ∷ probes) =
    let rest = check_entries allowed_ms now ran (i + 1) probes in
    let posted : ProbeEntry = record { armed = true; armed_at_ms = now } in
    let age_ms = u32 (now + 4294967296 - entry.armed_at_ms) in
    if not entry.armed
    then record rest {
      all_ran = false;
      entries = posted ∷ rest.entries;
      armed_now = arm i ∷ rest.armed_now;
    }
    else if ran i
    then record rest { entries = posted ∷ rest.entries; armed_now = arm i ∷ rest.armed_now }
    else if leb allowed_ms age_ms
    then record rest { is_healthy = false; all_ran = false; entries = entry ∷ rest.entries }
    else record rest { all_ran = false; entries = entry ∷ rest.entries }

unfoldable pub check_and_rearm_probes : ℕ → (ℕ → Bool) → ImageConfirmation → Checked
unfolding check_entries
check_and_rearm_probes now ran s =
    check_entries (s.config.watchdog_timeout_ms / 2) now ran 0 s.probes

-- `clock_ms` is the 64-bit clock.
unfoldable pub initialize : Bool → ℕ → ℕ → ℕ → ImageConfirmation → ℕ × ImageConfirmation
unfolding arm_watchdog
initialize is_confirmed install_result start_result clock_ms s =
    let (result, t) =
      if s.has_watchdog then arm_watchdog install_result start_result s else (0, s) in
    if is_confirmed then (0, record s { state = confirmed }) else (
      result,
      record t { deadline_ms = u32 (u32 clock_ms + s.config.boot_deadline_ms); state = verifying },
    )

unfoldable pub add_probe : ImageConfirmation → ImageConfirmation
add_probe s = record s { probes = s.probes ++ record { armed = false; armed_at_ms = 0 } ∷ [] }

unfoldable pub report_boot_complete : ℕ → ImageConfirmation → ImageConfirmation
unfolding is_state is_reached
report_boot_complete clock_ms s =
    if not (is_state s.state verifying)
    then s
    else if is_reached (u32 clock_ms) s.deadline_ms
    then record s { state = failed }
    else record s {
      confirm_at_ms = u32 (u32 clock_ms + s.config.confirm_delay_ms);
      state = confirming;
    }

-- What one Tick() meets. The last three are the calls of ReportBootComplete() that another thread makes
-- while it runs, each at a time of the clock: before the state is exchanged, before the probes are judged
-- and before the confirmation is decided.
pub record Round : Type 0 where
  pub clock_ms : ℕ
  pub is_confirmed : Bool
  pub ran : ℕ → Bool
  pub disable_result : ℕ
  pub confirm_result : ℕ
  pub before_exchange : Option ℕ
  pub before_probes : Option ℕ
  pub before_decision : Option ℕ

unfoldable pub reported : Option ℕ → ImageConfirmation → ImageConfirmation
unfolding report_boot_complete
reported none s = s
reported (some clock_ms) s = report_boot_complete clock_ms s

-- The end of Tick(), after the feeding.
unfoldable pub decide_confirmation : Round → ℕ → Bool → ImageConfirmation → ImageConfirmation
unfolding is_state is_reached call stand_down
decide_confirmation r now all_ran s =
    if not s.config.self_confirm || not (is_state s.state confirming)
    then s
    else if not (is_reached now s.confirm_at_ms)
    then s
    else if not all_ran
    then s
    else if r.confirm_result != 0
    then call confirm s
    else stand_down r.disable_result (call confirm s)

unfoldable pub feed_and_decide : Round → ℕ → Bool → ImageConfirmation → ImageConfirmation
unfolding call reported decide_confirmation
feed_and_decide r now all_ran s =
    let fed = if s.is_watchdog_armed then call feed s else s in
    decide_confirmation r now all_ran (reported r.before_decision fed)

unfoldable pub judge_probes : Round → ℕ → ImageConfirmation → ImageConfirmation
unfolding is_state check_and_rearm_probes feed_and_decide
judge_probes r now s =
    let checked = check_and_rearm_probes now r.ran s in
    let t = record s { probes = checked.entries; calls = s.calls ++ checked.armed_now } in
    if not (is_state s.state confirming)
    then feed_and_decide r now true s
    else if not checked.is_healthy
    then record t { state = failed }
    else feed_and_decide r now checked.all_ran t

unfoldable pub tick : Round → ImageConfirmation → ImageConfirmation
unfolding is_state is_reached disable_watchdog stand_down reported judge_probes
tick r s =
    let now = u32 r.clock_ms in
    let t = reported r.before_exchange s in
    if is_state s.state confirmed
    then disable_watchdog r.disable_result s
    else if r.is_confirmed
    then stand_down r.disable_result s
    else if is_state s.state failed
    then s
    else if is_state s.state verifying && is_reached now s.deadline_ms
    then if is_state t.state verifying
      then record t { state = failed }
      else if is_state t.state failed
      then t
      else judge_probes r now (reported r.before_probes t)
    else judge_probes r now (reported r.before_probes t)

unfoldable pub get_tick_interval_ms : ImageConfirmation → ℕ
get_tick_interval_ms s = max (s.config.watchdog_timeout_ms / 4) 1

unfoldable pub needs_tick : ImageConfirmation → Bool
unfolding is_state
needs_tick s = is_state s.state verifying || is_state s.state confirming || s.is_watchdog_armed

unfoldable pub get_confirm_in_ms : ℕ → ImageConfirmation → Option ℕ
unfolding is_state
get_confirm_in_ms clock_ms s =
    let remaining = u32 (s.confirm_at_ms + 4294967296 - u32 clock_ms) in
    if not s.config.self_confirm || not (is_state s.state confirming)
    then none
    else some (if ltb remaining 2147483648 then remaining else 0)
