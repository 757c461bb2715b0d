-- ===== src/Smp/Can/Pacer.antt =====
-- subsys/smp/can/smp_can_pacer.h and .cpp: a token bucket in bus time. The values stand for int64_t
-- that never go negative: `on_sent` is called only after `can_send`, and times are uptimes.
pub mod Rate
use rt_core.Prelude.{
  ℕ, ◌+◌, ◌-◌, ◌*◌, ◌/◌, min, max, Bool, ◌&&◌, ◌||◌, Option, none, some, ltb, leb, ◌==◌,
  if◌then◌else◌,
}
use rt_core.Prelude.Bits.{u32}

pub record Pacer : Type 0 where
  pub rate : ℕ
  pub frame_cost : ℕ
  pub capacity : ℕ
  pub credit : ℕ
  pub last_update_us : ℕ

-- The default constructor: a pacer that never allows a frame.
unfoldable pub no_pacer : Pacer
no_pacer = record { rate = 0; frame_cost = 0; capacity = 0; credit = 0; last_update_us = 0 }

-- `none` is std::invalid_argument.
unfoldable pub make_pacer : ℕ → ℕ → ℕ → Option Pacer
make_pacer frame_time_ns share_percent burst_frames =
    if frame_time_ns == 0 || (share_percent == 0 || (ltb 100 share_percent || burst_frames == 0))
    then none
    else some (record {
      rate = share_percent * 1000;
      frame_cost = frame_time_ns * 100;
      capacity = burst_frames * (frame_time_ns * 100);
      credit = 0;
      last_update_us = 0;
    })

unfoldable pub reset : Pacer → ℕ → Pacer
reset p now_us = record p { credit = p.capacity; last_update_us = now_us }

unfoldable pub update : Pacer → ℕ → Pacer
update p now_us =
    if p.rate == 0 || leb now_us p.last_update_us
    then p
    else let elapsed_us = min (now_us - p.last_update_us) (p.capacity / p.rate + 1) in
      record p { credit = min p.capacity (p.credit + elapsed_us * p.rate); last_update_us = now_us }

unfoldable pub can_send : Pacer → Bool
can_send p = ltb 0 p.rate && leb p.frame_cost p.credit

unfoldable pub on_sent : Pacer → Pacer
on_sent p = record p { credit = p.credit - p.frame_cost }

-- INT64_MAX.
abbrev pub forever : ℕ
forever = 9223372036854775807

unfoldable pub get_wait_us : Pacer → ℕ → ℕ
get_wait_us p frames =
    if p.rate == 0
    then forever
    else let needed = min p.capacity (max frames 1 * p.frame_cost) in
      if leb needed p.credit then 0 else (needed - p.credit + p.rate - 1) / p.rate

unfoldable pub get_frames_per_second : Pacer → ℕ
get_frames_per_second p = if p.frame_cost == 0 then 0 else u32 (p.rate * 1_000_000 / p.frame_cost)
