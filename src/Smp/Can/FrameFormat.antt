-- ===== src/Smp/Can/FrameFormat.antt =====
-- subsys/smp/can/smp_can_frame_format.h: classic and CAN FD frames, one control byte and packet data.
use rt_core.Prelude.{
  ℕ, ◌+◌, ◌-◌, ◌*◌, ◌/◌, ◌≤◌, ◌≡◌, Bool, not, ◌||◌, List, [], ◌∷◌, arith, leb, ◌==◌, if◌then◌else◌,
}
use rt_core.Prelude.Bits.{u32}

pub record FrameFormat : Type 0 where
  pub is_can_fd : Bool

abbrev pub classic_frame_size : ℕ
classic_frame_size = 8

abbrev pub can_fd_frame_size : ℕ
can_fd_frame_size = 64

abbrev can_fd_lengths : List ℕ
can_fd_lengths = 12 ∷ 16 ∷ 20 ∷ 24 ∷ 32 ∷ 48 ∷ 64 ∷ []

unfoldable pub get_frame_size : FrameFormat → ℕ
get_frame_size f = if f.is_can_fd then can_fd_frame_size else classic_frame_size

unfoldable pub get_data_size : FrameFormat → ℕ
unfolding get_frame_size
get_data_size f = get_frame_size f - 1

-- The loop over the table of lengths.
first_fitting : ℕ → List ℕ → ℕ
first_fitting size [] = size
first_fitting size (l ∷ ls) = if leb size l then l else first_fitting size ls

unfoldable pub get_padded_size : FrameFormat → ℕ → ℕ
unfolding first_fitting
get_padded_size f size =
    if not f.is_can_fd || leb size classic_frame_size
    then size
    else first_fitting size can_fd_lengths

unfoldable pub get_frame_count : FrameFormat → ℕ → ℕ
unfolding get_data_size
get_frame_count f packet_size = (packet_size + get_data_size f - 1) / get_data_size f

abbrev nanos_per_second : ℕ
nanos_per_second = 1_000_000_000

unfoldable pub get_frame_time_ns : FrameFormat → ℕ → ℕ → ℕ
get_frame_time_ns f bitrate data_bitrate =
    if bitrate == 0
    then 0
    else if not f.is_can_fd
    then u32 (160 * nanos_per_second / bitrate)
    else let data_rate = if data_bitrate == 0 then bitrate else data_bitrate in
      u32 (60 * nanos_per_second / bitrate + 700 * nanos_per_second / data_rate)

-- Padding a size that fits a frame never loses a byte, never leaves the frame, and padding again
-- changes nothing.
pub get_padded_size_bounds :
    (f : FrameFormat) (size : ℕ)
    → size ≤ get_frame_size f
    → (size ≤ get_padded_size f size)
      × (get_padded_size f size ≤ get_frame_size f)
      × (get_padded_size f (get_padded_size f size) ≡ get_padded_size f size)
unfolding get_padded_size get_frame_size
get_padded_size_bounds f size h = ground arith

-- A full frame needs no padding.
pub get_padded_size_full :
    (f : FrameFormat) → get_padded_size f (get_data_size f + 1) ≡ get_data_size f + 1
unfolding get_padded_size get_data_size
get_padded_size_full f = ground arith

pub get_data_size_pos :
    (f : FrameFormat) → (7 ≤ get_data_size f) × (get_frame_size f ≡ get_data_size f + 1)
unfolding get_data_size
get_data_size_pos f = ground arith
