-- ===== src/Smp/Can/Framer/Frames.antt =====
-- smp_can_framer.cpp: the control byte, the length of a frame, and the number of frames.
use rt_core.Prelude.{
  ℕ, zero, suc, ◌+◌, ◌-◌, ◌/◌, ◌%◌, ◌≤◌, ◌<◌, ◌≡◌, ap, ◌∙◌, List, arith, length, take, drop,
  replicate, length-append, length-take, length-drop, length-replicate, ◌==◌, ◌!=◌, if◌then◌else◌,
  bit_and,
}
use rt_core.Prelude.Bits.{and-low_mask, and-high_mask, high-or-low, zero-bit_or}
use rt_core.Smp.Can.FrameFormat.{
  FrameFormat, get_data_size, get_padded_size, get_frame_count, get_padded_size_bounds,
  get_data_size_pos,
}
use rt_core.Smp.Can.Framer.{
  Framer, make_framer, is_done, current_data_size, control_byte, frame_data, advance, frames,
  start_flag, sequence_mask,
}

control_byte_sum :
    (f : Framer)
    → f.sequence < 128
    → control_byte f ≡ (if f.offset == 0 then 128 else 0) + f.sequence
unfolding control_byte
control_byte_sum f h =
    rw (and-low_mask 7 f.sequence)
      (ground (arith, high-or-low 7 1 (f.sequence % 128), zero-bit_or (f.sequence % 128)))

-- The receiver's two fields of the control byte: the sequence number, and the start flag.
pub control_byte_fields :
    (f : Framer)
    → f.sequence < 128
    → (bit_and (control_byte f) sequence_mask ≡ f.sequence)
      × ((bit_and (control_byte f) start_flag != 0) ≡ (f.offset == 0))
control_byte_fields f h = ground (
  arith,
  control_byte_sum f h,
  and-low_mask 7 (control_byte f),
  and-high_mask 7 1 (control_byte f),
  and-low_mask 1 (control_byte f / 128),
)

pub length-frame_data :
    (f : Framer) → length (frame_data f) + 1 ≡ get_padded_size f.format (current_data_size f + 1)
unfolding frame_data
length-frame_data f = omega (
  arith,
  length-append (take d (drop f.offset f.packet)) (replicate {A = ℕ} pad 0),
  length-take d (drop f.offset f.packet),
  length-drop f.offset f.packet,
  length-replicate {A = ℕ} pad 0,
  small,
  get_padded_size_bounds f.format (d + 1) (omega (arith, small, get_data_size_pos f.format)),
)
  where
    d : ℕ
    d = current_data_size f

    pad : ℕ
    pad = get_padded_size f.format (d + 1) - (1 + d)

    small : (d ≤ get_data_size f.format) × (d ≤ length f.packet - f.offset)
    small = unfold current_data_size in (omega arith, omega arith)

frame_count :
    (fuel : ℕ) (f : Framer)
    → length f.packet - f.offset ≤ fuel
    → length (frames fuel f) ≡ get_frame_count f.format (length f.packet - f.offset)
unfolding frames get_frame_count is_done advance
frame_count zero f h = ground arith
frame_count (suc fuel) f h = ground (arith, frame_count fuel (advance f))

-- The loop sends as many frames as GetFrameCount() announces, and ends within one round for each
-- byte of the packet.
pub length-frames :
    (p : List ℕ) (format : FrameFormat) (fuel : ℕ)
    → length p ≤ fuel
    → length (frames fuel (make_framer p format)) ≡ get_frame_count format (length p)
unfolding make_framer
length-frames p format fuel h =
    let whole : length p - 0 ≡ length p = omega arith in
    frame_count fuel (make_framer p format) (omega arith) ∙ ap (get_frame_count format) whole
