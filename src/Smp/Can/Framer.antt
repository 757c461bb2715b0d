-- ===== src/Smp/Can/Framer.antt =====
-- subsys/smp/can/smp_can_framer.h and .cpp: a packet as a sequence of frames. `encode` returns the
-- first `frame_size` bytes of the array that Encode() fills; the bytes behind them are not sent.
pub mod Frames
use rt_core.Prelude.{
  ℕ, zero, suc, ◌+◌, ◌-◌, min, Bool, List, [], ◌∷◌, ◌++◌, length, take, drop, replicate, leb, ◌==◌,
  if◌then◌else◌, bit_and, bit_or,
}
use rt_core.Prelude.Bits.{u8}
use rt_core.Smp.Can.FrameFormat.{FrameFormat, get_data_size, get_padded_size}

abbrev pub start_flag : ℕ
start_flag = 0x80

abbrev pub sequence_mask : ℕ
sequence_mask = 0x7F

pub record Framer : Type 0 where
  pub packet : List ℕ
  pub format : FrameFormat
  pub offset : ℕ
  pub sequence : ℕ

unfoldable pub make_framer : List ℕ → FrameFormat → Framer
make_framer packet format = record { packet = packet; format = format; offset = 0; sequence = 0 }

unfoldable pub is_done : Framer → Bool
is_done f = leb (length f.packet) f.offset

unfoldable pub current_data_size : Framer → ℕ
current_data_size f = min (get_data_size f.format) (length f.packet - f.offset)

-- `frame[0]`.
unfoldable pub control_byte : Framer → ℕ
control_byte f =
    u8 (bit_or (if f.offset == 0 then start_flag else 0) (bit_and f.sequence sequence_mask))

-- The packet bytes of the frame, and zeros up to the frame's length.
unfoldable pub frame_data : Framer → List ℕ
unfolding current_data_size
frame_data f =
    let data_size = current_data_size f in
    let frame_size = get_padded_size f.format (data_size + 1) in
    take data_size (drop f.offset f.packet) ++ replicate (frame_size - (1 + data_size)) 0

unfoldable pub encode : Framer → List ℕ
unfolding is_done control_byte frame_data
encode f = if is_done f then [] else control_byte f ∷ frame_data f

unfoldable pub advance : Framer → Framer
unfolding is_done current_data_size
advance f = if is_done f then f else record f {
  offset = f.offset + current_data_size f;
  sequence = bit_and (f.sequence + 1) sequence_mask;
}

-- The frames of a packet in order: encode and advance until the framer is done.
unfoldable pub frames : ℕ → Framer → List (List ℕ)
frames zero f = []
frames (suc fuel) f =
    let rest = encode f ∷ frames fuel (advance f) in if is_done f then [] else rest
