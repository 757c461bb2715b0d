-- ===== src/Canbus/Signal.antt =====
-- domain/canbus_domain/utilities/can_signal_codec.h and .cpp: the bits that a signal occupies in the data of
-- a frame. The scaling between the raw number and a floating-point value is not modelled. A frame has at
-- most 64 bytes, so no position wraps at 32 bits.
pub mod Bits
pub mod Layout
pub mod RoundTrip
use rt_core.Prelude.{
  ℕ, zero, suc, ◌+◌, ◌-◌, ◌*◌, ◌/◌, ◌%◌, ◌^◌, Bool, true, false, not, ◌&&◌, ◌||◌, Option, none,
  some, List, [], ◌∷◌, length, get_elem?, ltb, leb, ◌==◌, if◌then◌else◌,
}
use rt_core.Prelude.Tables.{modify_at}

pub data ByteOrder : Type 0 where
  little_endian_intel big_endian_motorola : ByteOrder

pub record Signal : Type 0 where
  pub start_bit : ℕ
  pub size_bits : ℕ
  pub byte_order : ByteOrder
  pub is_signed : Bool

abbrev pub max_signal_size_bits : ℕ
max_signal_size_bits = 64

-- (x >> k) & 1.
unfoldable pub bit : ℕ → ℕ → ℕ
bit zero x = x % 2
bit (suc k) x = bit k (x / 2)

-- The bit `k` of `x` becomes `b`: `x |= 1 << k`, or `x &= ~(1 << k)`.
unfoldable pub put_bit : ℕ → ℕ → ℕ → ℕ
put_bit zero b x = x / 2 * 2 + b
put_bit (suc k) b x = put_bit k b (x / 2) * 2 + x % 2

-- The bits of the data; a read past the end is 0.
unfoldable pub bit_in : ℕ → Option ℕ → ℕ
unfolding bit
bit_in k none = 0
bit_in k (some x) = bit k x

unfoldable pub bit_at : List ℕ → ℕ → ℕ
unfolding bit_in
bit_at bytes p = bit_in (p % 8) (get_elem? bytes (p / 8))

unfoldable pub put_at : ℕ → ℕ → List ℕ → List ℕ
unfolding modify_at put_bit
put_at p b bytes = modify_at (p / 8) (put_bit (p % 8) b) bytes

unfoldable pub get_last_byte_index : Signal → ℕ
get_last_byte_index s = elim s.byte_order [
  | little_endian_intel ↦ (s.start_bit + s.size_bits - 1) / 8
  | big_endian_motorola ↦
      let bits_in_start_byte = s.start_bit % 8 + 1 in
      if leb s.size_bits bits_in_start_byte
      then s.start_bit / 8
      else s.start_bit / 8 + (s.size_bits - bits_in_start_byte + 7) / 8
]

unfoldable pub is_layout_valid : Signal → ℕ → Bool
unfolding get_last_byte_index
is_layout_valid s data_size =
    not (s.size_bits == 0 || ltb max_signal_size_bits s.size_bits)
    && ltb s.start_bit (data_size * 8)
    && ltb (get_last_byte_index s) data_size

-- ForEachSignalBit(), as the pairs of a frame bit and a signal bit that the handler gets, from the round
-- `i` on or with `n` rounds left.
unfoldable pub intel_bits : ℕ → ℕ → ℕ → List (ℕ × ℕ)
intel_bits start_bit i zero = []
intel_bits start_bit i (suc n) = (start_bit + i, i) ∷ intel_bits start_bit (i + 1) n

unfoldable pub motorola_next : ℕ → ℕ
motorola_next p = if p % 8 == 0 then p + 15 else p - 1

unfoldable pub motorola_bits : ℕ → ℕ → List (ℕ × ℕ)
unfolding motorola_next
motorola_bits p zero = []
motorola_bits p (suc n) = (p, n) ∷ motorola_bits (motorola_next p) n

unfoldable pub signal_bits : Signal → List (ℕ × ℕ)
unfolding intel_bits motorola_bits
signal_bits s = elim s.byte_order [
  | little_endian_intel ↦ intel_bits s.start_bit 0 s.size_bits
  | big_endian_motorola ↦ motorola_bits s.start_bit s.size_bits
]

-- The handler of Decode().
unfoldable pub read_bits : List (ℕ × ℕ) → List ℕ → ℕ → ℕ
unfolding bit_at put_bit
read_bits [] bytes raw = raw
read_bits ((p, k) ∷ ps) bytes raw =
    read_bits ps bytes (if bit_at bytes p == 1 then put_bit k 1 raw else raw)

-- The handler of Encode().
unfoldable pub write_bits : List (ℕ × ℕ) → ℕ → List ℕ → List ℕ
unfolding bit put_at
write_bits [] raw bytes = bytes
write_bits ((p, k) ∷ ps) raw bytes = write_bits ps raw (put_at p (bit k raw) bytes)

-- `none` is a layout that does not fit.
unfoldable pub decode_raw : Signal → List ℕ → Option ℕ
unfolding is_layout_valid signal_bits read_bits
decode_raw s bytes =
    if not (is_layout_valid s (length bytes))
    then none
    else some (read_bits (signal_bits s) bytes 0)

-- Decode() on a signed signal: the bits above its sign are those of ~SignalMask(), which the raw number
-- does not have.
unfoldable pub sign_extended : Signal → ℕ → ℕ
unfolding bit
sign_extended s raw =
    if s.is_signed && bit (s.size_bits - 1) raw == 1 then raw + (2 ^ 64 - 2 ^ s.size_bits) else raw

unfoldable pub encode_raw : Signal → ℕ → List ℕ → Option (List ℕ)
unfolding is_layout_valid signal_bits write_bits
encode_raw s raw bytes =
    if not (is_layout_valid s (length bytes))
    then none
    else some (write_bits (signal_bits s) raw bytes)
