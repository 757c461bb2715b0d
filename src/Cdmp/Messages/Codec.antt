-- ===== src/Cdmp/Messages/Codec.antt =====
-- What the message decoders of subsys/cdmp/models/messages share: their outcome, and little-endian
-- words. A decoder that indexes a frame past its end has no defined result in C++.
use rt_core.Prelude.{ℕ, ◌+◌, ◌*◌, ◌/◌, ◌%◌, ◌<◌, ◌≡◌, sym, ap, ◌∙◌, List, [], ◌∷◌, arith, bit_or}
use rt_core.Prelude.Bits.{shl, shr, u8, u16, high-or-low}

pub data Decoded {ℓ} (A : Type ℓ) : Type ℓ where
  message : A → Decoded A
  -- std::invalid_argument.
  invalid : Decoded A
  -- frame_data[i] with i >= frame_data.size().
  out_of_bounds : Decoded A

-- The four bytes of a word, lowest first, each a static_cast<uint8_t> of a shift.
unfoldable pub word32_bytes : ℕ → List ℕ
word32_bytes n = u8 n ∷ u8 (shr n 8) ∷ u8 (shr n 16) ∷ u8 (shr n 24) ∷ []

unfoldable pub read_word32 : ℕ → ℕ → ℕ → ℕ → ℕ
read_word32 b0 b1 b2 b3 = bit_or (bit_or (bit_or (shl b3 24) (shl b2 16)) (shl b1 8)) b0

unfoldable pub read_word16 : ℕ → ℕ → ℕ
read_word16 b0 b1 = u16 (bit_or (shl b1 8) b0)

read_word32_sum :
    (b0 b1 b2 b3 : ℕ)
    → b0 < 256
    → b1 < 256
    → b2 < 256
    → read_word32 b0 b1 b2 b3 ≡ b3 * 16777216 + b2 * 65536 + b1 * 256 + b0
unfolding read_word32
read_word32_sum b0 b1 b2 b3 h0 h1 h2 =
    let e3 = high-or-low 24 b3 (b2 * 65536) (omega arith) in
    let s3 : (b3 * 256 + b2) * 65536 ≡ bit_or (b3 * 16777216) (b2 * 65536) = omega (arith, e3) in
    let e2 = high-or-low 16 (b3 * 256 + b2) (b1 * 256) (omega arith) in
    let s2 : (b3 * 65536 + b2 * 256 + b1) * 256 ≡ bit_or ((b3 * 256 + b2) * 65536) (b1 * 256) =
      omega (arith, e2) in
    let e1 = high-or-low 8 (b3 * 65536 + b2 * 256 + b1) b0 h0 in
    ap (λ (t : ℕ). bit_or (bit_or t (b1 * 256)) b0) (sym s3)
    ∙ ap (λ (t : ℕ). bit_or t b0) (sym s2)
    ∙ omega (arith, e1)

-- A word read from its own bytes is the word.
pub read_word32_bytes :
    (n : ℕ) → n < 4294967296 → read_word32 (u8 n) (u8 (shr n 8)) (u8 (shr n 16)) (u8 (shr n 24)) ≡ n
read_word32_bytes n h =
    read_word32_sum (u8 n) (u8 (shr n 8)) (u8 (shr n 16)) (u8 (shr n 24)) (omega arith)
      (omega arith) (omega arith)
    ∙ omega arith

pub read_word16_bytes : (n : ℕ) → n < 65536 → read_word16 (u8 n) (u8 (shr n 8)) ≡ n
unfolding read_word16
read_word16_bytes n h = omega (arith, high-or-low 8 (u8 (shr n 8)) (u8 n) (omega arith))

-- The word that four bytes give fits 32 bits, and has these bytes.
pub bytes-read_word32 :
    (b0 b1 b2 b3 : ℕ)
    → b0 < 256
    → b1 < 256
    → b2 < 256
    → b3 < 256
    → let n = read_word32 b0 b1 b2 b3 in
      (n < 4294967296)
      × (n % 256 ≡ b0)
      × (n / 256 % 256 ≡ b1)
      × (n / 65536 % 256 ≡ b2)
      × (n / 16777216 ≡ b3)
bytes-read_word32 b0 b1 b2 b3 h0 h1 h2 h3 =
    let e = read_word32_sum b0 b1 b2 b3 h0 h1 h2 in
    (omega arith, omega arith, omega arith, omega arith, omega arith)

pub bytes-read_word16 :
    (b0 b1 : ℕ)
    → b0 < 256
    → b1 < 256
    → let n = read_word16 b0 b1 in (n < 65536) × (n % 256 ≡ b0) × (n / 256 ≡ b1)
unfolding read_word16
bytes-read_word16 b0 b1 h0 h1 =
    let e = high-or-low 8 b1 b0 h0 in (omega arith, omega arith, omega arith)
