-- ===== src/Smp/Header/RoundTrip.antt =====
-- smp_header.h: what Encode() writes, Parse() reads back.
use rt_core.Prelude.{
  ℕ, ◌+◌, ◌*◌, ◌/◌, ◌%◌, ◌≤◌, ◌<◌, ◌≡◌, refl, ap, ◌∙◌, none, some, List, [], ◌∷◌, ◌++◌, arith,
  length, bit_and, bit_or,
}
use rt_core.Prelude.Bits.{shr, shl, u8, u16, high-or-low, low-or-high, and-low_mask}
use rt_core.Smp.Header.{to_underlying, to_operation, SmpHeader, parse, encode}

-- A header whose fields fit the wire format, its operation being one that the 3 bits can give.
pub record Fits (h : SmpHeader) : Type 0 where
  pub operation_fits : to_underlying h.operation < 8
  pub operation_named : to_operation (to_underlying h.operation) ≡ h.operation
  pub version_fits : h.version < 4
  pub flags_fit : h.flags < 256
  pub length_fits : h.length < 65536
  pub group_fits : h.group < 65536
  pub sequence_fits : h.sequence < 256
  pub command_fits : h.command_id < 256

first_byte :
    (o v : ℕ) → o < 8 → v < 4 → u8 (bit_or (bit_and o 0x07) (shl (bit_and v 0x03) 3)) ≡ v * 8 + o
first_byte o v p q =
    rw (and-low_mask 3 o, and-low_mask 2 v, low-or-high 3 (v % 4) (o % 8) (omega arith))
      (omega arith)

pub word16 : (hi lo : ℕ) → hi < 256 → lo < 256 → u16 (bit_or (shl hi 8) lo) ≡ hi * 256 + lo
word16 hi lo p q = rw (high-or-low 8 hi lo q) (omega arith)

operation_field :
    (o v : ℕ)
    → o < 8
    → v < 4
    → bit_and (u8 (bit_or (bit_and o 0x07) (shl (bit_and v 0x03) 3))) 0x07 ≡ o
operation_field o v p q = rw (first_byte o v p q, and-low_mask 3 (v * 8 + o)) (omega arith)

version_field :
    (o v : ℕ)
    → o < 8
    → v < 4
    → bit_and (shr (u8 (bit_or (bit_and o 0x07) (shl (bit_and v 0x03) 3))) 3) 0x03 ≡ v
version_field o v p q = rw (first_byte o v p q, and-low_mask 2 ((v * 8 + o) / 8)) (omega arith)

word_field : (n : ℕ) → n < 65536 → u16 (bit_or (shl (u8 (shr n 8)) 8) (u8 n)) ≡ n
word_field n h = rw (word16 (u8 (shr n 8)) (u8 n) (omega arith) (omega arith)) (omega arith)

-- Parsing the encoding of a header gives the header back, whatever follows it.
pub parse-encode : (h : SmpHeader) (body : List ℕ) → Fits h → parse (encode h ++ body) ≡ some h
unfolding parse encode
parse-encode h body fits = ap some λ i. record {
  operation =
      (ap to_operation (operation_field _ h.version fits.operation_fits fits.version_fits)
          ∙ fits.operation_named)
        i;
  version =
      version_field (to_underlying h.operation) h.version fits.operation_fits fits.version_fits i;
  flags = h.flags;
  length = word_field h.length fits.length_fits i;
  group = word_field h.group fits.group_fits i;
  sequence = h.sequence;
  command_id = h.command_id;
}

-- A packet of at least 8 bytes parses by its first 8 bytes alone.
pub parse-append : (xs ys : List ℕ) → 8 ≤ length xs → parse (xs ++ ys) ≡ parse xs
unfolding parse
parse-append [] ys h = absurd (omega arith)
parse-append (a ∷ []) ys h = absurd (omega arith)
parse-append (a ∷ b ∷ []) ys h = absurd (omega arith)
parse-append (a ∷ b ∷ c ∷ []) ys h = absurd (omega arith)
parse-append (a ∷ b ∷ c ∷ d ∷ []) ys h = absurd (omega arith)
parse-append (a ∷ b ∷ c ∷ d ∷ e ∷ []) ys h = absurd (omega arith)
parse-append (a ∷ b ∷ c ∷ d ∷ e ∷ f ∷ []) ys h = absurd (omega arith)
parse-append (a ∷ b ∷ c ∷ d ∷ e ∷ f ∷ g ∷ []) ys h = absurd (omega arith)
parse-append (a ∷ b ∷ c ∷ d ∷ e ∷ f ∷ g ∷ i ∷ xs) ys h = refl

-- A packet parses exactly when it holds a whole header.
pub parse_short : (xs : List ℕ) → length xs < 8 → parse xs ≡ none
unfolding parse
parse_short [] h = refl
parse_short (a ∷ []) h = refl
parse_short (a ∷ b ∷ []) h = refl
parse_short (a ∷ b ∷ c ∷ []) h = refl
parse_short (a ∷ b ∷ c ∷ d ∷ []) h = refl
parse_short (a ∷ b ∷ c ∷ d ∷ e ∷ []) h = refl
parse_short (a ∷ b ∷ c ∷ d ∷ e ∷ f ∷ []) h = refl
parse_short (a ∷ b ∷ c ∷ d ∷ e ∷ f ∷ g ∷ []) h = refl
parse_short (a ∷ b ∷ c ∷ d ∷ e ∷ f ∷ g ∷ i ∷ xs) h = absurd (omega arith)
