-- ===== src/Prelude/Bits.antt =====
-- Masks, shifts and joined fields of machine words, in the form that the arithmetic tactics read.
use Prim.Native.Nat.{
  ℕ, zero, suc, ◌+◌, ◌-◌, ◌*◌, ◌/◌, ◌%◌, ◌^◌, ◌≤◌, ◌<◌, min, max, bit_and, bit_or, bit_xor, differ,
  digits, bit_and-bitwise, bit_or-bitwise, bit_xor-bitwise,
}
use mathlib.Core.Logic.{◌↔◌}
use mathlib.Core.Path.{◌≡◌, refl, ap, ap₂, ◌∙◌}
use native.Mathlib.Nat.{pow-suc, one-le-pow}
use native.Mathlib.Omega.{arith}

-- x >> k and x << k.
abbrev pub shr : ℕ → ℕ → ℕ
shr x k = x / 2 ^ k

abbrev pub shl : ℕ → ℕ → ℕ
shl x k = x * 2 ^ k

-- (uint8_t)x, (uint16_t)x, (uint32_t)x and (uint64_t)x.
abbrev pub u8 : ℕ → ℕ
u8 x = x % 256

abbrev pub u16 : ℕ → ℕ
u16 x = x % 65536

abbrev pub u32 : ℕ → ℕ
u32 x = x % 4294967296

abbrev pub u64 : ℕ → ℕ
u64 x = x % 18446744073709551616

-- The digit recursion of each operation, freed of the count of digits that it runs on.
module _ (z : ℕ → ℕ) (f : ℕ → ℕ → ℕ) (z_step : (b : ℕ) → z b ≡ z (b / 2) * 2 + f 0 (b % 2)) where
  digits_enough : (n m a b : ℕ) → a ≤ n → a ≤ m → digits z f n a b ≡ digits z f m a b
  digits_enough zero zero a b p q = refl
  digits_enough zero (suc m) zero b p q = refl
  digits_enough zero (suc m) (suc a) b p q = absurd (omega arith)
  digits_enough (suc n) zero zero b p q = refl
  digits_enough (suc n) zero (suc a) b p q = absurd (omega arith)
  digits_enough (suc n) (suc m) zero b p q = refl
  digits_enough (suc n) (suc m) (suc a) b p q =
      ap (λ (t : ℕ). t * 2 + f (suc a % 2) (b % 2))
        (digits_enough n m (suc a / 2) (b / 2) (omega arith) (omega arith))

  digits_step :
      (a b : ℕ) → digits z f a a b ≡ digits z f (a / 2) (a / 2) (b / 2) * 2 + f (a % 2) (b % 2)
  digits_step zero b = z_step b
  digits_step (suc a) b =
      ap (λ (t : ℕ). t * 2 + f (suc a % 2) (b % 2))
        (digits_enough a (suc a / 2) (suc a / 2) (b / 2) (omega arith) (omega arith))

and_step : (a b : ℕ) → bit_and a b ≡ bit_and (a / 2) (b / 2) * 2 + min (a % 2) (b % 2)
and_step a b = omega (
  arith,
  bit_and-bitwise a b,
  bit_and-bitwise (a / 2) (b / 2),
  digits_step (λ b. 0) min (λ b. omega arith) a b,
)

differ_digit : (x y : ℕ) → x < 2 → y < 2 → (differ x y + 2 * min x y ≡ x + y)
differ_digit zero zero h k = omega arith
differ_digit zero (suc y) h k = omega arith
differ_digit (suc zero) zero h k = omega arith
differ_digit (suc zero) (suc zero) h k = omega arith
differ_digit (suc zero) (suc (suc y)) h k = absurd (omega arith)
differ_digit (suc (suc x)) y h k = absurd (omega arith)

or_step : (a b : ℕ) → bit_or a b ≡ bit_or (a / 2) (b / 2) * 2 + max (a % 2) (b % 2)
or_step a b = omega (
  arith,
  bit_or-bitwise a b,
  bit_or-bitwise (a / 2) (b / 2),
  digits_step (λ b. b) max (λ b. omega arith) a b,
)

and_zero_within : (n a : ℕ) → a ≤ n → bit_and a 0 ≡ 0
and_zero_within n zero h = refl
and_zero_within zero (suc a) h = absurd (omega arith)
and_zero_within (suc n) (suc a) h =
    omega (arith, and_step (suc a) 0, and_zero_within n (suc a / 2) (omega arith))

pub bit_and-zero : (a : ℕ) → bit_and a 0 ≡ 0
bit_and-zero a = and_zero_within a a (omega arith)

or_zero_within : (n a : ℕ) → a ≤ n → bit_or a 0 ≡ a
or_zero_within n zero h = refl
or_zero_within zero (suc a) h = absurd (omega arith)
or_zero_within (suc n) (suc a) h =
    omega (arith, or_step (suc a) 0, or_zero_within n (suc a / 2) (omega arith))

pub bit_or-zero : (a : ℕ) → bit_or a 0 ≡ a
bit_or-zero a = or_zero_within a a (omega arith)

pub zero-bit_or : (a : ℕ) → bit_or 0 a ≡ a
zero-bit_or a = bit_or-bitwise 0 a

-- One more bit of a field's width.
widen : (q k : ℕ) → q * 2 ^ suc k ≡ q * 2 ^ k * 2
widen q k = omega (arith, ap (λ (t : ℕ). q * t) (pow-suc 2 k))

-- `q << k | r` is a sum where `r` has `k` bits at most, and so is `r | q << k`.
pub high-or-low : (k q r : ℕ) → r < 2 ^ k → bit_or (q * 2 ^ k) r ≡ q * 2 ^ k + r
high-or-low zero q r h = ground (arith, bit_or-zero q)
high-or-low (suc k) q r h =
    let ih = high-or-low k q (r / 2) (omega (arith, pow-suc 2 k)) in
    omega (arith, or_step (q * 2 ^ suc k) r, widen q k, ih, halved)
  where
    halved : bit_or (q * 2 ^ suc k / 2) (r / 2) ≡ bit_or (q * 2 ^ k) (r / 2)
    halved = ap (λ (t : ℕ). bit_or t (r / 2)) (omega (arith, widen q k))

pub low-or-high : (k q r : ℕ) → r < 2 ^ k → bit_or r (q * 2 ^ k) ≡ q * 2 ^ k + r
low-or-high zero q r h = ground (arith, zero-bit_or q)
low-or-high (suc k) q r h =
    let ih = low-or-high k q (r / 2) (omega (arith, pow-suc 2 k)) in
    omega (arith, or_step r (q * 2 ^ suc k), widen q k, ih, halved)
  where
    halved : bit_or (r / 2) (q * 2 ^ suc k / 2) ≡ bit_or (r / 2) (q * 2 ^ k)
    halved = ap (bit_or (r / 2)) (omega (arith, widen q k))

-- A mask of `k` ones, and one of `m` shifted by `k`, on a word split at bit `k`.
low_field : (k q r : ℕ) → r < 2 ^ k → bit_and (q * 2 ^ k + r) (2 ^ k - 1) ≡ r
low_field zero q r h = omega (arith, bit_and-zero (q * 1 + r))
low_field (suc k) q r h =
    let ih = low_field k q (r / 2) (omega (arith, pow-suc 2 k)) in
    omega (
      arith,
      and_step (q * 2 ^ suc k + r) (2 ^ suc k - 1),
      widen q k,
      pow-suc 2 k,
      one-le-pow k 2,
      ih,
      word,
      mask,
    )
  where
    word :
        bit_and ((q * 2 ^ suc k + r) / 2) ((2 ^ suc k - 1) / 2)
        ≡ bit_and (q * 2 ^ k + r / 2) ((2 ^ suc k - 1) / 2)
    word = ap (λ (t : ℕ). bit_and t ((2 ^ suc k - 1) / 2)) (omega (arith, widen q k))

    mask :
        bit_and (q * 2 ^ k + r / 2) ((2 ^ suc k - 1) / 2) ≡ bit_and (q * 2 ^ k + r / 2) (2 ^ k - 1)
    mask = ap (bit_and (q * 2 ^ k + r / 2)) (omega (arith, pow-suc 2 k))

high_field : (k m q r : ℕ) → r < 2 ^ k → bit_and (q * 2 ^ k + r) (m * 2 ^ k) ≡ bit_and q m * 2 ^ k
high_field zero m q r h =
    let e : q * 1 + r ≡ q = omega arith in
    let e' : m * 1 ≡ m = omega arith in rw (e, e') (omega arith)
high_field (suc k) m q r h =
    let ih = high_field k m q (r / 2) (omega (arith, pow-suc 2 k)) in
    omega (
      arith,
      and_step (q * 2 ^ suc k + r) (m * 2 ^ suc k),
      widen q k,
      widen m k,
      widen (bit_and q m) k,
      ih,
      word,
      mask,
    )
  where
    word :
        bit_and ((q * 2 ^ suc k + r) / 2) (m * 2 ^ suc k / 2)
        ≡ bit_and (q * 2 ^ k + r / 2) (m * 2 ^ suc k / 2)
    word = ap (λ (t : ℕ). bit_and t (m * 2 ^ suc k / 2)) (omega (arith, widen q k))

    mask : bit_and (q * 2 ^ k + r / 2) (m * 2 ^ suc k / 2) ≡ bit_and (q * 2 ^ k + r / 2) (m * 2 ^ k)
    mask = ap (bit_and (q * 2 ^ k + r / 2)) (omega (arith, widen m k))

split_at : (k a : ℕ) → (a ≡ a / 2 ^ k * 2 ^ k + a % 2 ^ k) × (a % 2 ^ k < 2 ^ k)
split_at k a = grind (arith, one-le-pow k 2)

pub and-low_mask : (k a : ℕ) → bit_and a (2 ^ k - 1) ≡ a % 2 ^ k
and-low_mask k a =
    let (e, h) = split_at k a in
    ap (λ (t : ℕ). bit_and t (2 ^ k - 1)) e ∙ low_field k (a / 2 ^ k) (a % 2 ^ k) h

pub and-high_mask : (k m a : ℕ) → bit_and a (m * 2 ^ k) ≡ bit_and (a / 2 ^ k) m * 2 ^ k
and-high_mask k m a =
    let (e, h) = split_at k a in
    ap (λ (t : ℕ). bit_and t (m * 2 ^ k)) e ∙ high_field k m (a / 2 ^ k) (a % 2 ^ k) h

xor_step : (a b : ℕ) → bit_xor a b ≡ bit_xor (a / 2) (b / 2) * 2 + differ (a % 2) (b % 2)
xor_step a b = omega (
  arith,
  bit_xor-bitwise a b,
  bit_xor-bitwise (a / 2) (b / 2),
  digits_step (λ b. b) differ
      (λ b. omega (arith, differ_digit 0 (b % 2) (omega arith) (omega arith))) a b,
)

xor_halves :
    (a b : ℕ)
    → (bit_xor a b / 2 ≡ bit_xor (a / 2) (b / 2)) × (bit_xor a b % 2 ≡ differ (a % 2) (b % 2))
xor_halves a b =
    let d = differ_digit (a % 2) (b % 2) (omega arith) (omega arith) in
    (omega (arith, xor_step a b, d), omega (arith, xor_step a b, d))

differ_step :
    (a b m : ℕ)
    → bit_and (bit_xor a b) m
      ≡ bit_and (bit_xor (a / 2) (b / 2)) (m / 2) * 2 + min (differ (a % 2) (b % 2)) (m % 2)
differ_step a b m =
    let (e, d) = xor_halves a b in
    and_step (bit_xor a b) m ∙ ap₂ (λ (t u : ℕ). bit_and t (m / 2) * 2 + min u (m % 2)) e d

agree_within :
    (n a b m : ℕ) → a ≤ n → b ≤ n → (bit_and (bit_xor a b) m ≡ 0) ↔ (bit_and a m ≡ bit_and b m)
agree_within zero a b m h k =
    let ea : a ≡ 0 = omega arith in
    let eb : b ≡ 0 = omega arith in rw (ea, eb) ((λ _. refl), (λ _. bit_and-bitwise 0 m))
agree_within (suc n) a b m h k =
    let ih = agree_within n (a / 2) (b / 2) (m / 2) (omega arith) (omega arith) in
    let d = differ_digit (a % 2) (b % 2) (omega arith) (omega arith) in
    ((λ e. forth ih.0 d e), (λ e. back ih.1 d e))
  where
    forth :
        (bit_and (bit_xor (a / 2) (b / 2)) (m / 2) ≡ 0
          → bit_and (a / 2) (m / 2) ≡ bit_and (b / 2) (m / 2))
        → differ (a % 2) (b % 2) + 2 * min (a % 2) (b % 2) ≡ a % 2 + b % 2
        → bit_and (bit_xor a b) m ≡ 0
        → bit_and a m ≡ bit_and b m
    forth ih d e =
        let high = ih (omega (arith, differ_step a b m)) in
        omega (arith, differ_step a b m, and_step a m, and_step b m)

    back :
        (bit_and (a / 2) (m / 2) ≡ bit_and (b / 2) (m / 2)
          → bit_and (bit_xor (a / 2) (b / 2)) (m / 2) ≡ 0)
        → differ (a % 2) (b % 2) + 2 * min (a % 2) (b % 2) ≡ a % 2 + b % 2
        → bit_and a m ≡ bit_and b m
        → bit_and (bit_xor a b) m ≡ 0
    back ih d e =
        let high = ih (omega (arith, and_step a m, and_step b m)) in
        omega (arith, differ_step a b m, and_step a m, and_step b m)

-- Two words agree under a mask exactly when their difference is zero under it.
pub xor-and_zero_iff : (a b m : ℕ) → (bit_and (bit_xor a b) m ≡ 0) ↔ (bit_and a m ≡ bit_and b m)
xor-and_zero_iff a b m = agree_within (a + b) a b m (omega arith) (omega arith)
