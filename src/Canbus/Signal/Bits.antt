-- ===== src/Canbus/Signal/Bits.antt =====
-- can_signal_codec.cpp: reading and writing one bit.
use rt_core.Prelude.{
  ℕ, zero, suc, ◌+◌, ◌*◌, ◌/◌, ◌%◌, ◌^◌, ◌≤◌, ◌<◌, ◌≡◌, ◌≢◌, refl, sym, ap, subst, ◌∙◌, ◌⊎◌, inl,
  inr, none, some, List, [], ◌∷◌, length, get_elem?, arith, Option-cases, ℕ_discrete,
}
use rt_core.Prelude.Tables.{modify_at}
use native.Mathlib.Nat.{pow-suc}
use rt_core.Canbus.Signal.{bit, put_bit, bit_in, bit_at, put_at}

pub bit-lt : (k x : ℕ) → bit k x < 2
unfolding bit
bit-lt zero x = omega arith
bit-lt (suc k) x = bit-lt k (x / 2)

pub bit-put_bit : (k b x : ℕ) → b < 2 → bit k (put_bit k b x) ≡ b
unfolding bit put_bit
bit-put_bit zero b x h = omega arith
bit-put_bit (suc k) b x h =
    let half : (put_bit k b (x / 2) * 2 + x % 2) / 2 ≡ put_bit k b (x / 2) = omega arith in
    ap (bit k) half ∙ bit-put_bit k b (x / 2) h

pub bit-put_bit_other : (j k b x : ℕ) → b < 2 → j ≢ k → bit j (put_bit k b x) ≡ bit j x
unfolding bit put_bit
bit-put_bit_other zero zero b x h ne = absurd (ne refl)
bit-put_bit_other zero (suc k) b x h ne = omega arith
bit-put_bit_other (suc j) zero b x h ne =
    let half : (x / 2 * 2 + b) / 2 ≡ x / 2 = omega arith in ap (bit j) half
bit-put_bit_other (suc j) (suc k) b x h ne =
    let half : (put_bit k b (x / 2) * 2 + x % 2) / 2 ≡ put_bit k b (x / 2) = omega arith in
    ap (bit j) half ∙ bit-put_bit_other j k b (x / 2) h (λ e. ne (ap suc e))

pub bit-zero : (k : ℕ) → bit k 0 ≡ 0
unfolding bit
bit-zero zero = refl
bit-zero (suc k) = bit-zero k

-- A number of `n` bits has no bit above.
pub bit-above : (n k x : ℕ) → x < 2 ^ n → n ≤ k → bit k x ≡ 0
unfolding bit
bit-above zero k x h l =
    let e : x ≡ 0 = omega arith in subst (λ y. bit k y ≡ 0) (sym e) (bit-zero k)
bit-above (suc n) zero x h l = absurd (omega arith)
bit-above (suc n) (suc k) x h l = bit-above n k (x / 2) (omega (arith, pow-suc 2 n)) (omega arith)

-- Numbers with the same bits are the same.
pub same_bits : (n x y : ℕ) → x ≤ n → y ≤ n → ((k : ℕ) → bit k x ≡ bit k y) → x ≡ y
unfolding bit
same_bits zero x y p q h = omega arith
same_bits (suc n) x y p q h =
    let halves = same_bits n (x / 2) (y / 2) (omega arith) (omega arith) (λ k. h (suc k)) in
    let low = h 0 in omega arith

length-modify_at {ℓ} :
    {A : Type ℓ} (i : ℕ) (f : A → A) (xs : List A) → length (modify_at i f xs) ≡ length xs
unfolding modify_at
length-modify_at i f [] = refl
length-modify_at zero f (x ∷ xs) = refl
length-modify_at (suc i) f (x ∷ xs) = ap suc (length-modify_at i f xs)

get-modify_at {ℓ} :
    {A : Type ℓ} (i : ℕ) (f : A → A) (xs : List A) (x : A)
    → get_elem? xs i ≡ some x
    → get_elem? (modify_at i f xs) i ≡ some (f x)
unfolding modify_at
get-modify_at i f [] x e = cc
get-modify_at zero f (y ∷ xs) x e = cc
get-modify_at (suc i) f (y ∷ xs) x e = get-modify_at i f xs x e

get-modify_at_missing {ℓ} :
    {A : Type ℓ} (i : ℕ) (f : A → A) (xs : List A)
    → get_elem? xs i ≡ none
    → get_elem? (modify_at i f xs) i ≡ none
unfolding modify_at
get-modify_at_missing i f [] e = refl
get-modify_at_missing zero f (y ∷ xs) e = cc
get-modify_at_missing (suc i) f (y ∷ xs) e = get-modify_at_missing i f xs e

get-modify_at_other {ℓ} :
    {A : Type ℓ} (i j : ℕ) (f : A → A) (xs : List A)
    → i ≢ j
    → get_elem? (modify_at i f xs) j ≡ get_elem? xs j
unfolding modify_at
get-modify_at_other i j f [] ne = refl
get-modify_at_other zero zero f (x ∷ xs) ne = absurd (ne refl)
get-modify_at_other zero (suc j) f (x ∷ xs) ne = refl
get-modify_at_other (suc i) zero f (x ∷ xs) ne = refl
get-modify_at_other (suc i) (suc j) f (x ∷ xs) ne =
    get-modify_at_other i j f xs (λ e. ne (ap suc e))

get-inside {ℓ} :
    {A : Type ℓ} (i : ℕ) (xs : List A) → i < length xs → (x : A) × (get_elem? xs i ≡ some x)
get-inside i [] h = absurd (omega arith)
get-inside zero (x ∷ xs) h = (x, refl)
get-inside (suc i) (x ∷ xs) h = get-inside i xs (omega arith)

pub length-put_at : (p b : ℕ) (bytes : List ℕ) → length (put_at p b bytes) ≡ length bytes
unfolding put_at
length-put_at p b bytes = length-modify_at (p / 8) (put_bit (p % 8) b) bytes

pub bit_at-put_at :
    (p b : ℕ) (bytes : List ℕ) → b < 2 → p / 8 < length bytes → bit_at (put_at p b bytes) p ≡ b
unfolding bit_at put_at
bit_at-put_at p b bytes h l =
    let (x, found) = get-inside (p / 8) bytes l in
    ap (bit_in (p % 8)) (get-modify_at (p / 8) (put_bit (p % 8) b) bytes x found)
    ∙ bit-put_bit (p % 8) b x h

pub bit_at-put_at_other :
    (p q b : ℕ) (bytes : List ℕ) → b < 2 → p ≢ q → bit_at (put_at p b bytes) q ≡ bit_at bytes q
unfolding bit_at put_at
bit_at-put_at_other p q b bytes h ne = elim (ℕ_discrete (p / 8) (q / 8)) [
  | yes same ↦
      subst
        (λ i. bit_in (q % 8) (get_elem? (put_at p b bytes) i) ≡ bit_in (q % 8) (get_elem? bytes i))
        same (in_byte (λ e. ne (omega arith)) (Option-cases (get_elem? bytes (p / 8))))
  | no other ↦
      ap (bit_in (q % 8)) (get-modify_at_other (p / 8) (q / 8) (put_bit (p % 8) b) bytes other)
]
  where
    in_byte :
        p % 8 ≢ q % 8
        → (get_elem? bytes (p / 8) ≡ none) ⊎ ((x : ℕ) × (get_elem? bytes (p / 8) ≡ some x))
        → bit_in (q % 8) (get_elem? (put_at p b bytes) (p / 8))
          ≡ bit_in (q % 8) (get_elem? bytes (p / 8))
    in_byte apart (inl missing) =
        ap (bit_in (q % 8))
          (get-modify_at_missing (p / 8) (put_bit (p % 8) b) bytes missing ∙ sym missing)
    in_byte apart (inr (x, found)) =
        ap (bit_in (q % 8)) (get-modify_at (p / 8) (put_bit (p % 8) b) bytes x found)
        ∙ bit-put_bit_other (q % 8) (p % 8) b x h (λ e. apart (sym e))
        ∙ ap (bit_in (q % 8)) (sym found)
