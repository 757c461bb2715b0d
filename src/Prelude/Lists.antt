-- ===== src/Prelude/Lists.antt =====
-- Lists over the native numbers: spans, their slices, and buffers that are written in place.
use Prim.Native.Nat.{ℕ, zero, suc, ◌+◌, ◌-◌, ◌≤◌, min}
use mathlib.Core.Path.{◌≡◌, refl, ap}
use mathlib.Core.List.{List, [], ◌∷◌, ◌++◌}
use mathlib.Core.Option.{Option, none, some}
use native.Mathlib.Omega.{arith}

module _ {ℓ} {A : Type ℓ} where
  abbrev pub length : List A → ℕ
  length [] = 0
  length (x ∷ xs) = suc (length xs)

  abbrev pub take : ℕ → List A → List A
  take zero xs = []
  take (suc n) [] = []
  take (suc n) (x ∷ xs) = x ∷ take n xs

  abbrev pub drop : ℕ → List A → List A
  drop zero xs = xs
  drop (suc n) [] = []
  drop (suc n) (x ∷ xs) = drop n xs

  abbrev pub replicate : ℕ → A → List A
  replicate zero a = []
  replicate (suc n) a = a ∷ replicate n a

  abbrev pub get_elem? : List A → ℕ → Option A
  get_elem? [] i = none
  get_elem? (x ∷ xs) zero = some x
  get_elem? (x ∷ xs) (suc i) = get_elem? xs i

  -- `std::copy` of `xs` into `buffer` at an offset; a write past the end is left out.
  pub write_at : ℕ → List A → List A → List A
  write_at zero [] buffer = buffer
  write_at zero (x ∷ xs) [] = []
  write_at zero (x ∷ xs) (b ∷ buffer) = x ∷ write_at zero xs buffer
  write_at (suc i) xs [] = []
  write_at (suc i) xs (b ∷ buffer) = b ∷ write_at i xs buffer

  pub length-append : (xs ys : List A) → length (xs ++ ys) ≡ length xs + length ys
  length-append [] ys = omega arith
  length-append (x ∷ xs) ys = omega (arith, length-append xs ys)

  pub length-take : (n : ℕ) (xs : List A) → length (take n xs) ≡ min n (length xs)
  length-take zero xs = omega arith
  length-take (suc n) [] = omega arith
  length-take (suc n) (x ∷ xs) = omega (arith, length-take n xs)

  pub length-drop : (n : ℕ) (xs : List A) → length (drop n xs) ≡ length xs - n
  length-drop zero xs = omega arith
  length-drop (suc n) [] = omega arith
  length-drop (suc n) (x ∷ xs) = omega (arith, length-drop n xs)

  pub length-replicate : (n : ℕ) (a : A) → length (replicate n a) ≡ n
  length-replicate zero a = refl
  length-replicate (suc n) a = omega (arith, length-replicate n a)

  pub length-write_at : (i : ℕ) (xs b : List A) → length (write_at i xs b) ≡ length b
  unfolding write_at
  length-write_at zero [] b = refl
  length-write_at zero (x ∷ xs) [] = refl
  length-write_at zero (x ∷ xs) (c ∷ b) = omega (arith, length-write_at zero xs b)
  length-write_at (suc i) xs [] = refl
  length-write_at (suc i) xs (c ∷ b) = omega (arith, length-write_at i xs b)

  pub take-all : (n : ℕ) (xs : List A) → length xs ≤ n → take n xs ≡ xs
  take-all zero [] h = refl
  take-all zero (x ∷ xs) h = absurd (omega arith)
  take-all (suc n) [] h = refl
  take-all (suc n) (x ∷ xs) h = ap (◌∷◌ x) (take-all n xs (omega arith))

  pub take-append-drop : (n : ℕ) (xs : List A) → take n xs ++ drop n xs ≡ xs
  take-append-drop zero xs = refl
  take-append-drop (suc n) [] = refl
  take-append-drop (suc n) (x ∷ xs) = ap (◌∷◌ x) (take-append-drop n xs)

  pub take-append : (n : ℕ) (xs ys : List A) → n ≤ length xs → take n (xs ++ ys) ≡ take n xs
  take-append zero xs ys h = refl
  take-append (suc n) [] ys h = absurd (omega arith)
  take-append (suc n) (x ∷ xs) ys h = ap (◌∷◌ x) (take-append n xs ys (omega arith))

  pub take-take : (m n : ℕ) (xs : List A) → m ≤ n → take m (take n xs) ≡ take m xs
  take-take zero n xs h = refl
  take-take (suc m) zero xs h = absurd (omega arith)
  take-take (suc m) (suc n) [] h = refl
  take-take (suc m) (suc n) (x ∷ xs) h = ap (◌∷◌ x) (take-take m n xs (omega arith))

  pub take-length_add : (n k : ℕ) (xs : List A) → take (n + k) xs ≡ take n xs ++ take k (drop n xs)
  take-length_add zero k xs = let e : 0 + k ≡ k = omega arith in rw e
  take-length_add (suc n) zero [] = let e : suc n + 0 ≡ suc n = omega arith in rw e
  take-length_add (suc n) (suc k) [] = let e : suc n + suc k ≡ suc (n + suc k) = omega arith in rw e
  take-length_add (suc n) k (x ∷ xs) =
      let e : suc n + k ≡ suc (n + k) = omega arith in rw e (ap (◌∷◌ x) (take-length_add n k xs))

  -- What a written buffer starts with.
  pub take-write_at :
      (i k : ℕ) (xs b : List A)
      → k ≤ length xs
      → i + k ≤ length b
      → take (i + k) (write_at i xs b) ≡ take i b ++ take k xs
  unfolding write_at
  take-write_at zero zero [] b h l = refl
  take-write_at zero (suc k) [] b h l = absurd (omega arith)
  take-write_at zero zero (x ∷ xs) b h l = refl
  take-write_at zero (suc k) (x ∷ xs) [] h l = absurd (omega arith)
  take-write_at zero (suc k) (x ∷ xs) (c ∷ b) h l =
      let e : 0 + suc k ≡ suc k = omega arith in
      let e' : 0 + k ≡ k = omega arith in
      rw e (ap (◌∷◌ x) (rw e' at (take-write_at zero k xs b (omega arith) (omega arith))))
  take-write_at (suc i) k xs [] h l = absurd (omega arith)
  take-write_at (suc i) k xs (c ∷ b) h l =
      let e : suc i + k ≡ suc (i + k) = omega arith in
      rw e (ap (◌∷◌ c) (take-write_at i k xs b h (omega arith)))
