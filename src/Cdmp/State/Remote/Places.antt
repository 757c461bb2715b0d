-- ===== src/Cdmp/State/Remote/Places.antt =====
-- cdmp_state_service.cpp: the place of a record among records in order, as std::lower_bound gives it.
use rt_core.Prelude.{
  ℕ, zero, suc, ◌≡◌, ◌≢◌, refl, ap, subst, ◌∙◌, inl, inr, Bool, true, false, some, List, [], ◌∷◌,
  get_elem?, if◌then◌else◌, Bool-cases, arith,
}
use rt_core.Prelude.Tables.{lower_bound, insert_at, modify_at, keep_if, same_bytes}

module _ {A : Type 0} (below : A → Bool) where
  pub insert_found :
      (x : A) (xs : List A)
      → below x ≡ false
      → let i = lower_bound below xs in
        (lower_bound below (insert_at i x xs) ≡ i) × (get_elem? (insert_at i x xs) i ≡ some x)
  unfolding lower_bound insert_at
  insert_found x [] e = (rw e refl, refl)
  insert_found x (y ∷ ys) e = elim (Bool-cases (below y)) [
    | inl b ↦ let (p, q) = insert_found x ys e in rw b (rw b (ap suc p, q))
    | inr b ↦ rw b (rw e (refl, refl))
  ]

  pub modify_found :
      (f : A → A) (xs : List A) {r : A}
      → get_elem? xs (lower_bound below xs) ≡ some r
      → below (f r) ≡ false
      → let i = lower_bound below xs in
        (lower_bound below (modify_at i f xs) ≡ i) × (get_elem? (modify_at i f xs) i ≡ some (f r))
  unfolding lower_bound modify_at
  modify_found f [] g e = cc
  modify_found f (y ∷ ys) {r} g e = elim (Bool-cases (below y)) [
    | inl b ↦
        let g' : get_elem? ys (lower_bound below ys) ≡ some r =
          subst (λ z. get_elem? (y ∷ ys) (if z then suc (lower_bound below ys) else 0) ≡ some r) b
            g in
        let (p, q) = modify_found f ys g' e in rw b (rw b (ap suc p, q))
    | inr b ↦
        let g' : get_elem? (y ∷ ys) 0 ≡ some r =
          subst (λ z. get_elem? (y ∷ ys) (if z then suc (lower_bound below ys) else 0) ≡ some r) b
            g in
        let same : y ≡ r = cc in
        let e' : below (f y) ≡ false = ap (λ z. below (f z)) same ∙ e in
        rw b (rw e' (refl, ap (λ z. some (f z)) same))
  ]

module _ {A : Type 0} (other : A → Bool) where
  -- A table keeps its other entries when one is put in, or changed.
  pub keep_if-insert_at :
      (x : A) (i : ℕ) (xs : List A)
      → other x ≡ false
      → keep_if other (insert_at i x xs) ≡ keep_if other xs
  unfolding keep_if insert_at
  keep_if-insert_at x zero xs e = rw e refl
  keep_if-insert_at x (suc i) [] e = rw e refl
  keep_if-insert_at x (suc i) (y ∷ ys) e = elim (Bool-cases (other y)) [
    | inl stays ↦ rw (stays, keep_if-insert_at x i ys e) refl
    | inr goes ↦ rw (goes, keep_if-insert_at x i ys e) refl
  ]

  pub keep_if-modify_at :
      (f : A → A) (i : ℕ) (xs : List A) {r : A}
      → get_elem? xs i ≡ some r
      → other r ≡ false
      → other (f r) ≡ false
      → keep_if other (modify_at i f xs) ≡ keep_if other xs
  unfolding keep_if modify_at
  keep_if-modify_at f i [] g e e' = cc
  keep_if-modify_at f zero (y ∷ ys) {r} g e e' =
      let same : y ≡ r = cc in rw (ap (λ z. other (f z)) same ∙ e', ap other same ∙ e) refl
  keep_if-modify_at f (suc i) (y ∷ ys) g e e' = elim (Bool-cases (other y)) [
    | inl stays ↦ rw (stays, keep_if-modify_at f i ys g e e') refl
    | inr goes ↦ rw (goes, keep_if-modify_at f i ys g e e') refl
  ]

pub same_bytes-equal : (xs ys : List ℕ) → same_bytes xs ys ≡ true → xs ≡ ys
unfolding same_bytes
same_bytes-equal [] [] e = refl
same_bytes-equal [] (y ∷ ys) e = cc
same_bytes-equal (x ∷ xs) [] e = cc
same_bytes-equal (x ∷ xs) (y ∷ ys) e = ground (arith, same_bytes-equal xs ys)

same_bytes_self : (xs : List ℕ) → same_bytes xs xs ≡ true
unfolding same_bytes
same_bytes_self [] = refl
same_bytes_self (x ∷ xs) = ground (arith, same_bytes_self xs)

pub same_bytes-differ : (xs ys : List ℕ) → same_bytes xs ys ≡ false → xs ≢ ys
same_bytes-differ xs ys e same = cc (same_bytes_self xs, ap (same_bytes xs) same)
