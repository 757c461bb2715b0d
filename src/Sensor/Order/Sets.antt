-- ===== src/Sensor/Order/Sets.antt =====
-- sensors_order_resolver.cpp: the sets of sensors, and how many sensors are not in one.
use rt_core.Prelude.{
  ℕ, ◌+◌, ◌≤◌, ◌<◌, ◌≡◌, refl, sym, ap, subst, inl, inr, Bool, true, false, ◌||◌, List, [], ◌∷◌,
  ◌++◌, length, arith, if◌then◌else◌, Bool-cases,
}
use rt_core.Prelude.Tables.{keep_if}
use rt_core.Sensor.Order.{contains, erase}

-- `same` decides equality.
pub record IsEquality {A : Type 0} (same : A → A → Bool) : Type 0 where
  pub same_refl : (x : A) → same x x ≡ true
  pub sound : (x y : A) → same x y ≡ true → x ≡ y

module _ {A : Type 0} (same : A → A → Bool) where
  pub contains-snoc :
      (xs : List A) (y x : A) → contains same (xs ++ y ∷ []) x ≡ (contains same xs x || same y x)
  unfolding contains
  contains-snoc [] y x = ground arith
  contains-snoc (z ∷ xs) y x = ground (arith, contains-snoc xs y x)

  keep_if-absent :
      (id : A) (xs : List A)
      → ((x : A) → contains same xs x ≡ true → same id x ≡ false)
      → ((x : A) → same x x ≡ true)
      → erase same id xs ≡ xs
  unfolding keep_if contains erase
  keep_if-absent id [] h r = refl
  keep_if-absent id (x ∷ xs) h r =
      let here : same id x ≡ false = h x (ground (arith, r x)) in
      let rest = keep_if-absent id xs (λ y m. h y (ground arith)) r in ground arith

  module _ (eq : IsEquality same) where
    pub contains-same :
        (xs : List A) (x y : A) → same x y ≡ true → contains same xs y ≡ contains same xs x
    contains-same xs x y h = ap (contains same xs) (sym (eq.sound x y h))

    pub erase-fresh :
        (id : A) (xs : List A) → contains same xs id ≡ false → erase same id (id ∷ xs) ≡ xs
    unfolding erase keep_if
    erase-fresh id xs h =
        let kept : erase same id xs ≡ xs =
          keep_if-absent id xs (λ x m. ground (arith, contains-same xs id x)) eq.same_refl in
        ground (arith, eq.same_refl id, kept)

  -- The sensors of `ids` that are not in `xs`.
  unfoldable pub outside : List A → List A → ℕ
  outside xs [] = 0
  outside xs (id ∷ ids) = (if contains same xs id then 0 else 1) + outside xs ids

  pub outside-le : (xs ids : List A) → outside xs ids ≤ length ids
  unfolding outside
  outside-le xs [] = omega arith
  outside-le xs (id ∷ ids) = ground (arith, outside-le xs ids)

  outside_mono : (x : A) (xs ids : List A) → outside (x ∷ xs) ids ≤ outside xs ids
  unfolding outside contains
  outside_mono x xs [] = omega arith
  outside_mono x xs (id ∷ ids) = ground (arith, outside_mono x xs ids)

  pub outside-less :
      (x : A) (xs ids : List A)
      → IsEquality same
      → contains same ids x ≡ true
      → contains same xs x ≡ false
      → outside (x ∷ xs) ids < outside xs ids
  unfolding outside contains
  outside-less x xs [] eq m f = absurd (ground arith)
  outside-less x xs (id ∷ ids) eq m f = elim (Bool-cases (same id x)) [
    | inl here ↦
        let e = eq.sound id x here in
        let fresh : contains same xs id ≡ false =
          subst (λ y. contains same xs y ≡ false) (sym e) f in
        let hit : same x id ≡ true = subst (λ y. same x y ≡ true) (sym e) (eq.same_refl x) in
        ground (arith, outside_mono x xs ids)
    | inr other ↦ let rest = outside-less x xs ids eq (ground arith) f in ground arith
  ]
