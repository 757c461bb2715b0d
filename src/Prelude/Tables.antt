-- ===== src/Prelude/Tables.antt =====
-- The operations of the C++ standard library that the sources use on their arrays. A
-- pointer into an array is an index.
use rt_core.Prelude.{
  ℕ, zero, suc, ◌-◌, Bool, true, false, ◌&&◌, Option, none, some, List, [], ◌∷◌, ◌++◌, length, take,
  drop, get_elem?, ◌==◌, if◌then◌else◌,
}

module _ {ℓ} {A : Type ℓ} where
  -- std::ranges::lower_bound and find_if: the first position that fails, and holds, a test.
  unfoldable pub lower_bound : (A → Bool) → List A → ℕ
  lower_bound below [] = 0
  lower_bound below (x ∷ xs) = let rest = suc (lower_bound below xs) in if below x then rest else 0

  unfoldable pub find_index : (A → Bool) → List A → Option ℕ
  find_index holds [] = none
  find_index holds (x ∷ xs) =
      let rest : Option ℕ = elim (find_index holds xs) [ none ↦ none | some i ↦ some (suc i) ] in
      if holds x then some 0 else rest

  unfoldable pub modify_at : ℕ → (A → A) → List A → List A
  modify_at i f [] = []
  modify_at zero f (x ∷ xs) = f x ∷ xs
  modify_at (suc i) f (x ∷ xs) = x ∷ modify_at i f xs

  unfoldable pub insert_at : ℕ → A → List A → List A
  insert_at i x xs = take i xs ++ x ∷ drop i xs

  unfoldable pub remove_at : ℕ → List A → List A
  remove_at i xs = take i xs ++ drop (suc i) xs

  -- The elements that pass a test, in their order: std::ranges::remove_if keeps those that fail.
  unfoldable pub keep_if : (A → Bool) → List A → List A
  keep_if holds [] = []
  keep_if holds (x ∷ xs) = let rest = keep_if holds xs in if holds x then x ∷ rest else rest

  unfoldable pub any_of : (A → Bool) → List A → Bool
  any_of holds [] = false
  any_of holds (x ∷ xs) = if holds x then true else any_of holds xs

-- CdmpStateData's operator==.
unfoldable pub same_bytes : List ℕ → List ℕ → Bool
same_bytes [] [] = true
same_bytes [] (y ∷ ys) = false
same_bytes (x ∷ xs) [] = false
same_bytes (x ∷ xs) (y ∷ ys) = x == y && same_bytes xs ys

-- An element gives way to the last one, and the last one's place is freed.
unfoldable pub swap_remove : ℕ → List ℕ → List ℕ
unfolding find_index modify_at
swap_remove x xs = elim (find_index (λ y. y == x) xs) [
  | none ↦ xs
  | some i ↦ elim (get_elem? xs (length xs - 1)) [
    | none ↦ xs
    | some last ↦ take (length xs - 1) (modify_at i (λ y. last) xs)
  ]
]
