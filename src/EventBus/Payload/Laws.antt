-- ===== src/EventBus/Payload/Laws.antt =====
-- event.h: a payload with room is a map.
use rt_core.Prelude.{
  ℕ, zero, suc, ◌≡◌, refl, inl, inr, true, false, none, some, List, [], ◌∷◌, ◌++◌, length, ◌==◌,
  if◌then◌else◌, arith, Option-cases,
}
use rt_core.Prelude.Tables.{find_index, modify_at}
use rt_core.EventBus.Payload.{max_payload_entries, find, set_slot}

module _ {V : Type 0} where
  find-append :
      (key j : ℕ) (v : V) (es : List (ℕ × V))
      → find_index (λ (e : ℕ × V). e.0 == key) es ≡ none
      → find j (es ++ (key, v) ∷ []) ≡ (if key == j then some v else find j es)
  unfolding find find_index
  find-append key j v [] h = refl
  find-append key j v ((k, w) ∷ es) h = ground (arith, find-append key j v es)

  first-here :
      (key k : ℕ) (w : V) (es : List (ℕ × V))
      → find_index (λ (e : ℕ × V). e.0 == key) ((k, w) ∷ es) ≡ some 0
      → (k == key) ≡ true
  unfolding find_index
  first-here key k w es h = ground arith

  first-later :
      (key i k : ℕ) (w : V) (es : List (ℕ × V))
      → find_index (λ (e : ℕ × V). e.0 == key) ((k, w) ∷ es) ≡ some (suc i)
      → ((k == key) ≡ false) × (find_index (λ (e : ℕ × V). e.0 == key) es ≡ some i)
  unfolding find_index
  first-later key i k w es h = ground arith

  find-modify :
      (key j i : ℕ) (v : V) (es : List (ℕ × V))
      → find_index (λ (e : ℕ × V). e.0 == key) es ≡ some i
      → find j (modify_at i (λ (e : ℕ × V). (e.0, v)) es) ≡ (if key == j then some v else find j es)
  unfolding find find_index modify_at
  find-modify key j i v [] h = cc
  find-modify key j zero v ((k, w) ∷ es) h =
      let here : (k == key) ≡ true = first-here key k w es h in ground arith
  find-modify key j (suc i) v ((k, w) ∷ es) h =
      let (later, rest) = first-later key i k w es h in
      ground (arith, find-modify key j i v es rest)

  -- What is read after a value is stored, in a payload that knows the key or has room.
  pub find-set_slot :
      (key j : ℕ) (v : V) (es : List (ℕ × V))
      → (length es == max_payload_entries) ≡ false
      → find j (set_slot key v es) ≡ (if key == j then some v else find j es)
  unfolding set_slot
  find-set_slot key j v es room = elim (Option-cases (find_index (λ (e : ℕ × V). e.0 == key) es)) [
    | inl new ↦
        let e : set_slot key v es ≡ es ++ (key, v) ∷ [] = ground arith in
        rw e (find-append key j v es new)
    | inr (i, known) ↦
        let e : set_slot key v es ≡ modify_at i (λ (e : ℕ × V). (e.0, v)) es = ground arith in
        rw e (find-modify key j i v es known)
  ]
