-- ===== src/EventBus/Payload.antt =====
-- subsys/event_bus/event.h: InlinePayload, a small map over a fixed array. The entries are the first `size_`
-- of the array; a value is of an abstract type, with the value that EventData{} makes as an argument.
pub mod Laws
use rt_core.Prelude.{
  ℕ, ◌-◌, Bool, true, false, Option, none, some, List, [], ◌∷◌, ◌++◌, length, ◌==◌, if◌then◌else◌,
}
use rt_core.Prelude.Tables.{find_index, modify_at, remove_at}

abbrev pub max_payload_entries : ℕ
max_payload_entries = 6

module _ {ℓ} {V : Type ℓ} where
  -- find(), as the value of the entry.
  unfoldable pub find : ℕ → List (ℕ × V) → Option V
  find key [] = none
  find key ((k, v) ∷ rest) = if k == key then some v else find key rest

  unfoldable pub contains : ℕ → List (ℕ × V) → Bool
  unfolding find
  contains key entries = elim (find key entries) [ none ↦ false | some v ↦ true ]

  -- at(); `none` is std::out_of_range.
  unfoldable pub at : ℕ → List (ℕ × V) → Option V
  unfolding find
  at key entries = find key entries

  -- The entry at Slot(key) is given a value: its own entry, or a new one, the last one when full.
  unfoldable pub set_slot : ℕ → V → List (ℕ × V) → List (ℕ × V)
  unfolding find_index modify_at
  set_slot key value entries = elim (find_index (λ (e : ℕ × V). e.0 == key) entries) [
    | some i ↦ modify_at i (λ (e : ℕ × V). (e.0, value)) entries
    | none ↦
        if length entries == max_payload_entries
        then modify_at (length entries - 1) (λ (e : ℕ × V). (key, value)) entries
        else entries ++ (key, value) ∷ []
  ]

  -- operator[]: the value of the key's entry, which is made when there is none.
  unfoldable pub subscript : V → ℕ → List (ℕ × V) → V × List (ℕ × V)
  unfolding find set_slot
  subscript default key entries = elim (find key entries) [
    | some v ↦ (v, entries)
    | none ↦ (default, set_slot key default entries)
  ]

  -- emplace() and insert(): an entry that is there stays. The Boolean says that one was made.
  unfoldable pub emplace : ℕ → V → List (ℕ × V) → Bool × List (ℕ × V)
  unfolding contains set_slot
  emplace key value entries =
      if contains key entries then (false, entries) else (true, set_slot key value entries)

  unfoldable pub insert_or_assign : ℕ → V → List (ℕ × V) → Bool × List (ℕ × V)
  unfolding contains set_slot
  insert_or_assign key value entries =
      (if contains key entries then false else true, set_slot key value entries)

  -- The initializer list's entries in order.
  unfoldable pub from_list : List (ℕ × V) → List (ℕ × V) → List (ℕ × V)
  unfolding insert_or_assign
  from_list [] entries = entries
  from_list ((k, v) ∷ rest) entries = from_list rest (insert_or_assign k v entries).1

  unfoldable pub erase : ℕ → List (ℕ × V) → ℕ × List (ℕ × V)
  unfolding find_index remove_at
  erase key entries = elim (find_index (λ (e : ℕ × V). e.0 == key) entries) [
    | none ↦ (0, entries)
    | some i ↦ (1, remove_at i entries)
  ]
