-- ===== src/EventBus/AcceptanceCache.antt =====
-- subsys/event_bus/acceptance_cache.h: the answers of a channel's subscribers, by key. The entries are the
-- first `count_` of the array, and the capacity is the template's argument.
pub mod Entries
pub mod Refines
use rt_core.Prelude.{
  ℕ, Bool, ◌||◌, Option, none, some, List, [], ◌∷◌, length, get_elem?, ltb, ◌==◌, if◌then◌else◌,
}
use rt_core.Prelude.Tables.{lower_bound, modify_at, insert_at}

pub record Entry : Type 0 where
  pub key : ℕ
  pub is_accepted : Bool

pub record Cache : Type 0 where
  pub entries : List Entry
  pub subscription_generation : ℕ

abbrev pub empty_cache : Cache
empty_cache = record { entries = []; subscription_generation = 0 }

unfoldable pub index_of : ℕ → List Entry → ℕ
unfolding lower_bound
index_of key entries = lower_bound (λ (e : Entry). ltb e.key key) entries

unfoldable pub revalidate : ℕ → Cache → Cache
revalidate generation c =
    if generation == c.subscription_generation
    then c
    else record { entries = []; subscription_generation = generation }

-- The entry at an index, when it is the key's.
unfoldable pub entry_at : ℕ → ℕ → List Entry → Option Entry
entry_at index key entries = elim (get_elem? entries index) [
  | none ↦ none
  | some e ↦ if e.key == key then some e else none
]

unfoldable pub find_in : ℕ → List Entry → Option Bool
unfolding index_of entry_at
find_in key entries = elim (entry_at (index_of key entries) key entries) [
  | none ↦ none
  | some e ↦ some e.is_accepted
]

unfoldable pub find : ℕ → Cache → Option Bool
unfolding find_in
find key c = find_in key c.entries

unfoldable pub store_entry : ℕ → ℕ → Bool → List Entry → List Entry
unfolding index_of entry_at modify_at insert_at
store_entry capacity key is_accepted entries =
    let index = index_of key entries in
    elim (entry_at index key entries) [
      | some e ↦ modify_at index (λ (e : Entry). record e { is_accepted = is_accepted }) entries
      | none ↦
          if length entries == capacity
          then record { key = key; is_accepted = is_accepted } ∷ []
          else insert_at index (record { key = key; is_accepted = is_accepted }) entries
    ]

unfoldable pub store : ℕ → ℕ → Bool → Cache → Cache
unfolding store_entry
store capacity key is_accepted c = record c {
  entries = store_entry capacity key is_accepted c.entries;
}
