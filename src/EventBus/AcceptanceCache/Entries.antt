-- ===== src/EventBus/AcceptanceCache/Entries.antt =====
-- acceptance_cache.h: the sorted entries, and what an operation on them does to a lookup.
use rt_core.Prelude.{
  ℕ, zero, suc, ◌≤◌, ◌<◌, ◌≡◌, refl, ap, inl, inr, Bool, Option, none, some, List, [], ◌∷◌, length,
  ltb, ◌==◌, if◌then◌else◌, arith, Bool-cases,
}
use rt_core.Prelude.Tables.{lower_bound, modify_at, insert_at}
use rt_core.EventBus.AcceptanceCache.{Entry, index_of, entry_at, find_in}

-- The first answer for a key, wherever it stands.
unfoldable pub lookup : ℕ → List Entry → Option Bool
lookup key [] = none
lookup key (e ∷ es) = if e.key == key then some e.is_accepted else lookup key es

abbrev pub AllAbove : ℕ → List Entry → Type 0
AllAbove key [] = Unit
AllAbove key (e ∷ es) = (key < e.key) × AllAbove key es

abbrev pub IsSorted : List Entry → Type 0
IsSorted [] = Unit
IsSorted (e ∷ es) = AllAbove e.key es × IsSorted es

AllAbove-lookup : (key k : ℕ) (es : List Entry) → AllAbove k es → key ≤ k → lookup key es ≡ none
unfolding lookup
AllAbove-lookup key k [] a l = refl
AllAbove-lookup key k (e ∷ es) (h, a) l = ground (arith, AllAbove-lookup key k es a l)

-- On sorted entries the binary search finds the answer.
pub find_in-lookup : (key : ℕ) (es : List Entry) → IsSorted es → find_in key es ≡ lookup key es
unfolding find_in lower_bound lookup
find_in-lookup key [] s = refl
find_in-lookup key (e ∷ es) (a, s) =
    ground (arith, find_in-lookup key es s, AllAbove-lookup key e.key es a)

-- Writing over the entry at the index, when it is the key's.
pub lookup-modify :
    (key j : ℕ) (b : Bool) (es : List Entry) {x : Entry}
    → entry_at (index_of key es) key es ≡ some x
    → lookup j (modify_at (index_of key es) (λ (e : Entry). record e { is_accepted = b }) es)
      ≡ (if key == j then some b else lookup j es)
unfolding lower_bound lookup modify_at entry_at index_of
lookup-modify key j b [] h = cc
lookup-modify key j b (e ∷ es) {x} h = elim (Bool-cases (ltb e.key key)) [
  | inl below ↦ let ih = lookup-modify key j b es {x = x} (rw below at h) in rw below (ground arith)
  | inr here ↦ rw here (ground arith)
]

-- A new entry at the index.
pub lookup-insert :
    (key j : ℕ) (b : Bool) (es : List Entry)
    → lookup j (insert_at (index_of key es) (record { key = key; is_accepted = b }) es)
      ≡ (if key == j then some b else lookup j es)
unfolding lower_bound lookup insert_at index_of
lookup-insert key j b [] = refl
lookup-insert key j b (e ∷ es) = ground (arith, lookup-insert key j b es)

AllAbove-modify :
    (k i : ℕ) (b : Bool) (es : List Entry)
    → AllAbove k es
    → AllAbove k (modify_at i (λ (e : Entry). record e { is_accepted = b }) es)
unfolding modify_at
AllAbove-modify k i b [] a = a
AllAbove-modify k zero b (e ∷ es) a = a
AllAbove-modify k (suc i) b (e ∷ es) (h, a) = (h, AllAbove-modify k i b es a)

pub IsSorted-modify :
    (i : ℕ) (b : Bool) (es : List Entry)
    → IsSorted es
    → IsSorted (modify_at i (λ (e : Entry). record e { is_accepted = b }) es)
unfolding modify_at
IsSorted-modify i b [] s = s
IsSorted-modify zero b (e ∷ es) s = s
IsSorted-modify (suc i) b (e ∷ es) (a, s) =
    (AllAbove-modify e.key i b es a, IsSorted-modify i b es s)

pub length-modify :
    (i : ℕ) (b : Bool) (es : List Entry)
    → length (modify_at i (λ (e : Entry). record e { is_accepted = b }) es) ≡ length es
unfolding modify_at
length-modify i b [] = refl
length-modify zero b (e ∷ es) = refl
length-modify (suc i) b (e ∷ es) = ap suc (length-modify i b es)

AllAbove-trans : (j k : ℕ) (es : List Entry) → j < k → AllAbove k es → AllAbove j es
AllAbove-trans j k [] l a = a
AllAbove-trans j k (e ∷ es) l (h, a) = (omega arith, AllAbove-trans j k es l a)

-- A new entry at the index of its key, which no entry has.
AllAbove-insert :
    (k key : ℕ) (b : Bool) (es : List Entry)
    → k < key
    → AllAbove k es
    → AllAbove k (insert_at (index_of key es) (record { key = key; is_accepted = b }) es)
unfolding index_of lower_bound insert_at
AllAbove-insert k key b [] l a = (l, a)
AllAbove-insert k key b (e ∷ es) l (h, a) = elim (Bool-cases (ltb e.key key)) [
  | inl below ↦ rw below (h, AllAbove-insert k key b es l a)
  | inr above ↦ rw above (l, (h, a))
]

pub IsSorted-insert :
    (key : ℕ) (b : Bool) (es : List Entry)
    → IsSorted es
    → entry_at (index_of key es) key es ≡ none
    → IsSorted (insert_at (index_of key es) (record { key = key; is_accepted = b }) es)
unfolding index_of lower_bound insert_at entry_at
IsSorted-insert key b [] s h = (tt, tt)
IsSorted-insert key b (e ∷ es) (a, s) h = elim (Bool-cases (ltb e.key key)) [
  | inl below ↦
      let ih = IsSorted-insert key b es s (rw below at h) in
      rw below (AllAbove-insert e.key key b es (ground arith) a, ih)
  | inr above ↦
      let over : key < e.key = ground arith in
      rw above ((over, AllAbove-trans key e.key es over a), (a, s))
]

pub length-insert :
    (key : ℕ) (b : Bool) (es : List Entry)
    → length (insert_at (index_of key es) (record { key = key; is_accepted = b }) es)
      ≡ suc (length es)
unfolding index_of lower_bound insert_at
length-insert key b [] = refl
length-insert key b (e ∷ es) = elim (Bool-cases (ltb e.key key)) [
  | inl below ↦ rw below (ap suc (length-insert key b es))
  | inr above ↦ rw above refl
]
