-- ===== src/EventBus/AcceptanceCache/Refines.antt =====
-- acceptance_cache.h: the cache against a plain function from keys to answers.
use rt_core.Prelude.{
  ℕ, ◌≤◌, ◌<◌, ◌≡◌, refl, sym, subst, ◌∙◌, inl, inr, Bool, true, false, Option, none, some, List,
  [], ◌∷◌, length, ◌==◌, if◌then◌else◌, arith, Bool-cases, Option-cases,
}
use rt_core.Prelude.Tables.{modify_at, insert_at}
use rt_core.EventBus.AcceptanceCache.{
  Entry, Cache, empty_cache, index_of, revalidate, entry_at, find, store_entry, store,
}
use rt_core.EventBus.AcceptanceCache.Entries.{
  lookup, IsSorted, find_in-lookup, lookup-modify, lookup-insert, IsSorted-modify, length-modify,
  IsSorted-insert, length-insert,
}

-- The entries are in order of their keys, and within the capacity.
pub record IsCache (capacity : ℕ) (es : List Entry) : Type 0 where
  pub sorted : IsSorted es
  pub within : length es ≤ capacity

-- An answer that is found is the right one; none may be found.
abbrev pub Below : Option Bool → Option Bool → Type 0
Below none y = Unit
Below (some b) y = y ≡ some b

-- What a publisher does with the cache.
pub data Use : Type 0 where
  revalidates : ℕ → Use
  stores : ℕ → Bool → Use

-- The answers given since the subscriptions last changed, with nothing forgotten.
pub record Answers : Type 0 where
  pub generation : ℕ
  pub answer : ℕ → Option Bool

abbrev pub give : Use → Answers → Answers
give (revalidates g) a =
    if g == a.generation then a else record { generation = g; answer = λ key. none }
give (stores k b) a = record {
  generation = a.generation;
  answer = λ key. if k == key then some b else a.answer key;
}

abbrev pub give_all : List Use → Answers → Answers
give_all [] a = a
give_all (u ∷ us) a = give_all us (give u a)

unfoldable pub use_cache : ℕ → Use → Cache → Cache
unfolding revalidate store
use_cache capacity (revalidates g) c = revalidate g c
use_cache capacity (stores k b) c = store capacity k b c

unfoldable pub use_all : ℕ → List Use → Cache → Cache
unfolding use_cache
use_all capacity [] c = c
use_all capacity (u ∷ us) c = use_all capacity us (use_cache capacity u c)

pub record Refines (capacity : ℕ) (c : Cache) (a : Answers) : Type 0 where
  pub valid : IsCache capacity c.entries
  pub generation : c.subscription_generation ≡ a.generation
  pub found : (key : ℕ) → Below (find key c) (a.answer key)

-- The stored answer is found, and of the others those that are kept.
record Stored (capacity k : ℕ) (b : Bool) (es es' : List Entry) : Type 0 where
  hit : lookup k es' ≡ some b
  valid : IsCache capacity es'
  answers :
      (j : ℕ) (y : Option Bool)
      → Below (lookup j es) y
      → Below (lookup j es') (if k == j then some b else y)

Below-choice :
    (c b : Bool) (x y : Option Bool)
    → Below x y
    → Below (if c then some b else x) (if c then some b else y)
Below-choice true b x y h = refl
Below-choice false b x y h = h

Below-law :
    (c b : Bool) (x x' y : Option Bool)
    → x' ≡ (if c then some b else x)
    → Below x y
    → Below x' (if c then some b else y)
Below-law c b x x' y e h =
    subst (λ z. Below z (if c then some b else y)) (sym e) (Below-choice c b x y h)

-- A full cache forgets every other answer.
Below-forget :
    (c b : Bool) (y : Option Bool) → Below (if c then some b else none) (if c then some b else y)
Below-forget true b y = refl
Below-forget false b y = tt

store_entry-Stored :
    (capacity k : ℕ) (b : Bool) (es : List Entry)
    → 0 < capacity
    → IsCache capacity es
    → Stored capacity k b es (store_entry capacity k b es)
unfolding store_entry
store_entry-Stored capacity k b es p v = elim (Option-cases (entry_at (index_of k es) k es)) [
  | inr (x, known) ↦
      let e : store_entry capacity k b es
          ≡ modify_at (index_of k es) (λ (e : Entry). record e { is_accepted = b }) es =
        ground arith in
      subst (Stored capacity k b es) (sym e) (record {
        hit = ground (arith, lookup-modify k k b es known);
        valid = record {
          sorted = IsSorted-modify (index_of k es) b es v.sorted;
          within = omega (arith, length-modify (index_of k es) b es, v.within);
        };
        answers = λ j y h. Below-law (k == j) b (lookup j es) _ y (lookup-modify k j b es known) h;
      })
  | inl new ↦ elim (Bool-cases (length es == capacity)) [
    | inl full ↦
        let e : store_entry capacity k b es ≡ record { key = k; is_accepted = b } ∷ [] =
          ground arith in
        subst (Stored capacity k b es) (sym e) (record {
          hit = unfold lookup in (ground arith);
          valid = record { sorted = (tt, tt); within = omega arith };
          answers = λ j y h. unfold lookup in (Below-forget (k == j) b y);
        })
    | inr room ↦
        let e : store_entry capacity k b es
            ≡ insert_at (index_of k es) (record { key = k; is_accepted = b }) es =
          ground arith in
        subst (Stored capacity k b es) (sym e) (record {
          hit = ground (arith, lookup-insert k k b es);
          valid = record {
            sorted = IsSorted-insert k b es v.sorted new;
            within = ground (arith, length-insert k b es, v.within);
          };
          answers = λ j y h. Below-law (k == j) b (lookup j es) _ y (lookup-insert k j b es) h;
        })
  ]
]

-- A cache with no entries answers nothing.
nothing :
    (capacity g : ℕ)
    → Refines capacity
        (record { entries = []; subscription_generation = g })
        (record { generation = g; answer = λ key. none })
unfolding find
nothing capacity g = record {
  valid = record { sorted = tt; within = omega arith };
  generation = refl;
  found = λ key. tt;
}

revalidate-Refines :
    (capacity g : ℕ) (c : Cache) (a : Answers)
    → Refines capacity c a
    → Refines capacity (revalidate g c) (give (revalidates g) a)
unfolding revalidate
revalidate-Refines capacity g c a r = elim (Bool-cases (g == a.generation)) [
  | inl same ↦
      let e : revalidate g c ≡ c = ground (arith, r.generation) in
      let e' : give (revalidates g) a ≡ a = ground arith in
      subst (λ x. Refines capacity x (give (revalidates g) a)) (sym e)
        (subst (Refines capacity c) (sym e') r)
  | inr changed ↦
      let d : Cache = record { entries = []; subscription_generation = g } in
      let b : Answers = record { generation = g; answer = λ key. none } in
      let e : revalidate g c ≡ d = ground (arith, r.generation) in
      let e' : give (revalidates g) a ≡ b = ground arith in
      subst (λ x. Refines capacity x (give (revalidates g) a)) (sym e)
        (subst (Refines capacity d) (sym e') (nothing capacity g))
]

use_cache-Refines :
    (capacity : ℕ) (u : Use) (c : Cache) (a : Answers)
    → 0 < capacity
    → Refines capacity c a
    → Refines capacity (use_cache capacity u c) (give u a)
unfolding use_cache
use_cache-Refines capacity (revalidates g) c a p r = revalidate-Refines capacity g c a r
use_cache-Refines capacity (stores k b) c a p r =
    let s = store_entry-Stored capacity k b c.entries p r.valid in
    let c' = store capacity k b c in
    record {
      valid = unfold store in s.valid;
      generation = unfold store in r.generation;
      found = λ j.
          subst (λ x. Below x (if k == j then some b else a.answer j))
            (sym (found_in j c' (unfold store in s.valid.sorted)))
            (unfold store in
              (s.answers j (a.answer j)
                (subst (λ x. Below x (a.answer j)) (found_in j c r.valid.sorted) (r.found j))));
    }
  where
    found_in : (j : ℕ) (c : Cache) → IsSorted c.entries → find j c ≡ lookup j c.entries
    found_in j c s = unfold find in (find_in-lookup j c.entries s)

use_all-from :
    (capacity : ℕ) (us : List Use) (c : Cache) (a : Answers)
    → 0 < capacity
    → Refines capacity c a
    → Refines capacity (use_all capacity us c) (give_all us a)
unfolding use_all
use_all-from capacity [] c a p r = r
use_all-from capacity (u ∷ us) c a p r =
    use_all-from capacity us (use_cache capacity u c) (give u a) p
      (use_cache-Refines capacity u c a p r)

store-hit :
    (capacity k : ℕ) (b : Bool) (c : Cache)
    → 0 < capacity
    → IsCache capacity c.entries
    → find k (store capacity k b c) ≡ some b
unfolding find store
store-hit capacity k b c p v =
    let s = store_entry-Stored capacity k b c.entries p v in
    find_in-lookup k (store_entry capacity k b c.entries) s.valid.sorted ∙ s.hit

-- Whatever is stored and revalidated from the empty cache on: an answer that the cache gives is the last one
-- stored for its key since the subscriptions changed, the entries stay sorted and within the capacity, and
-- an answer stored next is found.
pub use_all-Refines :
    (capacity : ℕ) (us : List Use) (k : ℕ) (b : Bool)
    → 0 < capacity
    → Refines capacity
        (use_all capacity us empty_cache)
        (give_all us (record { generation = 0; answer = λ key. none }))
      × (find k (store capacity k b (use_all capacity us empty_cache)) ≡ some b)
use_all-Refines capacity us k b p =
    let r = use_all-from capacity us empty_cache _ p (nothing capacity 0) in
    (r, store-hit capacity k b (use_all capacity us empty_cache) p r.valid)
