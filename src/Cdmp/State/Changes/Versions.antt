-- ===== src/Cdmp/State/Changes/Versions.antt =====
-- cdmp_state_service.cpp: SetLocalState() and ClearLocalState() keep the versions within the window.
use rt_core.Prelude.{
  ℕ, zero, suc, ◌+◌, ◌≤◌, ◌<◌, ◌≡◌, refl, ap, inl, inr, Bool, some, List, [], ◌∷◌, arith, length,
  take, drop, get_elem?, ltb, ◌==◌, ◌||◌, if◌then◌else◌, Bool-cases, Option-cases, length-append,
  length-take, length-drop,
}
use rt_core.Prelude.Bits.{u8}
use rt_core.Cdmp.Messages.State.{max_data_size}
use rt_core.Prelude.Tables.{lower_bound, find_index, modify_at, insert_at, remove_at}
use rt_core.Cdmp.State.Local.{
  LocalRecord, find_local_record, add_local_record, insert_record, new_record, stamp_versions,
  stamped, is_current, store_value, withdraw, lag, version_refresh_lag, refresh_lagging_versions,
}
use rt_core.Cdmp.State.Local.Versions.{
  AllFresh, Ready, next_fresh, modify-Ready, insert-Ready, refresh-Ready,
}
use rt_core.Cdmp.State.Service.{Device, StateService}
use rt_core.Cdmp.State.Changes.{stamp_change, clear_local_state, store_local_state, set_local_state}

-- The counter is a byte, the records have their slots, and none in use is too far behind.
pub record WellVersioned (room : ℕ) (s : StateService) : Type 0 where
  pub counter_fits : s.version_counter < 256
  pub within : length s.local_records ≤ room
  pub fresh : AllFresh (room + 61) s.version_counter s.local_records

lower_bound-le : {A : Type 0} (below : A → Bool) (xs : List A) → lower_bound below xs ≤ length xs
unfolding lower_bound
lower_bound-le below [] = omega arith
lower_bound-le below (x ∷ xs) = ground (arith, lower_bound-le below xs)

get_elem-lt : {A : Type 0} (xs : List A) (i : ℕ) {x : A} → get_elem? xs i ≡ some x → i < length xs
get_elem-lt [] i e = cc
get_elem-lt (x ∷ xs) zero e = omega arith
get_elem-lt (x ∷ xs) (suc i) e = omega (arith, get_elem-lt xs i e)

length-modify_at :
    {A : Type 0} (i : ℕ) (f : A → A) (xs : List A) → length (modify_at i f xs) ≡ length xs
unfolding modify_at
length-modify_at i f [] = refl
length-modify_at zero f (x ∷ xs) = refl
length-modify_at (suc i) f (x ∷ xs) = ap suc (length-modify_at i f xs)

length-refresh :
    (rs : List LocalRecord) (counter : ℕ)
    → length (refresh_lagging_versions counter rs).1 ≡ length rs
unfolding refresh_lagging_versions
length-refresh [] counter = refl
length-refresh (r ∷ rs) counter = ap suc (
    length-refresh rs (
      if r.is_withdrawn || ltb (lag counter r) version_refresh_lag
      then counter
      else u8 (counter + 1)))

find_local_record-lt :
    (t : ℕ) (rs : List LocalRecord) {i : ℕ} {r : LocalRecord}
    → find_local_record t rs ≡ some (i, r)
    → i < length rs
unfolding find_local_record
find_local_record-lt t rs {i} {r} e =
    let at = lower_bound (λ (x : LocalRecord). ltb x.state_type t) rs in
    elim (Option-cases (get_elem? rs at)) [
      | inl missing ↦ absurd (ground arith)
      | inr (x, found) ↦ let l = get_elem-lt rs at found in ground arith
    ]

AllFresh-drop :
    (bound counter i : ℕ) (rs : List LocalRecord)
    → AllFresh bound counter rs
    → AllFresh bound counter (drop i rs)
AllFresh-drop bound counter zero rs f = f
AllFresh-drop bound counter (suc i) [] f = f
AllFresh-drop bound counter (suc i) (r ∷ rs) (w, q, f) = AllFresh-drop bound counter i rs f

AllFresh-remove_at :
    (bound counter i : ℕ) (rs : List LocalRecord)
    → AllFresh bound counter rs
    → AllFresh bound counter (remove_at i rs)
unfolding remove_at
AllFresh-remove_at bound counter zero rs f = AllFresh-drop bound counter 1 rs f
AllFresh-remove_at bound counter (suc i) [] f = f
AllFresh-remove_at bound counter (suc i) (r ∷ rs) (w, q, f) =
    (w, q, AllFresh-remove_at bound counter i rs f)

length-insert_at :
    {A : Type 0} (i : ℕ) (x : A) (xs : List A)
    → i ≤ length xs
    → length (insert_at i x xs) ≡ length xs + 1
unfolding insert_at
length-insert_at i x xs l =
    omega (arith, length-append (take i xs) (x ∷ drop i xs), length-take i xs, length-drop i xs)

find_index-lt :
    {A : Type 0} (holds : A → Bool) (xs : List A) {i : ℕ}
    → find_index holds xs ≡ some i
    → i < length xs
unfolding find_index
find_index-lt holds [] e = cc
find_index-lt holds (x ∷ xs) {i} e = elim (Bool-cases (holds x)) [
  | inl here ↦ ground arith
  | inr later ↦ elim (Option-cases (find_index holds xs)) [
    | inl missing ↦ absurd (ground arith)
    | inr (j, found) ↦ let l = find_index-lt holds xs found in ground arith
  ]
]

length-remove_at :
    {A : Type 0} (i : ℕ) (xs : List A) → i < length xs → length (remove_at i xs) + 1 ≡ length xs
unfolding remove_at
length-remove_at i xs l =
    omega
      (arith, length-append (take i xs) (drop (suc i) xs), length-take i xs, length-drop (suc i) xs)

-- Where a new record goes: into some list with a free slot, all of whose records come from the table.
record Inserted (room counter i state_type : ℕ) (rs' : List LocalRecord) : Type 0 where
  base : List LocalRecord
  result : rs' ≡ insert_at i (new_record state_type) base
  place : i ≤ length base
  free : length base + 1 ≤ room
  fresh : AllFresh (room + 61) counter base

add_cases :
    (room counter t : ℕ) (rs : List LocalRecord) {i : ℕ} {rs' : List LocalRecord}
    → length rs ≤ room
    → AllFresh (room + 61) counter rs
    → add_local_record room t rs ≡ some (i, rs')
    → Inserted room counter i t rs'
unfolding add_local_record insert_record
add_cases room counter t rs {i} {rs'} l f e = elim (Bool-cases (length rs == room)) [
  | inr free ↦ record {
    base = rs;
    result = ground arith;
    place = let p = lower_bound-le (λ (r : LocalRecord). ltb r.state_type t) rs in ground arith;
    free = ground arith;
    fresh = f;
  }
  | inl full ↦ elim (Option-cases (find_index (λ (r : LocalRecord). r.is_withdrawn) rs)) [
    | inl missing ↦ absurd (ground arith)
    | inr (w, found) ↦ record {
      base = remove_at w rs;
      result = ground arith;
      place =
          let p = lower_bound-le (λ (r : LocalRecord). ltb r.state_type t) (remove_at w rs) in
          ground arith;
      free =
          let p = find_index-lt (λ (r : LocalRecord). r.is_withdrawn) rs found in
          omega (arith, length-remove_at w rs p);
      fresh = AllFresh-remove_at (room + 61) counter w rs f;
    }
  ]
]

module _ (crc8 : ℕ → List ℕ → ℕ) (max_local : ℕ) where
  stamp_change-WellVersioned :
      (d : Device) (i : ℕ) (s : StateService)
      → max_local ≤ 33
      → length s.local_records ≤ max_local
      → Ready max_local
          (u8 (s.version_counter + 1))
          (modify_at i (stamped (u8 (s.version_counter + 1))) s.local_records)
      → WellVersioned max_local (stamp_change crc8 d i s)
  unfolding stamp_change stamp_versions
  stamp_change-WellVersioned d i s n l ready =
      let version = u8 (s.version_counter + 1) in
      let changed = modify_at i (stamped version) s.local_records in
      let (fits, fresh) = refresh-Ready max_local version changed n (omega arith) ready in
      record {
        counter_fits = fits;
        within = omega (
          arith,
          length-refresh changed version,
          length-modify_at i (stamped version) s.local_records,
        );
        fresh = fresh;
      }

  -- A record that the table has is changed in place.
  change-WellVersioned :
      (d : Device) (i : ℕ) (f : LocalRecord → LocalRecord) (s : StateService)
      → max_local ≤ 33
      → i < length s.local_records
      → WellVersioned max_local s
      → WellVersioned max_local
          (stamp_change crc8 d i (record s { local_records = modify_at i f s.local_records }))
  change-WellVersioned d i f s n l v =
      stamp_change-WellVersioned d i (record s { local_records = modify_at i f s.local_records }) n
        (omega (arith, length-modify_at i f s.local_records, v.within))
        (modify-Ready max_local (u8 (s.version_counter + 1)) i f s.local_records (omega arith) l
          v.within
          (next_fresh max_local s.version_counter s.local_records n v.counter_fits v.fresh))

  clear-WellVersioned :
      (d : Device) (t : ℕ) (s : StateService)
      → max_local ≤ 33
      → WellVersioned max_local s
      → WellVersioned max_local (clear_local_state crc8 d t s)
  unfolding clear_local_state
  clear-WellVersioned d t s n v = elim (Option-cases (find_local_record t s.local_records)) [
    | inl missing ↦ rw (missing, clear_local_state) v
    | inr ((i, r), found) ↦ elim (Bool-cases r.is_withdrawn) [
      | inl out ↦ rw (found, out, clear_local_state) v
      | inr in_use ↦
          rw (found, in_use, clear_local_state)
            (change-WellVersioned d i withdraw s n (find_local_record-lt t s.local_records found) v)
    ]
  ]

  insert-WellVersioned :
      (d : Device) (i t : ℕ) (payload : List ℕ) (records : List LocalRecord) (s : StateService)
      → max_local ≤ 33
      → WellVersioned max_local s
      → Inserted max_local s.version_counter i t records
      → WellVersioned max_local (store_local_state crc8 d payload i records s)
  unfolding store_local_state
  insert-WellVersioned d i t payload records s n v k =
      let f = store_value payload in
      let version = u8 (s.version_counter + 1) in
      rw k.result (
        stamp_change-WellVersioned d i
          (record s { local_records = modify_at i f (insert_at i (new_record t) k.base) }) n
          (omega (
            arith,
            length-modify_at i f (insert_at i (new_record t) k.base),
            length-insert_at i (new_record t) k.base k.place,
            k.free,
          ))
          (insert-Ready max_local version i f (new_record t) k.base (omega arith) k.place k.free
            (next_fresh max_local s.version_counter k.base n v.counter_fits k.fresh)))

  -- With at most 33 slots, whatever is shared or withdrawn: the table keeps within its slots, the
  -- counter stays a byte, and every record in use stays at most 61 versions and one for each slot
  -- behind the counter.
  pub set_local_state-WellVersioned :
      (d : Device) (t : ℕ) (payload : List ℕ) (s : StateService)
      → max_local ≤ 33
      → WellVersioned max_local s
      → WellVersioned max_local (set_local_state crc8 max_local d t payload s).0
  unfolding set_local_state
  set_local_state-WellVersioned d t [] s n v = clear-WellVersioned d t s n v
  set_local_state-WellVersioned d t (b ∷ bytes) s n v =
      let payload = b ∷ bytes in
      elim (Bool-cases (t == 0 || ltb max_data_size (length payload))) [
        | inl bad ↦ rw bad v
        | inr good ↦ elim (Option-cases (find_local_record t s.local_records)) [
          | inr ((i, r), found) ↦ elim (Bool-cases (is_current payload r)) [
            | inl same ↦ rw (good, found, same) v
            | inr new ↦
                rw (good, found, new, store_local_state)
                  (change-WellVersioned d i (store_value payload) s n
                    (find_local_record-lt t s.local_records found) v)
          ]
          | inl missing ↦ elim (Option-cases (add_local_record max_local t s.local_records)) [
            | inl full ↦ rw (good, missing, full) v
            | inr ((i, records), added) ↦
                rw (good, missing, added)
                  (insert-WellVersioned d i t payload records s n v (
                    add_cases max_local s.version_counter t s.local_records v.within v.fresh added))
          ]
        ]
      ]
