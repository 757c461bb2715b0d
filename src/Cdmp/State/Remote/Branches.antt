-- ===== src/Cdmp/State/Remote/Branches.antt =====
-- cdmp_state_service.cpp, ApplyRecord(): its branches, on the records and on what is announced.
use rt_core.Prelude.{
  ℕ, ◌≡◌, ◌≢◌, refl, ◌⊎◌, inl, inr, true, false, not, ◌&&◌, none, some, List, ◌∷◌, arith, length,
  get_elem?, ◌==◌, Bool-cases, Option-cases,
}
use rt_core.Cdmp.Messages.State.{StateChange}
use rt_core.Prelude.Tables.{lower_bound, insert_at, modify_at, same_bytes}
use rt_core.Cdmp.State.Remote.Places.{same_bytes-equal, same_bytes-differ}
use rt_core.Cdmp.State.Local.{is_newer}
use rt_core.Cdmp.State.Remote.{
  RemoteRecord, RemoteTable, is_record_of, is_below, find_remote_record, apply_found, apply_new,
  set_changed, mark_overflowed, add_source_state,
}

-- The copy that a message makes.
abbrev pub copy : StateChange → RemoteRecord
copy m = record {
  source = m.source_device_id;
  state_type = m.state_type;
  version = m.version;
  is_stale = false;
  payload = m.payload;
}

-- A message whose record is at the place where it belongs is found there.
pub copy_at :
    (m : StateChange) (records : List RemoteRecord) (i : ℕ)
    → lower_bound (is_below m.source_device_id m.state_type) records ≡ i
    → get_elem? records i ≡ some (copy m)
    → find_remote_record m.source_device_id m.state_type records ≡ (i, some (copy m))
unfolding find_remote_record is_record_of
copy_at m records i e g = rw e (rw g (ground arith))

pub not_below : (m : StateChange) → is_below m.source_device_id m.state_type (copy m) ≡ false
unfolding is_below
not_below m = ground arith

pub copy_own : (m : StateChange) → is_record_of m.source_device_id m.state_type (copy m) ≡ true
unfolding is_record_of
copy_own m = ground arith

-- What becomes of a record that a message is applied to.
pub updated : StateChange → RemoteRecord → RemoteRecord
updated m x = record x { version = m.version; payload = m.payload; is_stale = false }

pub updated-copy :
    (m : StateChange) (r : RemoteRecord)
    → is_record_of m.source_device_id m.state_type r ≡ true
    → updated m r ≡ copy m
unfolding updated is_record_of
updated-copy m r e =
    let s : r.source ≡ m.source_device_id = ground arith in
    let t : r.state_type ≡ m.state_type = ground arith in
    λ i. record {
      source = s i;
      state_type = t i;
      version = m.version;
      is_stale = false;
      payload = m.payload;
    }

pub find_cases :
    (source state_type : ℕ) (records : List RemoteRecord)
    → let (i, found) = find_remote_record source state_type records in
      (found ≡ none)
      ⊎ ((r : RemoteRecord) × (found ≡ some r)
          × (get_elem? records i ≡ some r)
          × (is_record_of source state_type r ≡ true))
unfolding find_remote_record
find_cases source state_type records =
    let i = lower_bound (is_below source state_type) records in
    elim (Option-cases (get_elem? records i)) [
      | inl missing ↦ inl (rw (missing, find_remote_record) refl)
      | inr (r, there) ↦ elim (Bool-cases (is_record_of source state_type r)) [
        | inl same ↦ inr (r, (rw (there, same, find_remote_record) refl), there, same)
        | inr differs ↦ inl (rw (there, differs, find_remote_record) refl)
      ]
    ]

-- The handlers are to be told that the type changed, or nothing is left for them.
abbrev pub Announces : StateChange → RemoteTable → RemoteTable → Type 0
Announces m t t' = (t'.changed_types ≡ m.state_type ∷ t.changed_types) × (t'.is_notify_due ≡ true)

abbrev pub IsQuiet : RemoteTable → RemoteTable → Type 0
IsQuiet t t' = (t'.changed_types ≡ t.changed_types) × (t'.is_notify_due ≡ t.is_notify_due)

-- A copy with other data than the record had is announced.
abbrev pub Compares : StateChange → RemoteRecord → RemoteTable → RemoteTable → Type 0
Compares m r t t' =
    ((r.payload ≡ m.payload) × IsQuiet t t') ⊎ ((r.payload ≢ m.payload) × Announces m t t')

mark_overflowed_records :
    (now source : ℕ) (t : RemoteTable) → (mark_overflowed now source t).records ≡ t.records
unfolding mark_overflowed
mark_overflowed_records now source t = elim (Option-cases (add_source_state now source t.sources)) [
  | inl none_free ↦ rw (none_free, mark_overflowed) refl
  | inr ((i, sources), added) ↦ rw (added, mark_overflowed) refl
]

mark_overflowed-IsQuiet :
    (now source : ℕ) (t : RemoteTable) → IsQuiet t (mark_overflowed now source t)
unfolding mark_overflowed
mark_overflowed-IsQuiet now source t = elim (Option-cases (add_source_state now source t.sources)) [
  | inl none_free ↦ rw (none_free, mark_overflowed) (refl, refl)
  | inr ((i, sources), added) ↦ rw (added, mark_overflowed) (refl, refl)
]

pub newer-Compares :
    (i : ℕ) (r : RemoteRecord) (m : StateChange) (t : RemoteTable)
    → (length m.payload == 0) ≡ false
    → not r.is_stale && not (is_newer m.version r.version) ≡ false
    → Compares m r t (apply_found i r m t)
unfolding apply_found set_changed
newer-Compares i r m t filled e = elim (Bool-cases (same_bytes r.payload m.payload)) [
  | inl same ↦
      inl
        (same_bytes-equal r.payload m.payload same, rw (e, filled, same, apply_found) (refl, refl))
  | inr other ↦
      inr (
        same_bytes-differ r.payload m.payload other,
        rw (e, filled, other, apply_found) (refl, refl),
      )
]

pub free-Announces :
    (max_records now i : ℕ) (m : StateChange) (t : RemoteTable)
    → (length m.payload == 0) ≡ false
    → (length t.records == max_records) ≡ false
    → Announces m t (apply_new max_records now i m t)
unfolding set_changed apply_new
free-Announces max_records now i m t filled free = rw (filled, free, apply_new) (refl, refl)

pub full-IsQuiet :
    (max_records now i : ℕ) (m : StateChange) (t : RemoteTable)
    → (length m.payload == 0) ≡ false
    → (length t.records == max_records) ≡ true
    → IsQuiet t (apply_new max_records now i m t)
unfolding apply_new
full-IsQuiet max_records now i m t filled full =
    rw (filled, full, apply_new) (mark_overflowed-IsQuiet now m.source_device_id t)

pub older_same :
    (i : ℕ) (r : RemoteRecord) (m : StateChange) (t : RemoteTable)
    → not r.is_stale && not (is_newer m.version r.version) ≡ true
    → apply_found i r m t ≡ t
unfolding apply_found
older_same i r m t e = rw (e, apply_found) refl

pub newer_records :
    (i : ℕ) (r : RemoteRecord) (m : StateChange) (t : RemoteTable)
    → (length m.payload == 0) ≡ false
    → not r.is_stale && not (is_newer m.version r.version) ≡ false
    → (apply_found i r m t).records ≡ modify_at i (updated m) t.records
unfolding updated apply_found modify_at
newer_records i r m t filled e = rw (e, filled, apply_found) refl

pub free_records :
    (max_records now i : ℕ) (m : StateChange) (t : RemoteTable)
    → (length m.payload == 0) ≡ false
    → (length t.records == max_records) ≡ false
    → (apply_new max_records now i m t).records ≡ insert_at i (copy m) t.records
unfolding set_changed apply_new insert_at
free_records max_records now i m t filled free = rw (filled, free, apply_new) refl

pub full_records :
    (max_records now i : ℕ) (m : StateChange) (t : RemoteTable)
    → (length m.payload == 0) ≡ false
    → (length t.records == max_records) ≡ true
    → (apply_new max_records now i m t).records ≡ t.records
unfolding apply_new
full_records max_records now i m t filled full =
    rw (filled, full, apply_new) (mark_overflowed_records now m.source_device_id t)
