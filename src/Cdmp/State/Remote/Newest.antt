-- ===== src/Cdmp/State/Remote/Newest.antt =====
-- cdmp_state_service.cpp, ApplyRecord(): the newest record is kept.
use rt_core.Prelude.{
  ℕ, ◌+◌, ◌-◌, ◌%◌, ◌<◌, ◌≤◌, ◌≡◌, ◌≢◌, Option, refl, sym, ap, subst, ◌∙◌, ◌⊎◌, inl, inr, true,
  false, not, ◌&&◌, none, some, List, arith, length, get_elem?, ◌==◌, Bool-cases, Option-cases,
}
use rt_core.Cdmp.Messages.State.{StateChange}
use rt_core.Prelude.Tables.{lower_bound, insert_at, modify_at, keep_if}
use rt_core.Cdmp.State.Remote.Places.{
  insert_found, modify_found, keep_if-insert_at, keep_if-modify_at,
}
use rt_core.Cdmp.State.Local.{is_newer}
use rt_core.Cdmp.State.Remote.{
  RemoteRecord, RemoteTable, is_record_of, is_below, find_remote_record, apply_found, apply_new,
  apply_record,
}
use rt_core.Cdmp.State.Remote.Branches.{
  copy, copy_at, not_below, copy_own, updated, updated-copy, find_cases, Announces, IsQuiet,
  Compares, newer-Compares, free-Announces, full-IsQuiet, older_same, newer_records, free_records,
  full_records,
}

-- How far a message is ahead of a record, on the circle of 256 versions.
abbrev pub lead : StateChange → RemoteRecord → ℕ
lead m r = (m.version + 256 - r.version) % 256

-- A record that takes a message: it is stale, or the message is less than half the circle ahead.
abbrev pub Takes : StateChange → RemoteRecord → Type 0
Takes m r = (r.is_stale ≡ true) ⊎ ((0 < lead m r) × (lead m r < 128))

abbrev pub Refuses : StateChange → RemoteRecord → Type 0
Refuses m r = (r.is_stale ≡ false) × ((lead m r ≡ 0) ⊎ (128 ≤ lead m r))

-- The records of other sources or other types, in order.
abbrev pub others : StateChange → RemoteTable → List RemoteRecord
others m t = keep_if (λ r. not (is_record_of m.source_device_id m.state_type r)) t.records

-- The message's own copy is found in the place where it belongs.
abbrev Copied : StateChange → RemoteTable → RemoteTable → Type 0
Copied m t t' =
    find_remote_record m.source_device_id m.state_type t'.records
    ≡ ((find_remote_record m.source_device_id m.state_type t.records).0, some (copy m))

-- What a message with data leaves, by the record that was found for it.
pub Found : ℕ → StateChange → RemoteTable → RemoteTable → Option RemoteRecord → Type 0
Found max_records m t t' none =
    ((length t.records ≢ max_records) × Copied m t t' × Announces m t t')
    ⊎ ((length t.records ≡ max_records) × (t'.records ≡ t.records) × IsQuiet t t')
Found max_records m t t' (some r) =
    (Takes m r × Copied m t t' × Compares m r t t') ⊎ (Refuses m r × (t' ≡ t))

pub record Applied (max_records : ℕ) (m : StateChange) (t t' : RemoteTable) : Type 0 where
  pub outcome :
      Found max_records m t t' (find_remote_record m.source_device_id m.state_type t.records).1
  pub kept : others m t' ≡ others m t

older-Refuses :
    (m : StateChange) (r : RemoteRecord)
    → not r.is_stale && not (is_newer m.version r.version) ≡ true
    → Refuses m r
unfolding is_newer
older-Refuses m r e = ground arith

newer-Takes :
    (m : StateChange) (r : RemoteRecord)
    → not r.is_stale && not (is_newer m.version r.version) ≡ false
    → Takes m r
unfolding is_newer
newer-Takes m r e = elim (Bool-cases r.is_stale) [
  | inl stale ↦ inl stale
  | inr current ↦ inr (ground arith)
]

found-Applied :
    (max_records : ℕ) (m : StateChange) (t : RemoteTable) (r : RemoteRecord)
    → (length m.payload == 0) ≡ false
    → let (i, found) = find_remote_record m.source_device_id m.state_type t.records in
      found ≡ some r
      → get_elem? t.records i ≡ some r
      → is_record_of m.source_device_id m.state_type r ≡ true
      → Applied max_records m t (apply_found i r m t)
unfolding Found find_remote_record
found-Applied max_records m t r filled e there same =
    let below = is_below m.source_device_id m.state_type in
    let own = is_record_of m.source_device_id m.state_type in
    let i = lower_bound below t.records in
    let t' = apply_found i r m t in
    elim (Bool-cases (not r.is_stale && not (is_newer m.version r.version))) [
      | inl older ↦
          let unchanged = older_same i r m t older in
          record {
            outcome =
                subst (Found max_records m t t') (sym e) (inr (older-Refuses m r older, unchanged));
            kept = ap (others m) unchanged;
          }
      | inr newer ↦
          let is_copy = updated-copy m r same in
          let changed = newer_records i r m t filled newer in
          let (p, q) =
            modify_found below (updated m) t.records there (ap below is_copy ∙ not_below m) in
          record {
            outcome = subst (Found max_records m t t') (sym e) (
                inl (
                  newer-Takes m r newer,
                  ap (find_remote_record m.source_device_id m.state_type) changed
                      ∙ copy_at m (modify_at i (updated m) t.records) i p (q ∙ ap some is_copy),
                  newer-Compares i r m t filled newer,
                ));
            kept =
                ap (keep_if (λ x. not (own x))) changed
                ∙ keep_if-modify_at (λ x. not (own x)) (updated m) i t.records there (ap not same)
                    (ap (λ x. not (own x)) is_copy ∙ ap not (copy_own m));
          }
    ]

new-Applied :
    (max_records now : ℕ) (m : StateChange) (t : RemoteTable)
    → (length m.payload == 0) ≡ false
    → let (i, found) = find_remote_record m.source_device_id m.state_type t.records in
      found ≡ none → Applied max_records m t (apply_new max_records now i m t)
unfolding Found find_remote_record
new-Applied max_records now m t filled e =
    let own = is_record_of m.source_device_id m.state_type in
    let i = lower_bound (is_below m.source_device_id m.state_type) t.records in
    let t' = apply_new max_records now i m t in
    elim (Bool-cases (length t.records == max_records)) [
      | inl full ↦
          let same = full_records max_records now i m t filled full in
          record {
            outcome =
                subst (Found max_records m t t') (sym e)
                  (inr (ground arith, same, full-IsQuiet max_records now i m t filled full));
            kept = ap (keep_if (λ x. not (own x))) same;
          }
      | inr free ↦
          let (p, q) =
            insert_found (is_below m.source_device_id m.state_type) (copy m) t.records
              (not_below m) in
          let changed = free_records max_records now i m t filled free in
          record {
            outcome = subst (Found max_records m t t') (sym e) (
                inl (
                  ground arith,
                  ap (find_remote_record m.source_device_id m.state_type) changed
                      ∙ copy_at m (insert_at i (copy m) t.records) i p q,
                  free-Announces max_records now i m t filled free,
                ));
            kept =
                ap (keep_if (λ x. not (own x))) changed
                ∙ keep_if-insert_at (λ x. not (own x)) (copy m) i t.records (ap not (copy_own m));
          }
    ]

apply_absent :
    (max_records now : ℕ) (m : StateChange) (t : RemoteTable)
    → let (i, found) = find_remote_record m.source_device_id m.state_type t.records in
      found ≡ none → apply_record max_records now m t ≡ apply_new max_records now i m t
unfolding apply_record
apply_absent max_records now m t e = rw (e, apply_record) refl

apply_present :
    (max_records now : ℕ) (m : StateChange) (t : RemoteTable) (r : RemoteRecord)
    → let (i, found) = find_remote_record m.source_device_id m.state_type t.records in
      found ≡ some r → apply_record max_records now m t ≡ apply_found i r m t
unfolding apply_record
apply_present max_records now m t r e = rw (e, apply_record) refl

-- A message with data leaves its copy as the one that its source and type are found to have, exactly
-- when there was one that is stale or from 1 to 127 versions behind, or there was none and the table is
-- not full. A current copy that is not behind leaves the whole table as it was, and a full table keeps its
-- records; both announce nothing. A new copy, and one with other data than before, is announced as a change
-- of its type, one with the same data is not. The records of other sources and types stay as they are.
pub apply_record-Applied :
    (max_records now : ℕ) (m : StateChange) (t : RemoteTable)
    → (length m.payload == 0) ≡ false
    → Applied max_records m t (apply_record max_records now m t)
apply_record-Applied max_records now m t filled =
    elim (find_cases m.source_device_id m.state_type t.records) [
      | inl absent ↦
          subst (Applied max_records m t) (sym (apply_absent max_records now m t absent))
            (new-Applied max_records now m t filled absent)
      | inr (r, found, there, same) ↦
          subst (Applied max_records m t) (sym (apply_present max_records now m t r found))
            (found-Applied max_records m t r filled found there same)
    ]

newer_irreflexive : (v : ℕ) → is_newer v v ≡ false
unfolding is_newer
newer_irreflexive v = ground arith

twice-Copied :
    (max_records later : ℕ) (m : StateChange) (t t' : RemoteTable)
    → Copied m t t'
    → (apply_record max_records later m t').records ≡ t'.records
twice-Copied max_records later m t t' taken =
    let again = newer_irreflexive m.version in
    ap (λ (x : RemoteTable). x.records)
      (apply_present max_records later m t' (copy m) (ap (λ x. x.1) taken)
        ∙ older_same _ (copy m) m t' (ground arith))

twice-absent :
    (max_records later : ℕ) (m : StateChange) (t t' : RemoteTable)
    → (length m.payload == 0) ≡ false
    → (find_remote_record m.source_device_id m.state_type t.records).1 ≡ none
    → Found max_records m t t' none
    → (apply_record max_records later m t').records ≡ t'.records
unfolding Found
twice-absent max_records later m t t' filled absent (inl (_, taken, _)) =
    twice-Copied max_records later m t t' taken
twice-absent max_records later m t t' filled absent (inr (full, e, _)) =
    ap (λ (x : RemoteTable). x.records)
      (apply_absent max_records later m t'
        (ap (λ x. (find_remote_record m.source_device_id m.state_type x).1) e ∙ absent))
    ∙ full_records max_records later _ m t' filled
        (let n : length t'.records ≡ max_records = ap length e ∙ full in ground arith)

older_refused :
    (m : StateChange) (r : RemoteRecord)
    → Refuses m r
    → not r.is_stale && not (is_newer m.version r.version) ≡ true
unfolding is_newer
older_refused m r (current, behind) = ground arith

twice-Found :
    (max_records later : ℕ) (m : StateChange) (t t' : RemoteTable) (r : RemoteRecord)
    → (find_remote_record m.source_device_id m.state_type t.records).1 ≡ some r
    → Found max_records m t t' (some r)
    → (apply_record max_records later m t').records ≡ t'.records
unfolding Found
twice-Found max_records later m t t' r found (inl (_, taken, _)) =
    twice-Copied max_records later m t t' taken
twice-Found max_records later m t t' r found (inr (refused, e)) =
    ap (λ x. (apply_record max_records later m x).records) e
    ∙ ap (λ (x : RemoteTable). x.records)
        (apply_present max_records later m t r found
          ∙ older_same _ r m t (older_refused m r refused)
          ∙ sym e)

-- Applying a message with data a second time changes no record.
pub apply_record-twice :
    (max_records now later : ℕ) (m : StateChange) (t : RemoteTable)
    → (length m.payload == 0) ≡ false
    → let t' = apply_record max_records now m t in
      (apply_record max_records later m t').records ≡ t'.records
apply_record-twice max_records now later m t filled =
    let t' = apply_record max_records now m t in
    let v = apply_record-Applied max_records now m t filled in
    elim (Option-cases (find_remote_record m.source_device_id m.state_type t.records).1) [
      | inl absent ↦
          twice-absent max_records later m t t' filled absent
            (subst (Found max_records m t t') absent v.outcome)
      | inr (r, found) ↦
          twice-Found max_records later m t t' r found
            (subst (Found max_records m t t') found v.outcome)
    ]
