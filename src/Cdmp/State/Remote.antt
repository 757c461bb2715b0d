-- ===== src/Cdmp/State/Remote.antt =====
-- cdmp_state_service.cpp: the copies of other units' records.
pub mod Places
pub mod Branches
pub mod Newest
use rt_core.Prelude.{
  ℕ, zero, suc, ◌+◌, ◌-◌, ◌%◌, Bool, true, false, not, ◌&&◌, ◌||◌, Option, none, some, List, [],
  ◌∷◌, ◌++◌, length, get_elem?, map, take, ltb, leb, ◌==◌, ◌!=◌, if◌then◌else◌,
}
use rt_core.Prelude.Bits.{u32}
use rt_core.Cdmp.Messages.State.{StateChange}
use rt_core.Prelude.Tables.{
  lower_bound, find_index, modify_at, insert_at, keep_if, any_of, same_bytes,
}
use rt_core.Cdmp.State.Local.{is_newer}

pub record RemoteRecord : Type 0 where
  pub source : ℕ
  pub state_type : ℕ
  pub version : ℕ
  pub is_stale : Bool
  pub payload : List ℕ

-- `device_id` 0, DEVICE_ID_UNASSIGNED, marks a free slot.
pub record SourceState : Type 0 where
  pub device_id : ℕ
  pub is_overflowed : Bool
  pub has_requested_sync : Bool
  pub sync_requested_at_ms : ℕ

abbrev pub free_slot : SourceState
free_slot = record {
  device_id = 0;
  is_overflowed = false;
  has_requested_sync = false;
  sync_requested_at_ms = 0;
}

-- `changed_types` lists the types set in the bitset; `is_notify_due` is the scheduled notify_task_.
pub record RemoteTable : Type 0 where
  pub records : List RemoteRecord
  pub sources : List SourceState
  pub changed_types : List ℕ
  pub is_notify_due : Bool

-- STATE_SYNC_REQUEST_MIN_INTERVAL_MS: half of 3000 ms.
abbrev pub sync_request_min_interval_ms : ℕ
sync_request_min_interval_ms = 1500

unfoldable pub is_record_of : ℕ → ℕ → RemoteRecord → Bool
is_record_of source state_type r = r.source == source && r.state_type == state_type

-- The pair of source and type, in order.
unfoldable pub is_below : ℕ → ℕ → RemoteRecord → Bool
is_below source state_type r =
    ltb r.source source || (r.source == source && ltb r.state_type state_type)

unfoldable pub set_changed : ℕ → RemoteTable → RemoteTable
set_changed state_type t = record t {
  changed_types = state_type ∷ t.changed_types;
  is_notify_due = true;
}

unfoldable pub remove_remote_records : (RemoteRecord → Bool) → RemoteTable → RemoteTable
unfolding keep_if any_of
remove_remote_records predicate t = if not (any_of predicate t.records) then t else record {
  records = keep_if (λ r. not (predicate r)) t.records;
  sources = map (λ (s : SourceState). record s { is_overflowed = false }) t.sources;
  changed_types = map (λ r. r.state_type) (keep_if predicate t.records) ++ t.changed_types;
  is_notify_due = true;
}

-- A slot that FindSourceState() may give to a new source.
unfoldable pub is_reusable : ℕ → SourceState → Bool
is_reusable now s =
    s.device_id == 0
    || (not s.is_overflowed
        && (not s.has_requested_sync
            || leb sync_request_min_interval_ms (u32 (now + 4294967296 - s.sync_requested_at_ms))))

-- The slot of a source, which takes a reusable one when it is to be added.
unfoldable pub find_source_state : ℕ → List SourceState → Option ℕ
unfolding find_index
find_source_state source sources = find_index (λ s. s.device_id == source) sources

unfoldable pub add_source_state : ℕ → ℕ → List SourceState → Option (ℕ × List SourceState)
unfolding find_source_state find_index is_reusable modify_at
add_source_state now source sources = elim (find_source_state source sources) [
  | some i ↦ some (i, sources)
  | none ↦ elim (find_index (is_reusable now) sources) [
    | none ↦ none
    | some i ↦ some (i, modify_at i (λ s. record free_slot { device_id = source }) sources)
  ]
]

unfoldable pub mark_overflowed : ℕ → ℕ → RemoteTable → RemoteTable
unfolding add_source_state modify_at
mark_overflowed now source t = elim (add_source_state now source t.sources) [
  | none ↦ t
  | some (i, sources) ↦ record t {
    sources = modify_at i (λ s. record s { is_overflowed = true }) sources;
  }
]

-- Whether a sync request of a slot may not go out yet.
unfoldable pub is_limited : ℕ → SourceState → Bool
is_limited now s =
    s.has_requested_sync
    && ltb (u32 (now + 4294967296 - s.sync_requested_at_ms)) sync_request_min_interval_ms

unfoldable pub start_sync_request : ℕ → ℕ → RemoteTable → RemoteTable × Bool
unfolding add_source_state is_limited modify_at
start_sync_request now source t = elim (add_source_state now source t.sources) [
  | none ↦ (t, false)
  | some (i, sources) ↦ elim (get_elem? sources i) [
    | none ↦ (t, false)
    | some s ↦ if is_limited now s then (record t { sources = sources }, false) else (
      record t {
        sources =
            modify_at i (λ x. record x { has_requested_sync = true; sync_requested_at_ms = now })
              sources;
      },
      true,
    )
  ]
]

-- A message for a copy that the table has, at this position.
unfoldable pub apply_found : ℕ → RemoteRecord → StateChange → RemoteTable → RemoteTable
unfolding is_newer same_bytes set_changed modify_at remove_remote_records is_record_of
apply_found i r m t =
    if not r.is_stale && not (is_newer m.version r.version)
    then t
    else if length m.payload == 0
    then remove_remote_records (is_record_of m.source_device_id m.state_type) t
    else let t' = if same_bytes r.payload m.payload then t else set_changed m.state_type t in
      record t' {
        records =
            modify_at i
              (λ x. record x { version = m.version; payload = m.payload; is_stale = false })
              t.records;
      }

-- A message for a copy that the table has not, whose place is this position.
unfoldable pub apply_new : ℕ → ℕ → ℕ → StateChange → RemoteTable → RemoteTable
unfolding mark_overflowed set_changed insert_at
apply_new max_records now i m t =
    if length m.payload == 0
    then t
    else if length t.records == max_records
    then mark_overflowed now m.source_device_id t
    else set_changed m.state_type (record t {
      records =
          insert_at i
            (record {
              source = m.source_device_id;
              state_type = m.state_type;
              version = m.version;
              is_stale = false;
              payload = m.payload;
            })
            t.records;
    })

-- The position of a message's record among the records in order, and the record if it is there.
unfoldable pub find_remote_record : ℕ → ℕ → List RemoteRecord → ℕ × Option RemoteRecord
unfolding lower_bound is_below is_record_of
find_remote_record source state_type records =
    let i = lower_bound (is_below source state_type) records in
    (
      i,
      elim (get_elem? records i) [
        | none ↦ none
        | some r ↦ if is_record_of source state_type r then some r else none
      ],
    )

unfoldable pub apply_record : ℕ → ℕ → StateChange → RemoteTable → RemoteTable
unfolding find_remote_record apply_found apply_new
apply_record max_records now m t =
    let (i, found) = find_remote_record m.source_device_id m.state_type t.records in
    elim found [ some r ↦ apply_found i r m t | none ↦ apply_new max_records now i m t ]

unfoldable pub is_of : ℕ → RemoteRecord → Bool
is_of source r = r.source == source

unfoldable pub mark_stale : ℕ → Bool → RemoteTable → RemoteTable
unfolding is_of
mark_stale source stale t = record t {
  records = map (λ r. if is_of source r then record r { is_stale = stale } else r) t.records;
}

unfoldable pub free_source : ℕ → List SourceState → List SourceState
unfolding find_source_state modify_at
free_source source sources = elim (find_source_state source sources) [
  | none ↦ sources
  | some i ↦ modify_at i (λ s. free_slot) sources
]

-- The copies of one type, as GetRemoteStates() fills a span with them: at most its size.
unfoldable pub get_remote_states : ℕ → ℕ → RemoteTable → List RemoteRecord
unfolding keep_if
get_remote_states state_type size t =
    take size (keep_if (λ r. r.state_type == state_type) t.records)
