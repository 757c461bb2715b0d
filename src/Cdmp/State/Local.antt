-- ===== src/Cdmp/State/Local.antt =====
-- cdmp_state_service.cpp: the records of this unit, their versions and their acknowledgements.
pub mod Versions
pub mod Resends
use rt_core.Prelude.{
  ℕ, zero, suc, ◌+◌, ◌-◌, min, max, Bool, true, false, not, ◌&&◌, ◌||◌, Option, none, some, List,
  [], ◌∷◌, length, get_elem?, map, ltb, leb, ◌==◌, ◌!=◌, if◌then◌else◌,
}
use rt_core.Prelude.Bits.{u8}
use rt_core.Cdmp.Messages.State.{StateChange, max_data_size}
use rt_core.Prelude.Tables.{
  lower_bound, find_index, modify_at, insert_at, remove_at, keep_if, same_bytes, swap_remove,
}

-- CdmpConstants.
abbrev pub ack_peers_max : ℕ
ack_peers_max = 8

abbrev pub version_refresh_lag : ℕ
version_refresh_lag = 64

abbrev pub retransmit_backoffs_ms : List ℕ
retransmit_backoffs_ms = 50 ∷ 100 ∷ 200 ∷ []

-- Serial number comparison of bytes: the difference as an int8_t is positive.
unfoldable pub is_newer : ℕ → ℕ → Bool
is_newer version current = let d = u8 (version + 256 - current) in ltb 0 d && ltb d 128

-- `unacknowledged` holds the first `unacknowledged_count` peers of the array.
pub record LocalRecord : Type 0 where
  pub state_type : ℕ
  pub version : ℕ
  pub is_withdrawn : Bool
  pub is_announce_pending : Bool
  pub payload : List ℕ
  pub unacknowledged : List ℕ
  pub retransmit_count : ℕ
  pub next_retransmit_ms : ℕ

unfoldable pub new_record : ℕ → LocalRecord
new_record state_type = record {
  state_type = state_type;
  version = 0;
  is_withdrawn = false;
  is_announce_pending = false;
  payload = [];
  unacknowledged = [];
  retransmit_count = 0;
  next_retransmit_ms = 0;
}

-- The position of a record, and the record.
unfoldable pub find_local_record : ℕ → List LocalRecord → Option (ℕ × LocalRecord)
unfolding lower_bound
find_local_record state_type records =
    let i = lower_bound (λ r. ltb r.state_type state_type) records in
    elim (get_elem? records i) [
      | none ↦ none
      | some r ↦ if r.state_type == state_type then some (i, r) else none
    ]

unfoldable pub insert_record : ℕ → List LocalRecord → ℕ × List LocalRecord
unfolding lower_bound insert_at new_record
insert_record state_type records =
    let i = lower_bound (λ r. ltb r.state_type state_type) records in
    (i, insert_at i (new_record state_type) records)

-- A full table gives the first withdrawn record's slot away; `none` is the null pointer.
unfoldable pub add_local_record : ℕ → ℕ → List LocalRecord → Option (ℕ × List LocalRecord)
unfolding find_index remove_at insert_record
add_local_record max_records state_type records =
    if length records == max_records
    then elim (find_index (λ r. r.is_withdrawn) records) [
      | none ↦ none
      | some i ↦ some (insert_record state_type (remove_at i records))
    ]
    else some (insert_record state_type records)

-- The record under a new version, to be announced, with nobody's acknowledgement.
unfoldable pub stamped : ℕ → LocalRecord → LocalRecord
stamped version r = record r { version = version; unacknowledged = []; is_announce_pending = true }

-- `version_counter_ - record.version` as a uint8_t.
unfoldable pub lag : ℕ → LocalRecord → ℕ
lag counter r = u8 (counter + 256 - r.version)

unfoldable pub refresh_lagging_versions : ℕ → List LocalRecord → ℕ × List LocalRecord
unfolding lag stamped
refresh_lagging_versions counter [] = (counter, [])
refresh_lagging_versions counter (r ∷ rest) =
    let is_kept = r.is_withdrawn || ltb (lag counter r) version_refresh_lag in
    let next = u8 (counter + 1) in
    let (counter', rest') = refresh_lagging_versions (if is_kept then counter else next) rest in
    (counter', (if is_kept then r else stamped next r) ∷ rest')

-- StampChange() up to UpdateDigest(): the counter and the records.
unfoldable pub stamp_versions : ℕ → ℕ → List LocalRecord → ℕ × List LocalRecord
unfolding modify_at stamped refresh_lagging_versions
stamp_versions counter i records =
    let version = u8 (counter + 1) in
    refresh_lagging_versions version (modify_at i (stamped version) records)

-- The record already shares this value.
unfoldable pub is_current : List ℕ → LocalRecord → Bool
unfolding same_bytes
is_current payload r = not r.is_withdrawn && same_bytes r.payload payload

unfoldable pub store_value : List ℕ → LocalRecord → LocalRecord
store_value payload r = record r { is_withdrawn = false; payload = payload }

unfoldable pub withdraw : LocalRecord → LocalRecord
withdraw r = record r { is_withdrawn = true; payload = [] }

unfoldable pub free_acknowledged_withdrawals : List LocalRecord → List LocalRecord
unfolding keep_if
free_acknowledged_withdrawals records =
    keep_if
      (λ r. not (r.is_withdrawn && (not r.is_announce_pending && length r.unacknowledged == 0)))
      records

-- `none` stands for every version.
unfoldable pub acknowledge : ℕ → Option ℕ → LocalRecord → LocalRecord
unfolding swap_remove
acknowledge peer_id none r = record r { unacknowledged = swap_remove peer_id r.unacknowledged }
acknowledge peer_id (some version) r =
    if r.version != version
    then r
    else record r { unacknowledged = swap_remove peer_id r.unacknowledged }

unfoldable pub remove_from_acknowledgement_sets : ℕ → Option ℕ → List LocalRecord → List LocalRecord
unfolding acknowledge free_acknowledged_withdrawals
remove_from_acknowledgement_sets peer_id version records =
    free_acknowledged_withdrawals (map (acknowledge peer_id version) records)

abbrev pub backoff : ℕ → ℕ
backoff i = elim (get_elem? retransmit_backoffs_ms i) [ none ↦ 0 | some ms ↦ ms ]

-- One round of the loop of Transmit(): the record, and whether it is sent.
unfoldable pub transmit_record : ℕ → List ℕ → LocalRecord → LocalRecord × Bool
transmit_record now online_peers r =
    if r.is_announce_pending
    then (
      record r {
        is_announce_pending = false;
        retransmit_count = 0;
        unacknowledged = online_peers;
        next_retransmit_ms = now + backoff 0;
      },
      true,
    )
    else if ltb 0 (length r.unacknowledged) && leb r.next_retransmit_ms now
    then (
      if r.retransmit_count + 1 == length retransmit_backoffs_ms
          then record r { retransmit_count = r.retransmit_count + 1; unacknowledged = [] }
          else record r {
            retransmit_count = r.retransmit_count + 1;
            next_retransmit_ms = now + backoff (r.retransmit_count + 1);
          },
      true,
    )
    else (r, false)

unfoldable pub to_message : ℕ → LocalRecord → StateChange
to_message device_id r = record {
  source_device_id = device_id;
  version = r.version;
  state_type = r.state_type;
  payload = r.payload;
}

unfoldable pub transmit_records :
    ℕ → ℕ → List ℕ → List LocalRecord → List LocalRecord × List StateChange
unfolding transmit_record to_message
transmit_records device_id now online_peers [] = ([], [])
transmit_records device_id now online_peers (r ∷ rest) =
    let (r', is_sent) = transmit_record now online_peers r in
    let (rest', messages) = transmit_records device_id now online_peers rest in
    (r' ∷ rest', if is_sent then to_message device_id r' ∷ messages else messages)

-- The earliest resend; `none` is the maximum that stands for no resend.
unfoldable pub next_retransmission : List LocalRecord → Option ℕ
next_retransmission [] = none
next_retransmission (r ∷ rest) =
    let later = next_retransmission rest in
    if ltb 0 (length r.unacknowledged)
    then some (elim later [ none ↦ r.next_retransmit_ms | some t ↦ min r.next_retransmit_ms t ])
    else later

-- The records that a replay sends: those that are not withdrawn.
unfoldable pub replay_messages : ℕ → List LocalRecord → List StateChange
unfolding to_message keep_if
replay_messages device_id records =
    map (to_message device_id) (keep_if (λ r. not r.is_withdrawn) records)
