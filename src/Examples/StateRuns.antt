-- ===== src/Examples/StateRuns.antt =====
-- The theorems on shared records at concrete inputs, and tests of their definitions.
use rt_core.Prelude.{ℕ, ◌+◌, ◌≤◌, ◌<◌, ◌≡◌, refl, inr, true, false, none, List, [], ◌∷◌, arith}
use rt_core.Cdmp.Messages.State.{StateChange}
use rt_core.Prelude.Tables.{modify_at}
use rt_core.Cdmp.State.Local.{LocalRecord, is_newer, lag, stamp_versions, store_value}
use rt_core.Cdmp.State.Local.Versions.{AllFresh, AllLater, stamp_versions_later}
use rt_core.Cdmp.State.Local.Resends.{count_sent, count_sent_four}
use rt_core.Cdmp.State.Remote.{RemoteTable, free_slot, apply_record}
use rt_core.Cdmp.State.Remote.Newest.{Applied, apply_record-Applied, apply_record-twice}
use rt_core.Cdmp.State.Service.{Device, StateService}
use rt_core.Cdmp.State.Changes.{set_local_state}
use rt_core.Cdmp.State.Changes.Versions.{WellVersioned, set_local_state-WellVersioned}

-- The oldest record is 64 versions behind the counter, so the next change refreshes it.
abbrev oldest : LocalRecord
oldest = record {
  state_type = 1;
  version = 10;
  is_withdrawn = false;
  is_announce_pending = false;
  payload = 5 ∷ [];
  unacknowledged = [];
  retransmit_count = 0;
  next_retransmit_ms = 0;
}

abbrev latest : LocalRecord
latest = record oldest { state_type = 3; version = 74 }

abbrev table : List LocalRecord
table = oldest ∷ latest ∷ []

table-AllFresh : AllFresh (4 + 61) 74 table
unfolding lag
table-AllFresh = (omega arith, inr (omega arith), (omega arith, inr (omega arith), tt))

-- 250 was sent 10 changes before 4.
newer_test : is_newer 4 250 ≡ true
unfolding is_newer
newer_test = refl

older_test : is_newer 250 4 ≡ false
unfolding is_newer
older_test = refl

stamp_versions_later_example :
    let (counter', rs') = stamp_versions 74 1 (modify_at 1 (store_value (9 ∷ [])) table) in
    (counter' < 256) × AllFresh (4 + 61) counter' rs' × AllLater table rs'
stamp_versions_later_example =
    stamp_versions_later 4 74 1 (store_value (9 ∷ [])) table (omega arith) (omega arith)
      (omega arith) (omega arith) table-AllFresh

-- The change takes version 75 and the refreshed record 76.
stamp_test : (stamp_versions 74 1 table).0 ≡ 76
unfolding stamp_versions
stamp_test = refl

abbrev no_copies : RemoteTable
no_copies = record {
  records = [];
  sources = free_slot ∷ free_slot ∷ [];
  changed_types = [];
  is_notify_due = false;
}

abbrev service : StateService
service = record {
  is_started = true;
  version_counter = 74;
  is_announce_all_pending = false;
  local_records = table;
  remote = no_copies;
  state_digest = 0;
  rx_queue = [];
  rx_dropped = 0;
  is_receive_due = false;
  transmit_delay = none;
  replay_delay = none;
}

abbrev unit : Device
unit = record { device_id = 7; is_online = true }

-- A checksum in place of the CRC.
abbrev checksum : ℕ → List ℕ → ℕ
checksum c [] = c
checksum c (b ∷ bytes) = checksum (c + b) bytes

set_local_state-WellVersioned_example :
    WellVersioned 4 (set_local_state checksum 4 unit 2 (1 ∷ 2 ∷ []) service).0
set_local_state-WellVersioned_example =
    set_local_state-WellVersioned checksum 4 unit 2 (1 ∷ 2 ∷ []) service (omega arith)
      (record { counter_fits = omega arith; within = omega arith; fresh = table-AllFresh })

abbrev notification : StateChange
notification = record { source_device_id = 9; version = 4; state_type = 2; payload = 1 ∷ 2 ∷ [] }

-- The table has an older copy of the record.
abbrev copies : RemoteTable
copies = record no_copies {
  records =
      record { source = 9; state_type = 2; version = 250; is_stale = false; payload = 3 ∷ [] } ∷ [];
}

apply_record-Applied_example :
    Applied 2 notification copies (apply_record 2 1000 notification copies)
apply_record-Applied_example = apply_record-Applied 2 1000 notification copies refl

apply_record-twice_example :
    let t' = apply_record 2 1000 notification copies in
    (apply_record 2 1050 notification t').records ≡ t'.records
apply_record-twice_example = apply_record-twice 2 1000 1050 notification copies refl

-- A run every 300 ms: the change goes out four times, then never again.
abbrev announced : LocalRecord
announced = record latest { is_announce_pending = true }

abbrev runs : List ℕ
runs = 0 ∷ 300 ∷ 600 ∷ 900 ∷ 1200 ∷ 1500 ∷ []

count_sent_four_example : count_sent (8 ∷ 9 ∷ []) runs announced ≤ 4
count_sent_four_example = count_sent_four (8 ∷ 9 ∷ []) runs announced refl

count_sent_test : count_sent (8 ∷ 9 ∷ []) runs announced ≡ 4
unfolding count_sent
count_sent_test = refl
