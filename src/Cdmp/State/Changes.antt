-- ===== src/Cdmp/State/Changes.antt =====
-- cdmp_state_service.cpp: changes of the unit's own records, and the digests. The CRC of Zephyr and the
-- number of slots are parameters.
pub mod Versions
use rt_core.Prelude.{
  ℕ, zero, suc, ◌+◌, ◌-◌, Bool, true, false, not, ◌&&◌, ◌||◌, Option, none, some, List, [], ◌∷◌,
  ◌++◌, length, map, take, get_elem?, ltb, leb, ◌==◌, ◌!=◌, if◌then◌else◌,
}
use rt_core.Prelude.Bits.{u8}
use rt_core.Cdmp.Status.{DeviceStatus, online, same_status}
use rt_core.Cdmp.Messages.Network.{Heartbeat}
use rt_core.Cdmp.Messages.Command.{CommandRequest}
use rt_core.Cdmp.Messages.State.{
  StateChange, state_change_from_frame, StateChangeResponse, state_change_response_from_frame,
  max_data_size, max_frame_size,
}
use rt_core.Prelude.Tables.{find_index, modify_at, keep_if, any_of}
use rt_core.Cdmp.State.Local.{
  LocalRecord, find_local_record, add_local_record, stamp_versions, is_current, store_value,
  withdraw, free_acknowledged_withdrawals, remove_from_acknowledgement_sets, transmit_records,
  next_retransmission, replay_messages, ack_peers_max,
}
use rt_core.Cdmp.State.Remote.{
  RemoteRecord, SourceState, RemoteTable, free_slot, find_source_state, remove_remote_records,
  start_sync_request, apply_record, mark_stale, free_source, is_of,
}
use rt_core.Cdmp.State.Service.{Device, ReceivedFrame, StateService, process_response_frame}

-- Whether some record of the source did not fit.
unfoldable pub is_overflowed_source : ℕ → List SourceState → Bool
unfolding find_source_state
is_overflowed_source source sources = elim (find_source_state source sources) [
  | none ↦ false
  | some i ↦ elim (get_elem? sources i) [ none ↦ false | some x ↦ x.is_overflowed ]
]

module _ (crc8 : ℕ → List ℕ → ℕ) where
  unfoldable pub add_to_digest : ℕ → ℕ → ℕ → List ℕ → ℕ
  add_to_digest digest state_type version payload =
      crc8 (crc8 digest (state_type ∷ version ∷ length payload ∷ [])) payload

  unfoldable pub local_digest : ℕ → List LocalRecord → ℕ
  unfolding add_to_digest
  local_digest digest [] = digest
  local_digest digest (r ∷ rest) =
      local_digest
        (if r.is_withdrawn then digest else add_to_digest digest r.state_type r.version r.payload)
        rest

  unfoldable pub stamp_change : Device → ℕ → StateService → StateService
  unfolding stamp_versions local_digest
  stamp_change d i s =
      let (counter, records) = stamp_versions s.version_counter i s.local_records in
      record s {
        version_counter = counter;
        local_records = records;
        state_digest = local_digest 0 records;
        transmit_delay = if s.is_started && d.is_online then some 0 else s.transmit_delay;
      }

  unfoldable pub clear_local_state : Device → ℕ → StateService → StateService
  unfolding find_local_record withdraw modify_at stamp_change
  clear_local_state d state_type s = elim (find_local_record state_type s.local_records) [
    | none ↦ s
    | some (i, r) ↦
        if r.is_withdrawn
        then s
        else stamp_change d i (record s { local_records = modify_at i withdraw s.local_records })
  ]

  -- The value goes into a slot of the table, which is then stamped.
  unfoldable pub store_local_state :
      Device → List ℕ → ℕ → List LocalRecord → StateService → StateService
  unfolding store_value modify_at stamp_change
  store_local_state d payload i records s =
      stamp_change d i (record s { local_records = modify_at i (store_value payload) records })

  unfoldable pub set_local_state : ℕ → Device → ℕ → List ℕ → StateService → StateService × Bool
  unfolding clear_local_state find_local_record add_local_record is_current store_local_state
  set_local_state max_local d state_type [] s = (clear_local_state d state_type s, state_type != 0)
  set_local_state max_local d state_type (b ∷ bytes) s =
      if state_type == 0 || ltb max_data_size (length (b ∷ bytes))
      then (s, false)
      else elim (find_local_record state_type s.local_records) [
        | some (i, r) ↦
            if is_current (b ∷ bytes) r
            then (s, true)
            else (store_local_state d (b ∷ bytes) i s.local_records s, true)
        | none ↦ elim (add_local_record max_local state_type s.local_records) [
          | none ↦ (s, false)
          | some (i, records) ↦ (store_local_state d (b ∷ bytes) i records s, true)
        ]
      ]

  unfoldable pub remote_digest : (RemoteRecord → Bool) → ℕ → List RemoteRecord → ℕ
  unfolding add_to_digest
  remote_digest counts digest [] = digest
  remote_digest counts digest (r ∷ rest) =
      remote_digest counts
        (if counts r then add_to_digest digest r.state_type r.version r.payload else digest) rest

  -- The copies of a source against the digest of its heartbeat, and whether it is asked to replay.
  unfoldable pub compare_digest : ℕ → Heartbeat → RemoteTable → RemoteTable × Bool
  unfolding keep_if is_of remote_digest mark_stale remove_remote_records any_of start_sync_request
  compare_digest now beat t =
      let records = keep_if (is_of beat.device_id) t.records in
      if remote_digest (λ r. true) 0 records == beat.state_digest
      then (mark_stale beat.device_id false t, false)
      else if any_of (λ r. r.is_stale) records
          && remote_digest (λ r. not r.is_stale) 0 records == beat.state_digest
      then (remove_remote_records (λ r. is_of beat.device_id r && r.is_stale) t, false)
      else start_sync_request now beat.device_id (mark_stale beat.device_id true t)

  unfoldable pub on_heartbeat : Device → ℕ → Heartbeat → StateService → StateService × Bool
  unfolding is_overflowed_source compare_digest
  on_heartbeat d now beat s =
      if not d.is_online || is_overflowed_source beat.device_id s.remote.sources
      then (s, false)
      else let (t, request) = compare_digest now beat s.remote in (record s { remote = t }, request)
