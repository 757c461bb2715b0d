-- ===== src/Cdmp/State/Service.antt =====
-- cdmp_state_service.h and .cpp: the service with its events, its
-- transmissions and its replays. It has been initialised, so that its tasks exist.
use rt_core.Prelude.{
  ℕ, ◌+◌, ◌-◌, Bool, true, false, not, ◌||◌, Option, none, some, List, [], ◌∷◌, ◌++◌, length, map,
  take, ltb, leb, ◌==◌, ◌!=◌, if◌then◌else◌,
}
use rt_core.Prelude.Bits.{u8, u32}
use rt_core.Cdmp.Status.{DeviceStatus, online, same_status}
use rt_core.Cdmp.Messages.Command.{CommandRequest}
use rt_core.Cdmp.Messages.State.{StateChange, state_change_response_from_frame, max_frame_size}
use rt_core.Prelude.Tables.{keep_if}
use rt_core.Cdmp.State.Local.{
  LocalRecord, free_acknowledged_withdrawals, remove_from_acknowledgement_sets, transmit_records,
  next_retransmission, replay_messages, ack_peers_max,
}
use rt_core.Cdmp.State.Remote.{
  SourceState, RemoteTable, free_slot, remove_remote_records, mark_stale, free_source, is_of,
}

-- What the service reads of the unit: its identifier, and whether it is online.
pub record Device : Type 0 where
  pub device_id : ℕ
  pub is_online : Bool

-- One frame of the receive queue.
pub record ReceivedFrame : Type 0 where
  pub is_response : Bool
  pub bytes : List ℕ

-- `state_digest` is what the device was told last. `transmit_delay` is the delay of the last
-- Reschedule() of transmit_task_ since it ran, `replay_delay` that of replay_task_, in milliseconds, and
-- `is_receive_due` says that receive_task_ is scheduled.
pub record StateService : Type 0 where
  pub is_started : Bool
  pub version_counter : ℕ
  pub is_announce_all_pending : Bool
  pub local_records : List LocalRecord
  pub remote : RemoteTable
  pub state_digest : ℕ
  pub rx_queue : List ReceivedFrame
  pub rx_dropped : ℕ
  pub is_receive_due : Bool
  pub transmit_delay : Option ℕ
  pub replay_delay : Option ℕ

abbrev pub rx_queue_size : ℕ
rx_queue_size = 16

unfoldable pub queue_frame : List ℕ → Bool → StateService → StateService
queue_frame frame_data is_response s =
    if ltb max_frame_size (length frame_data) || leb rx_queue_size (length s.rx_queue)
    then record s { rx_dropped = u32 (s.rx_dropped + 1) }
    else record s {
      rx_queue = s.rx_queue ++ record { is_response = is_response; bytes = frame_data } ∷ [];
      is_receive_due = true;
    }

unfoldable pub drop_source : ℕ → StateService → StateService
unfolding remove_remote_records is_of remove_from_acknowledgement_sets free_source
drop_source source s =
    let t = remove_remote_records (is_of source) s.remote in
    record s {
      remote = record t { sources = free_source source t.sources };
      local_records = remove_from_acknowledgement_sets source none s.local_records;
    }

unfoldable pub forget_network : StateService → StateService
unfolding remove_remote_records
forget_network s =
    let t = remove_remote_records (λ r. true) s.remote in
    record s {
      remote = record t { sources = map (λ (x : SourceState). free_slot) t.sources };
      is_announce_all_pending = false;
      local_records = map (λ (r : LocalRecord). record r { unacknowledged = [] }) s.local_records;
    }

unfoldable pub on_device_status_changed : DeviceStatus → DeviceStatus → StateService → StateService
unfolding forget_network
on_device_status_changed old_status new_status s =
    if same_status new_status online
    then record s {
      is_announce_all_pending = true;
      transmit_delay = if s.is_started then some 0 else s.transmit_delay;
    }
    else if same_status old_status online
    then forget_network s
    else s

pub data DeviceEvent : Type 0 where
  joined restarted left : DeviceEvent

unfoldable pub on_device_event : DeviceEvent → ℕ → StateService → StateService
unfolding mark_stale drop_source
on_device_event restarted device_id s = record s { remote = mark_stale device_id true s.remote }
on_device_event left device_id s = drop_source device_id s
on_device_event joined device_id s = s

unfoldable pub do_start : Device → StateService → StateService
do_start d s =
    if d.is_online
    then record s { is_started = true; is_announce_all_pending = true; transmit_delay = some 0 }
    else record s { is_started = true }

unfoldable pub do_stop : StateService → StateService
unfolding forget_network
do_stop s = forget_network (record s {
  is_started = false;
  rx_queue = [];
  is_receive_due = false;
  transmit_delay = none;
  replay_delay = none;
})

-- The records that go out, and whether every unit is asked to replay its own. `peers` are the first
-- devices of the network with their statuses.
unfoldable pub transmit :
    Device → ℕ → List (ℕ × DeviceStatus) → StateService → StateService × List StateChange × Bool
unfolding transmit_records free_acknowledged_withdrawals next_retransmission keep_if
transmit d now peers s =
    if not s.is_started || not d.is_online
    then (record s { transmit_delay = none }, [], false)
    else let online_peers =
        map (λ p. p.0) (keep_if (λ p. same_status p.1 online) (take ack_peers_max peers)) in
      let announced : List LocalRecord =
        if s.is_announce_all_pending
        then map (λ (r : LocalRecord). record r { is_announce_pending = true }) s.local_records
        else s.local_records in
      let (records, messages) = transmit_records d.device_id now online_peers announced in
      let kept = free_acknowledged_withdrawals records in
      (
        record s {
          is_announce_all_pending = false;
          local_records = kept;
          transmit_delay = elim (next_retransmission kept) [
            | none ↦ none
            | some t ↦ some (t - now)
          ];
        },
        messages,
        s.is_announce_all_pending,
      )

unfoldable pub replay_records : Device → StateService → Option (List StateChange)
unfolding replay_messages
replay_records d s =
    if not s.is_started || not d.is_online
    then none
    else some (replay_messages d.device_id s.local_records)

-- The replay task, which takes its schedule.
unfoldable pub process_replay : Device → StateService → StateService × Option (List StateChange)
unfolding replay_records
process_replay d s = (record s { replay_delay = none }, replay_records d s)

-- A broadcast request schedules a replay after `stagger_ms`, unless one is scheduled, and gets no
-- answer; another is replayed at once and answered with the number of records.
unfoldable pub process_sync_request :
    Device → ℕ → CommandRequest → StateService → StateService × List StateChange × Option ℕ
unfolding replay_records
process_sync_request d stagger_ms request s =
    if request.target_device_id == 0xFF
    then (
      if s.is_started
          then record s {
            replay_delay = elim s.replay_delay [ none ↦ some stagger_ms | some t ↦ some t ];
          }
          else s,
      [],
      none,
    )
    else elim (replay_records d s) [
      | none ↦ (s, [], none)
      | some messages ↦ (s, messages, some (u8 (length messages)))
    ]

unfoldable pub process_response_frame : Device → List ℕ → StateService → StateService
unfolding state_change_response_from_frame remove_from_acknowledgement_sets
process_response_frame d frame_data s =
    if not d.is_online then s else elim (state_change_response_from_frame frame_data) [
      | none ↦ record s { rx_dropped = u32 (s.rx_dropped + 1) }
      | some r ↦
          if r.responding_device_id == d.device_id || r.source_device_id != d.device_id
          then s
          else record s {
            local_records =
                remove_from_acknowledgement_sets r.responding_device_id (some r.version)
                  s.local_records;
          }
    ]
