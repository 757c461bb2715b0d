-- ===== src/Cdmp/Heartbeat.antt =====
-- subsys/cdmp/services/cdmp_heartbeat_service.h and .cpp: the heartbeats that a unit sends while it is
-- online, and those that it hears. A frame is sent when it is given to the bus.
pub mod Heard
use rt_core.Prelude.{
  ℕ, ◌+◌, Bool, true, false, not, ◌&&◌, ◌||◌, Option, none, some, List, [], ◌∷◌, ◌++◌,
  if◌then◌else◌,
}
use rt_core.Prelude.Bits.{u8}
use rt_core.Cdmp.Status.{
  DeviceStatus, offline, init, claiming, online, version_mismatch, error, same_status,
}
use rt_core.Cdmp.Messages.Codec.{Decoded, message, invalid, out_of_bounds}
use rt_core.Cdmp.Messages.Network.{Heartbeat, heartbeat_to_frame, heartbeat_from_frame}
use rt_core.Cdmp.Network.Service.{
  OwnDevice, NetworkService, heartbeat_interval_ms, update_device_from_heartbeat,
}

-- `task_delay` is the delay of the scheduled heartbeat_task_, in milliseconds; `has_bus` that the bus is
-- there and valid; `is_running` the service's state; `handler_id` is none for -1.
pub record HeartbeatService : Type 0 where
  pub has_bus : Bool
  pub is_running : Bool
  pub has_task : Bool
  pub is_task_running : Bool
  pub task_delay : Option ℕ
  pub handler_id : Option ℕ
  pub sequence_number : ℕ
  pub enabled : Bool
  pub sent : List (List ℕ)

unfoldable pub start_heartbeat_task : DeviceStatus → HeartbeatService → HeartbeatService
unfolding same_status
start_heartbeat_task status s =
    if s.enabled && not s.is_task_running && s.has_task && same_status status online
    then record s { task_delay = some 0; is_task_running = true }
    else s

-- RegisterCanHandlers(); `answer` is the bus's identifier for the new handler. `none` is the exception.
unfoldable pub register_can_handlers : Option ℕ → HeartbeatService → Option HeartbeatService
register_can_handlers answer s =
    if not s.has_bus
    then some s
    else elim answer [ none ↦ none | some id ↦ some (record s { handler_id = some id }) ]

unfoldable pub unregister_can_handlers : HeartbeatService → HeartbeatService
unregister_can_handlers s = if not s.has_bus then s else record s { handler_id = none }

-- Start(), with DoStart(). `false` is the exception: no handler is registered, and the state stays.
unfoldable pub start : DeviceStatus → Option ℕ → HeartbeatService → Bool × HeartbeatService
unfolding register_can_handlers start_heartbeat_task
start status answer s = if s.is_running then (true, s) else elim (register_can_handlers answer s) [
  | none ↦ (false, record s { handler_id = none })
  | some t ↦ (true, record (start_heartbeat_task status t) { is_running = true })
]

-- Stop(), with DoStop().
unfoldable pub stop : HeartbeatService → HeartbeatService
unfolding unregister_can_handlers
stop s =
    if not s.is_running
    then s
    else unregister_can_handlers
        (record s { is_running = false; is_task_running = false; task_delay = none })

unfoldable pub on_device_status_changed : DeviceStatus → HeartbeatService → HeartbeatService
unfolding start_heartbeat_task stop
on_device_status_changed online s = start_heartbeat_task online s
on_device_status_changed offline s = stop s
on_device_status_changed version_mismatch s = stop s
on_device_status_changed error s = stop s
on_device_status_changed init s = s
on_device_status_changed claiming s = s

unfoldable pub set_heartbeat_enabled : Bool → HeartbeatService → HeartbeatService
set_heartbeat_enabled on s = record s { enabled = on }

-- The unit's health and the digest of its state are CdmpDevice's, and not kept in `OwnDevice`.
unfoldable pub make_heartbeat : OwnDevice → ℕ → ℕ → ℕ → Heartbeat
make_heartbeat unit health digest sequence_number = record {
  device_id = unit.device_id;
  health_status = health;
  sequence_number = sequence_number;
  features = unit.features;
  state_digest = digest;
}

unfoldable pub send_heartbeat : OwnDevice → ℕ → ℕ → HeartbeatService → HeartbeatService
unfolding make_heartbeat heartbeat_to_frame
send_heartbeat unit health digest s = if not s.has_bus || not s.enabled then s else record s {
  sent = s.sent ++ heartbeat_to_frame (make_heartbeat unit health digest s.sequence_number) ∷ [];
  sequence_number = u8 (s.sequence_number + 1);
}

-- One run of the scheduled task, which reschedules itself unless heartbeats are disabled.
unfoldable pub process_periodic_heartbeat : OwnDevice → ℕ → ℕ → HeartbeatService → HeartbeatService
unfolding send_heartbeat
process_periodic_heartbeat unit health digest s =
    if not s.enabled
    then record s { task_delay = none }
    else record (send_heartbeat unit health digest s) {
      task_delay = some (heartbeat_interval_ms + unit.staggered_message_delay);
    }

-- ProcessFrame() of the service; `none` is a read past the end.
unfoldable pub process_heartbeat_frame : ℕ → List ℕ → NetworkService → Option NetworkService
unfolding heartbeat_from_frame update_device_from_heartbeat
process_heartbeat_frame now frame s = elim (heartbeat_from_frame frame) [
  | message h ↦ some (update_device_from_heartbeat now h s)
  | invalid ↦ some s
  | out_of_bounds ↦ none
]
