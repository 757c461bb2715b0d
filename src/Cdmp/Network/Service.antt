-- ===== src/Cdmp/Network/Service.antt =====
-- cdmp_network_service.cpp and models/cdmp_device.h: the unit with its status, the service's state, and the
-- changes of the table with the events that they report. Work that is queued for the session is a list.
use rt_core.Prelude.{
  ℕ, ◌-◌, Bool, true, false, not, ◌&&◌, ◌||◌, Option, none, some, List, [], ◌∷◌, ◌++◌, length,
  replicate, get_elem?, ltb, ◌==◌, ◌!=◌, if◌then◌else◌, bit_and,
}
use rt_core.Prelude.Bits.{shr}
use rt_core.Cdmp.Status.{
  DeviceStatus, offline, init, claiming, online, version_mismatch, error, same_status,
  is_valid_transition,
}
use rt_core.Cdmp.Messages.Network.{
  DiscoveryResponse, Heartbeat, IdClaimRequest, discovery_request_to_frame,
  discovery_response_to_frame,
}
use rt_core.Prelude.Tables.{keep_if, modify_at}
use rt_core.Cdmp.Network.Devices.{
  NetworkDevice, PendingIdClaim, free_claim, id_unassigned, id_broadcast, heartbeat_timeout_ms,
  has_device, find_device, find_device_id_by_uid, erase_device, change_device, lowest_id,
  staggered_offset, device_ids, update_devices, find_pending_id_claim, store_pending_id_claim,
}

-- CdmpDevice, of the unit itself.
pub record OwnDevice : Type 0 where
  pub device_id : ℕ
  pub uid : ℕ
  pub protocol_version : ℕ
  pub features : ℕ
  pub status : DeviceStatus
  pub is_lowest_id_on_network : Bool
  pub staggered_message_delay : ℕ

pub record DeviceInfo : Type 0 where
  pub device_id : ℕ
  pub uid : ℕ
  pub features : ℕ
  pub status : DeviceStatus

-- CdmpDeviceEvent with its device, and the heartbeats passed on; every registered handler gets them.
pub data Notice : Type 0 where
  joined restarted left : DeviceInfo → Notice
  heartbeat : Heartbeat → Notice

-- What RunInSession() queues.
pub data Work : Type 0 where
  start_initialization start_id_claim send_discovery_response enter_error enter_version_mismatch :
      Work

-- The delays of scheduled tasks are in milliseconds.
pub record NetworkService : Type 0 where
  pub unit : OwnDevice
  pub has_bus : Bool
  pub is_running : Bool
  pub devices : List NetworkDevice
  pub pending_id_claims : List PendingIdClaim
  pub discovery_attempt : ℕ
  pub discovery_backoff_resets : ℕ
  pub discovery_response_received : Bool
  pub lower_uid_discovering : Bool
  pub claiming_device_id : ℕ
  pub id_claim_attempt : ℕ
  pub id_claim_result : Option ℕ
  pub rediscovery_requested_at_ms : Option ℕ
  pub is_validation_task_running : Bool
  pub discovery_task_delay : Option ℕ
  pub id_claim_task_delay : Option ℕ
  pub work : List Work
  pub sent : List (List ℕ)
  pub notices : List Notice

abbrev pub pending_id_claims_max : ℕ
pending_id_claims_max = 8

abbrev pub heartbeat_interval_ms : ℕ
heartbeat_interval_ms = 3000

unfoldable pub is_protocol_compatible : ℕ → ℕ → Bool
is_protocol_compatible own other = bit_and (shr own 4) 0x0F == bit_and (shr other 4) 0x0F

unfoldable pub is_online : NetworkService → Bool
unfolding same_status
is_online s = same_status s.unit.status online

unfoldable pub to_device_info : NetworkDevice → DeviceInfo
to_device_info d = record {
  device_id = d.device_id;
  uid = d.uid;
  features = d.features;
  status = d.status;
}

unfoldable pub notify : Notice → NetworkService → NetworkService
notify n s = record s { notices = s.notices ++ n ∷ [] }

unfoldable pub run_in_session : Work → NetworkService → NetworkService
run_in_session w s = record s { work = s.work ++ w ∷ [] }

unfoldable pub send_frame : List ℕ → NetworkService → NetworkService
send_frame bytes s = record s { sent = s.sent ++ bytes ∷ [] }

unfoldable pub clear_all_devices : NetworkService → NetworkService
clear_all_devices s = record s {
  devices = [];
  pending_id_claims = replicate pending_id_claims_max free_claim;
}

-- Stop() of a running service, and DoStop(): queued work of the session is dropped.
unfoldable pub stop : NetworkService → NetworkService
unfolding clear_all_devices
stop s =
    if not s.is_running
    then s
    else clear_all_devices (record s {
      is_running = false;
      work = [];
      discovery_task_delay = none;
      id_claim_task_delay = none;
      is_validation_task_running = false;
    })

unfoldable pub start_validation_task : NetworkService → NetworkService
unfolding is_online
start_validation_task s = if is_online s then record s { is_validation_task_running = true } else s

unfoldable pub do_start : NetworkService → NetworkService
unfolding clear_all_devices start_validation_task
do_start s = start_validation_task (clear_all_devices (record s { is_running = true }))

unfoldable pub on_device_status_changed : DeviceStatus → NetworkService → NetworkService
unfolding run_in_session start_validation_task stop
on_device_status_changed init s = run_in_session start_initialization s
on_device_status_changed claiming s = run_in_session start_id_claim s
on_device_status_changed online s = start_validation_task s
on_device_status_changed version_mismatch s = stop s
on_device_status_changed error s = stop s
on_device_status_changed offline s = s

-- SetStatus() without force, of the unit's status machine, with this service's handler.
unfoldable pub change_status : DeviceStatus → NetworkService → NetworkService
unfolding same_status is_valid_transition on_device_status_changed
change_status new s =
    if same_status new s.unit.status || not (is_valid_transition s.unit.status new)
    then s
    else on_device_status_changed new (record s { unit = record s.unit { status = new } })

-- UpdateNetworkDevices(), on the unit and on the table.
unfoldable pub update_network_devices : NetworkService → NetworkService
unfolding lowest_id staggered_offset device_ids update_devices
update_network_devices s = record s {
  unit = record s.unit {
    is_lowest_id_on_network = s.unit.device_id == lowest_id s.unit.device_id s.devices;
    staggered_message_delay = staggered_offset (device_ids s.devices) s.unit.device_id;
  };
  devices = update_devices s.unit.device_id s.devices;
}

unfoldable pub is_peer_device_id : ℕ → NetworkService → Bool
unfolding is_online
is_peer_device_id id s =
    id != id_unassigned && (id != id_broadcast && not (is_online s && id == s.unit.device_id))

unfoldable pub send_discovery_request : NetworkService → NetworkService
unfolding discovery_request_to_frame send_frame
send_discovery_request s =
    if s.has_bus then send_frame (discovery_request_to_frame (record { uid = s.unit.uid })) s else s

unfoldable pub send_discovery_response_now : NetworkService → NetworkService
unfolding discovery_response_to_frame send_frame is_online
send_discovery_response_now s =
    if not (is_online s) || not s.has_bus
    then s
    else send_frame
        (discovery_response_to_frame
          (record { device_id = s.unit.device_id; uid = s.unit.uid; features = s.unit.features }))
        s

unfoldable pub was_requested : ℕ → NetworkService → Bool
was_requested now s = elim s.rediscovery_requested_at_ms [
  | none ↦ false
  | some at_ms ↦ ltb (now - at_ms) heartbeat_interval_ms
]

unfoldable pub request_rediscovery : ℕ → NetworkService → NetworkService
unfolding is_online was_requested send_discovery_request
request_rediscovery now s =
    if not (is_online s) || (not s.is_running || was_requested now s)
    then s
    else send_discovery_request (record s { rediscovery_requested_at_ms = some now })

-- Whether a device was added; `none` is the std::invalid_argument of a device without a UID.
unfoldable pub add_or_update_device :
    ℕ → ℕ → ℕ → ℕ → NetworkService → Option (Bool × NetworkService)
unfolding has_device change_device update_network_devices
add_or_update_device now id uid features s =
    if has_device id s.devices
    then some (
      false,
      record s {
        devices =
            change_device id
              (λ (d : NetworkDevice). record d {
                last_heartbeat = now;
                status = online;
                features = features;
              })
              s.devices;
      },
    )
    else if uid == 0
    then none
    else some (
      true,
      update_network_devices (record s {
        devices =
            record {
              device_id = id;
              uid = uid;
              features = features;
              status = online;
              last_heartbeat = now;
              is_lowest_id_on_network = false;
              staggered_message_delay = 0;
            }
            ∷ s.devices;
      }),
    )

unfoldable pub remove_device : ℕ → NetworkService → NetworkService
unfolding find_device erase_device update_network_devices notify to_device_info
remove_device id s = elim (find_device id s.devices) [
  | none ↦ s
  | some d ↦
      notify (left (to_device_info d))
        (update_network_devices (record s { devices = erase_device id s.devices }))
]

-- JOINED, for a device that was added.
unfoldable pub notify_joined : ℕ → Bool → NetworkService → NetworkService
unfolding find_device notify to_device_info
notify_joined id added s = if not added then s else elim (find_device id s.devices) [
  | none ↦ s
  | some d ↦ notify (joined (to_device_info d)) s
]

-- RESTARTED is reported once for the claims that a unit repeats.
unfoldable pub is_restart : ℕ → IdClaimRequest → NetworkService → Bool
unfolding find_pending_id_claim
is_restart now claim s =
    let (live, found) = find_pending_id_claim now claim.claiming_device_id s.pending_id_claims in
    elim found [
      | none ↦ true
      | some i ↦ elim (get_elem? live i) [ none ↦ true | some p ↦ p.uid != claim.uid ]
    ]

unfoldable pub record_id_claim : ℕ → IdClaimRequest → NetworkService → NetworkService
unfolding is_peer_device_id is_protocol_compatible find_device is_restart change_device
    find_device_id_by_uid store_pending_id_claim remove_device notify to_device_info
record_id_claim now claim s =
    let id = claim.claiming_device_id in
    let stored = store_pending_id_claim now claim s.pending_id_claims in
    if not (is_peer_device_id id s)
      || (claim.uid == s.unit.uid
          || not (is_protocol_compatible s.unit.protocol_version claim.protocol_version))
    then s
    else elim (find_device id s.devices) [
      | some d ↦
          if d.uid != claim.uid
          then s
          else let t = record s {
            devices =
                change_device id (λ (d : NetworkDevice). record d { last_heartbeat = now })
                  s.devices;
            pending_id_claims = stored;
          } in
            if is_restart now claim s then notify (restarted (to_device_info d)) t else t
      | none ↦
          let t = record s { pending_id_claims = stored } in
          elim (find_device_id_by_uid claim.uid s.devices) [
            | none ↦ t
            | some previous ↦ remove_device previous t
          ]
    ]

unfoldable pub clear_claim : ℕ → ℕ → NetworkService → NetworkService
unfolding find_pending_id_claim modify_at
clear_claim now id s =
    let (live, found) = find_pending_id_claim now id s.pending_id_claims in
    record s {
      pending_id_claims = elim found [ none ↦ live | some i ↦ modify_at i (λ c. free_claim) live ];
    }

-- The device that restarted under another identifier goes first.
unfoldable pub remove_renamed : ℕ → ℕ → NetworkService → NetworkService
unfolding find_device_id_by_uid remove_device
remove_renamed id uid s = elim (find_device_id_by_uid uid s.devices) [
  | none ↦ s
  | some previous ↦ if previous != id then remove_device previous s else s
]

unfoldable pub update_device_from_discovery :
    ℕ → DiscoveryResponse → NetworkService → NetworkService
unfolding is_peer_device_id remove_renamed add_or_update_device clear_claim notify_joined
update_device_from_discovery now m s =
    if not (is_peer_device_id m.device_id s)
    then s
    else let t = remove_renamed m.device_id m.uid s in
      elim (add_or_update_device now m.device_id m.uid m.features t) [
        | none ↦ t
        | some (added, u) ↦ notify_joined m.device_id added (clear_claim now m.device_id u)
      ]

-- A heartbeat with the claim of its sender, or of a known device, or of an unknown one.
unfoldable pub update_from_sender :
    ℕ → Heartbeat → Option PendingIdClaim → NetworkService → NetworkService
unfolding add_or_update_device clear_claim notify_joined find_device notify request_rediscovery
update_from_sender now h (some c) s =
    elim (add_or_update_device now h.device_id c.uid h.features s) [
      | none ↦ s
      | some (added, t) ↦
          notify (heartbeat h) (notify_joined h.device_id added (clear_claim now h.device_id t))
    ]
update_from_sender now h none s = elim (find_device h.device_id s.devices) [
  | none ↦ request_rediscovery now s
  | some d ↦ elim (add_or_update_device now h.device_id d.uid h.features s) [
    | none ↦ s
    | some (added, t) ↦ notify (heartbeat h) t
  ]
]

unfoldable pub update_device_from_heartbeat : ℕ → Heartbeat → NetworkService → NetworkService
unfolding is_peer_device_id find_pending_id_claim update_from_sender
update_device_from_heartbeat now h s =
    let (live, found) = find_pending_id_claim now h.device_id s.pending_id_claims in
    let claim : Option PendingIdClaim = elim found [ none ↦ none | some i ↦ get_elem? live i ] in
    if not (is_peer_device_id h.device_id s)
    then s
    else update_from_sender now h claim (record s { pending_id_claims = live })

unfoldable pub remove_devices : List ℕ → NetworkService → NetworkService
unfolding remove_device
remove_devices [] s = s
remove_devices (id ∷ ids) s = remove_devices ids (remove_device id s)

unfoldable pub remove_offline_devices : ℕ → NetworkService → NetworkService
unfolding remove_devices keep_if device_ids
remove_offline_devices now s =
    remove_devices
      (device_ids (
        keep_if (λ (d : NetworkDevice). ltb heartbeat_timeout_ms (now - d.last_heartbeat))
          s.devices))
      s

unfoldable pub process_periodic_tasks : ℕ → NetworkService → NetworkService
unfolding remove_offline_devices update_network_devices
process_periodic_tasks now s = update_network_devices (remove_offline_devices now s)

unfoldable pub is_device_online : ℕ → NetworkService → Bool
unfolding find_device same_status
is_device_online id s = elim (find_device id s.devices) [
  | none ↦ false
  | some d ↦ same_status d.status online
]

unfoldable pub get_online_device_ids : NetworkService → List ℕ
unfolding device_ids keep_if same_status
get_online_device_ids s =
    device_ids (keep_if (λ (d : NetworkDevice). same_status d.status online) s.devices)

unfoldable pub get_device_count : NetworkService → ℕ
get_device_count s = length s.devices
