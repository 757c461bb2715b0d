-- ===== src/Cdmp/Network/Claim.antt =====
-- cdmp_network_service.cpp: the steps of the discovery and of the ID claim. Each step ends its task or
-- runs again after a delay, with what came in meanwhile already in the state.
pub mod Ends
pub mod Discovery
use rt_core.Prelude.{
  ℕ, suc, ◌+◌, ◌≤◌, Bool, true, false, not, ◌&&◌, ◌||◌, Option, none, some, List, [], ◌∷◌, ◌++◌,
  get_elem?, ltb, ◌==◌, ◌!=◌, if◌then◌else◌,
}
use rt_core.Cdmp.Status.{DeviceStatus, init, claiming, online, error, version_mismatch, same_status}
use rt_core.Cdmp.Messages.Network.{
  DiscoveryRequest, IdClaimRequest, IdClaimResponse, id_claim_request_to_frame,
  id_claim_response_to_frame,
}
use rt_core.Cdmp.Network.Devices.{id_unassigned, get_lowest_available_id}
use rt_core.Cdmp.Network.Service.{
  NetworkService, Work, start_initialization, start_id_claim, send_discovery_response, enter_error,
  enter_version_mismatch, is_online, is_protocol_compatible, run_in_session, send_frame,
  change_status, update_network_devices, send_discovery_request, send_discovery_response_now,
  record_id_claim,
}

-- WorkQueueTaskResult.
pub data Next : Type 0 where
  finished : Next
  again_ms : ℕ → Next

abbrev pub discovery_max_backoff_resets : ℕ
discovery_max_backoff_resets = 10

abbrev pub retry_backoffs_ms : List ℕ
retry_backoffs_ms = 100 ∷ 200 ∷ 500 ∷ []

abbrev pub id_claim_max_attempts : ℕ
id_claim_max_attempts = 10

abbrev pub id_claim_response_timeout_ms : ℕ
id_claim_response_timeout_ms = 50

-- CdmpIdClaimResult.
abbrev pub accept : ℕ
accept = 0

abbrev pub reject : ℕ
reject = 1

abbrev pub version_incompatible : ℕ
version_incompatible = 2

unfoldable pub begin_initialization : NetworkService → NetworkService
begin_initialization s = record s {
  discovery_attempt = 0;
  discovery_backoff_resets = 0;
  discovery_response_received = false;
  lower_uid_discovering = false;
  discovery_task_delay = some 0;
}

unfoldable pub reset_backoff : NetworkService → NetworkService
reset_backoff s =
    if ltb 0 s.discovery_attempt
      && (s.lower_uid_discovering && ltb s.discovery_backoff_resets discovery_max_backoff_resets)
    then record s {
      discovery_backoff_resets = s.discovery_backoff_resets + 1;
      discovery_attempt = 0;
    }
    else s

-- After the last backoff the identifier is claimed.
unfoldable pub send_attempt : NetworkService → Next × NetworkService
unfolding change_status send_discovery_request
send_attempt s = elim (get_elem? retry_backoffs_ms s.discovery_attempt) [
  | none ↦ (finished, change_status claiming s)
  | some backoff ↦ (
    again_ms backoff,
    send_discovery_request
        (record s { discovery_attempt = s.discovery_attempt + 1; lower_uid_discovering = false }),
  )
]

unfoldable pub run_discovery_attempt : NetworkService → Next × NetworkService
unfolding same_status change_status reset_backoff send_attempt
run_discovery_attempt s =
    if not (same_status s.unit.status init)
    then (finished, s)
    else if ltb 0 s.discovery_attempt && s.discovery_response_received
    then (finished, change_status claiming s)
    else send_attempt (reset_backoff s)

unfoldable pub begin_id_claim : NetworkService → NetworkService
begin_id_claim s = record s {
  claiming_device_id = id_unassigned;
  id_claim_attempt = 0;
  id_claim_result = none;
  id_claim_task_delay = some 0;
}

unfoldable pub complete_id_claim : NetworkService → NetworkService
unfolding update_network_devices change_status
complete_id_claim s = change_status online (
    update_network_devices (record s {
      unit = record s.unit { device_id = s.claiming_device_id };
      claiming_device_id = id_unassigned;
    }))

unfoldable pub send_id_claim : NetworkService → NetworkService
unfolding send_frame id_claim_request_to_frame
send_id_claim s =
    send_frame
      (id_claim_request_to_frame (record {
        claiming_device_id = s.claiming_device_id;
        uid = s.unit.uid;
        protocol_version = s.unit.protocol_version;
      }))
      s

unfoldable pub claim_again : NetworkService → Next × NetworkService
unfolding send_id_claim
claim_again s = (
  again_ms id_claim_response_timeout_ms,
  let t = send_id_claim s in record t { id_claim_attempt = t.id_claim_attempt + 1 },
)

unfoldable pub has_result : ℕ → NetworkService → Bool
has_result result s = elim s.id_claim_result [ none ↦ false | some r ↦ r == result ]

-- The next free identifier above the one that was rejected.
unfoldable pub claim_next : ℕ → NetworkService → Next × NetworkService
unfolding get_lowest_available_id run_in_session claim_again
claim_next now s =
    let (available, live) =
      get_lowest_available_id now s.claiming_device_id s.devices s.pending_id_claims in
    elim available [
      | none ↦ (
        finished,
        run_in_session enter_error
            (record s { pending_id_claims = live; claiming_device_id = id_unassigned }),
      )
      | some id ↦ claim_again (record s {
        pending_id_claims = live;
        claiming_device_id = id;
        id_claim_attempt = 0;
        id_claim_result = none;
      })
    ]

unfoldable pub run_id_claim_attempt : ℕ → NetworkService → Next × NetworkService
unfolding same_status run_in_session has_result complete_id_claim claim_next claim_again
run_id_claim_attempt now s =
    if not (same_status s.unit.status claiming) || not s.has_bus
    then (finished, record s { claiming_device_id = id_unassigned })
    else if has_result version_incompatible s
    then (
      finished,
      run_in_session enter_version_mismatch (record s { claiming_device_id = id_unassigned }),
    )
    else if has_result accept s
    then (finished, complete_id_claim s)
    else if s.claiming_device_id == id_unassigned || has_result reject s
    then claim_next now s
    else if s.id_claim_attempt == id_claim_max_attempts
    then (finished, complete_id_claim s)
    else claim_again s

-- A piece of queued work.
unfoldable pub run_work : Work → NetworkService → NetworkService
unfolding begin_initialization begin_id_claim send_discovery_response_now change_status
run_work start_initialization s = begin_initialization s
run_work start_id_claim s = begin_id_claim s
run_work send_discovery_response s = send_discovery_response_now s
run_work enter_error s = change_status error s
run_work enter_version_mismatch s = change_status version_mismatch s
