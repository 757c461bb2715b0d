-- ===== src/Cdmp/Network/Frames.antt =====
-- cdmp_network_service.cpp: the management frames that come in. `none` is a read past the end of a frame;
-- a frame that a decoder refuses changes nothing.
pub mod Progress
use rt_core.Prelude.{
  ℕ, true, not, ◌&&◌, ◌||◌, Option, none, some, List, [], ◌∷◌, ltb, ◌==◌, ◌!=◌, if◌then◌else◌,
}
use rt_core.Cdmp.Status.{init, claiming, error, same_status}
use rt_core.Cdmp.Messages.Codec.{Decoded, message, invalid, out_of_bounds}
use rt_core.Cdmp.Messages.Network.{
  DiscoveryRequest, DiscoveryResponse, IdClaimRequest, IdClaimResponse, id_claim, id_claim_response,
  discovery_request, discovery_response, discovery_request_from_frame,
  discovery_response_from_frame, id_claim_request_from_frame, id_claim_response_from_frame,
  id_claim_response_to_frame,
}
use rt_core.Cdmp.Network.Service.{
  NetworkService, send_discovery_response, is_online, is_protocol_compatible, run_in_session,
  send_frame, change_status, record_id_claim, update_device_from_discovery,
}
use rt_core.Cdmp.Network.Claim.{accept, reject, version_incompatible}

unfoldable pub on_discovery_request : DiscoveryRequest → NetworkService → NetworkService
unfolding same_status run_in_session
on_discovery_request m s =
    let lower = same_status s.unit.status init && ltb m.uid s.unit.uid in
    run_in_session send_discovery_response
      (record s { lower_uid_discovering = if lower then true else s.lower_uid_discovering })

unfoldable pub on_discovery_response : ℕ → DiscoveryResponse → NetworkService → NetworkService
unfolding change_status update_device_from_discovery
on_discovery_response now m s =
    let t = record s { discovery_response_received = true } in
    if m.uid == s.unit.uid then change_status error t else update_device_from_discovery now m t

-- The answer of an online unit to a claim.
unfoldable pub claim_result : IdClaimRequest → NetworkService → Option ℕ
unfolding is_protocol_compatible
claim_result m s =
    if s.unit.is_lowest_id_on_network
      && not (is_protocol_compatible s.unit.protocol_version m.protocol_version)
    then some version_incompatible
    else if s.unit.device_id == m.claiming_device_id
    then some reject
    else if s.unit.is_lowest_id_on_network
    then some accept
    else none

unfoldable pub on_id_claim_request : ℕ → IdClaimRequest → NetworkService → NetworkService
unfolding record_id_claim is_online claim_result send_frame id_claim_response_to_frame
on_id_claim_request now m s =
    let t = record_id_claim now m s in
    if not t.has_bus || not (is_online t) then t else elim (claim_result m t) [
      | none ↦ t
      | some result ↦
          send_frame
            (id_claim_response_to_frame (record {
              responding_device_id = t.unit.device_id;
              claiming_device_id = m.claiming_device_id;
              claiming_device_uid = m.uid;
              result = result;
            }))
            t
    ]

-- The owner's objection to a claim outweighs the acceptance of the lowest unit.
unfoldable pub on_id_claim_response : IdClaimResponse → NetworkService → NetworkService
unfolding same_status
on_id_claim_response m s =
    if not (same_status s.unit.status claiming) || m.claiming_device_id != s.claiming_device_id
    then s
    else record s {
      id_claim_result = elim s.id_claim_result [
        | none ↦ some m.result
        | some r ↦ if m.result != accept then some m.result else some r
      ];
    }

unfoldable pub on_decoded :
    {M : Type 0}
    → (M → NetworkService → NetworkService)
    → Decoded M
    → NetworkService
    → Option NetworkService
on_decoded f (message m) s = some (f m s)
on_decoded f invalid s = some s
on_decoded f out_of_bounds s = none

unfoldable pub process_frame : ℕ → List ℕ → NetworkService → Option NetworkService
unfolding on_decoded on_discovery_request on_discovery_response on_id_claim_request
    on_id_claim_response discovery_request_from_frame discovery_response_from_frame
    id_claim_request_from_frame id_claim_response_from_frame
process_frame now [] s = none
process_frame now (kind ∷ rest) s =
    let frame = kind ∷ rest in
    if kind == discovery_request
    then on_decoded on_discovery_request (discovery_request_from_frame frame) s
    else if kind == discovery_response
    then on_decoded (on_discovery_response now) (discovery_response_from_frame frame) s
    else if kind == id_claim
    then on_decoded (on_id_claim_request now) (id_claim_request_from_frame frame) s
    else if kind == id_claim_response
    then on_decoded on_id_claim_response (id_claim_response_from_frame frame) s
    else some s
