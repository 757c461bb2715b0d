-- ===== src/Examples/CdmpRuns.antt =====
-- The CAN identifiers' and the CDMP's theorems at concrete inputs.
use rt_core.Prelude.{
  List, ℕ, ◌+◌, ◌≤◌, ◌<◌, ◌≡◌, ◌↔◌, refl, some, true, false, [], ◌∷◌, arith, length,
}
use mathlib.Core.List.{Memᴰ}
use rt_core.Canbus.Filter.{CanId, matches}
use rt_core.Cdmp.CanIds.{CanIdManager, is_valid_base_can_id, get_receive_filter}
use rt_core.Cdmp.CanIds.Laws.{receive_filter_block}
use rt_core.Cdmp.Status.{
  StatusMachine, init, claiming, online, set_status, is_valid_transition, same_status,
  can_transition_to,
}
use rt_core.Cdmp.Status.Laws.{request_all, online_needs_claiming}
use rt_core.Cdmp.Messages.Codec.{out_of_bounds}
use rt_core.Cdmp.Messages.Network.{
  DiscoveryRequest, DiscoveryResponse, discovery_response_from_frame, heartbeat_from_frame,
  IdClaimRequest, id_claim_request_from_frame, IdClaimResponse,
}
use rt_core.Cdmp.Messages.Network.Decodes.{
  AllBytes, ClaimDecodes, ResponseDecodes, HeartbeatDecodes, from_frame-Decodes,
}
use rt_core.Cdmp.Messages.State.{StateChange, state_change_to_frame, state_change_from_frame}
use rt_core.Cdmp.Messages.State.RoundTrip.{state_change_round_trip}
use rt_core.Cdmp.Messages.Command.{CommandRequest, CommandResponse}

abbrev id_1400 : CanId
id_1400 = record { id = 1400; is_extended = false }

abbrev manager : CanIdManager
manager = record { base_can_id = 1400 }

receive_filter_block_example :
    (matches (get_receive_filter manager id_1400) (record { id = 1405; is_extended = false })
      ≡ true)
    ↔ ((false ≡ false) × (1400 ≤ 1405) × (1405 < 1400 + 8))
unfolding is_valid_base_can_id
receive_filter_block_example =
    receive_filter_block manager id_1400 (record { id = 1405; is_extended = false }) refl refl
      (omega arith)

abbrev bit : ℕ
bit = 3

-- A machine with one handler, named by a number.
abbrev machine : StatusMachine ℕ
machine = record { status = init; callbacks = (1, 42) ∷ [] }

online_needs_claiming_example : Memᴰ claiming (claiming ∷ online ∷ [])
unfolding request_all set_status is_valid_transition same_status can_transition_to
online_needs_claiming_example =
    online_needs_claiming machine (claiming ∷ online ∷ []) (λ e. cc) (λ e. cc) refl

abbrev question : DiscoveryRequest
question = record { uid = 0xDEADBEEF }

abbrev answer : DiscoveryResponse
answer = record { device_id = 5; uid = 0xCAFEBABE; features = 3 }

abbrev claim_5 : IdClaimRequest
claim_5 = record { claiming_device_id = 5; uid = 0xDEADBEEF; protocol_version = 1 }

-- A claim of the identifier 5 by the unit 0x04030201, with version 0x10.
abbrev claim_frame : List ℕ
claim_frame = 1 ∷ 5 ∷ 1 ∷ 2 ∷ 3 ∷ 4 ∷ 0 ∷ 0x10 ∷ []

claim_frame-AllBytes : AllBytes claim_frame
claim_frame-AllBytes = (
  omega arith,
  (
    omega arith,
    (omega arith, (omega arith, (omega arith, (omega arith, (omega arith, (omega arith, tt)))))),
  ),
)

abbrev refusal : IdClaimResponse
refusal = record {
  responding_device_id = 9;
  claiming_device_id = 5;
  claiming_device_uid = 7;
  result = 1;
}

from_frame-Decodes_example :
    ClaimDecodes claim_frame (id_claim_request_from_frame claim_frame)
    × ResponseDecodes claim_frame (discovery_response_from_frame claim_frame)
    × HeartbeatDecodes claim_frame (heartbeat_from_frame claim_frame)
from_frame-Decodes_example = from_frame-Decodes claim_frame claim_frame-AllBytes

-- A claim of 7 bytes is read past its end.
short_claim_test : id_claim_request_from_frame (1 ∷ 5 ∷ 0 ∷ 0 ∷ 0 ∷ 0 ∷ 0 ∷ []) ≡ out_of_bounds
unfolding id_claim_request_from_frame
short_claim_test = refl

abbrev change : StateChange
change = record { source_device_id = 5; version = 9; state_type = 2; payload = 1 ∷ 2 ∷ [] }

state_change_round_trip_example :
    (length (state_change_to_frame change) ≤ 8)
    × (state_change_from_frame (state_change_to_frame change) ≡ some change)
state_change_round_trip_example = state_change_round_trip change (omega arith)

abbrev command : CommandRequest
command = record { target_device_id = 5; command_code = 0x10; transaction_id = 3; payload = 1 ∷ [] }

abbrev reply : CommandResponse
reply = record {
  source_device_id = 5;
  command_code = 0x10;
  transaction_id = 3;
  result_code = 0;
  payload = 1 ∷ 2 ∷ [];
}
