-- ===== src/Cdmp/Messages/Network.antt =====
-- subsys/cdmp/models/messages: the management messages (base + 0) and the heartbeat (base + 1). An
-- enumeration on the wire is held by its underlying byte.
pub mod RoundTrip
pub mod Decodes
use rt_core.Prelude.{ℕ, List, [], ◌∷◌, ◌++◌, ltb, ◌!=◌, if◌then◌else◌, length}
use rt_core.Prelude.Bits.{shr, u8}
use rt_core.Cdmp.Messages.Codec.{
  Decoded, message, invalid, out_of_bounds, word32_bytes, read_word32, read_word16,
}

abbrev pub id_claim : ℕ
id_claim = 0x01

abbrev pub id_claim_response : ℕ
id_claim_response = 0x02

abbrev pub discovery_request : ℕ
discovery_request = 0x03

abbrev pub discovery_response : ℕ
discovery_response = 0x04

pub record DiscoveryRequest : Type 0 where
  pub uid : ℕ

unfoldable pub discovery_request_to_frame : DiscoveryRequest → List ℕ
unfolding word32_bytes
discovery_request_to_frame m = discovery_request ∷ word32_bytes m.uid

unfoldable pub discovery_request_from_frame : List ℕ → Decoded DiscoveryRequest
discovery_request_from_frame [] = out_of_bounds
discovery_request_from_frame (kind ∷ b1 ∷ b2 ∷ b3 ∷ b4 ∷ _) =
    if kind != discovery_request
    then invalid
    else message (record { uid = read_word32 b1 b2 b3 b4 })
discovery_request_from_frame (kind ∷ _) =
    if kind != discovery_request then invalid else out_of_bounds

pub record DiscoveryResponse : Type 0 where
  pub device_id : ℕ
  pub uid : ℕ
  pub features : ℕ

unfoldable pub discovery_response_to_frame : DiscoveryResponse → List ℕ
unfolding word32_bytes
discovery_response_to_frame m =
    discovery_response ∷ m.device_id ∷ word32_bytes m.uid
    ++ u8 m.features ∷ u8 (shr m.features 8) ∷ []

-- A frame shorter than 8 bytes is refused before anything is read.
unfoldable pub discovery_response_from_frame : List ℕ → Decoded DiscoveryResponse
discovery_response_from_frame (kind ∷ id ∷ b2 ∷ b3 ∷ b4 ∷ b5 ∷ b6 ∷ b7 ∷ _) =
    if kind != discovery_response
    then invalid
    else message
        (record { device_id = id; uid = read_word32 b2 b3 b4 b5; features = read_word16 b6 b7 })
discovery_response_from_frame _ = invalid

pub record Heartbeat : Type 0 where
  pub device_id : ℕ
  pub health_status : ℕ
  pub sequence_number : ℕ
  pub features : ℕ
  pub state_digest : ℕ

unfoldable pub heartbeat_to_frame : Heartbeat → List ℕ
heartbeat_to_frame m =
    m.device_id
    ∷ m.health_status
    ∷ m.sequence_number
    ∷ u8 m.features
    ∷ u8 (shr m.features 8)
    ∷ 0
    ∷ 0
    ∷ m.state_digest
    ∷ []

unfoldable pub heartbeat_from_frame : List ℕ → Decoded Heartbeat
heartbeat_from_frame (id ∷ health ∷ number ∷ b3 ∷ b4 ∷ _ ∷ _ ∷ digest ∷ _) = message (record {
  device_id = id;
  health_status = health;
  sequence_number = number;
  features = read_word16 b3 b4;
  state_digest = digest;
})
heartbeat_from_frame _ = invalid

pub record IdClaimRequest : Type 0 where
  pub claiming_device_id : ℕ
  pub uid : ℕ
  pub protocol_version : ℕ

unfoldable pub id_claim_request_to_frame : IdClaimRequest → List ℕ
unfolding word32_bytes
id_claim_request_to_frame m =
    id_claim ∷ m.claiming_device_id ∷ word32_bytes m.uid ++ 0 ∷ m.protocol_version ∷ []

unfoldable pub id_claim_request_from_frame : List ℕ → Decoded IdClaimRequest
id_claim_request_from_frame [] = out_of_bounds
id_claim_request_from_frame (kind ∷ id ∷ b2 ∷ b3 ∷ b4 ∷ b5 ∷ _ ∷ version ∷ _) =
    if kind != id_claim
    then invalid
    else message (record {
      claiming_device_id = id;
      uid = read_word32 b2 b3 b4 b5;
      protocol_version = version;
    })
id_claim_request_from_frame (kind ∷ _) = if kind != id_claim then invalid else out_of_bounds

-- The decoder leaves `claiming_device_uid` 0: the frame does not carry it.
pub record IdClaimResponse : Type 0 where
  pub responding_device_id : ℕ
  pub claiming_device_id : ℕ
  pub claiming_device_uid : ℕ
  pub result : ℕ

unfoldable pub id_claim_response_to_frame : IdClaimResponse → List ℕ
id_claim_response_to_frame m =
    id_claim_response ∷ m.responding_device_id ∷ m.claiming_device_id ∷ m.result ∷ []

unfoldable pub id_claim_response_from_frame : List ℕ → Decoded IdClaimResponse
id_claim_response_from_frame [] = out_of_bounds
id_claim_response_from_frame (kind ∷ responding ∷ claiming ∷ result ∷ _) =
    if kind != id_claim_response
    then invalid
    else message (record {
      responding_device_id = responding;
      claiming_device_id = claiming;
      claiming_device_uid = 0;
      result = result;
    })
id_claim_response_from_frame (kind ∷ _) =
    if kind != id_claim_response then invalid else out_of_bounds
