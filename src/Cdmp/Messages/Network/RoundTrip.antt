-- ===== src/Cdmp/Messages/Network/RoundTrip.antt =====
-- The management messages and the heartbeat: what one unit writes another reads, and short frames.
use rt_core.Prelude.{ℕ, ◌<◌, ◌≡◌, refl, ◌≢◌, List, ◌∷◌, ◌++◌, arith}
use rt_core.Cdmp.Messages.Codec.{message, invalid, read_word32_bytes, read_word16_bytes}
use rt_core.Cdmp.Messages.Network.{
  DiscoveryRequest, discovery_request_to_frame, discovery_request_from_frame, DiscoveryResponse,
  discovery_response_to_frame, discovery_response_from_frame, Heartbeat, heartbeat_to_frame,
  heartbeat_from_frame, IdClaimRequest, id_claim_request_to_frame, id_claim_request_from_frame,
  IdClaimResponse, id_claim_response_to_frame, id_claim_response_from_frame, id_claim,
  id_claim_response, discovery_request, discovery_response,
}

pub discovery_request_round_trip :
    (m : DiscoveryRequest) (rest : List ℕ)
    → m.uid < 4294967296
    → discovery_request_from_frame (discovery_request_to_frame m ++ rest) ≡ message m
unfolding discovery_request_from_frame discovery_request_to_frame
discovery_request_round_trip m rest h = λ i. message (record { uid = read_word32_bytes m.uid h i })

pub discovery_response_round_trip :
    (m : DiscoveryResponse) (rest : List ℕ)
    → m.uid < 4294967296
    → m.features < 65536
    → discovery_response_from_frame (discovery_response_to_frame m ++ rest) ≡ message m
unfolding discovery_response_from_frame discovery_response_to_frame
discovery_response_round_trip m rest h k = λ i. message (record {
  device_id = m.device_id;
  uid = read_word32_bytes m.uid h i;
  features = read_word16_bytes m.features k i;
})

-- A heartbeat reads back as it was written, whatever follows its 8 bytes.
pub heartbeat_round_trip :
    (m : Heartbeat) (rest : List ℕ)
    → m.features < 65536
    → heartbeat_from_frame (heartbeat_to_frame m ++ rest) ≡ message m
unfolding heartbeat_from_frame heartbeat_to_frame
heartbeat_round_trip m rest h = λ i. message (record {
  device_id = m.device_id;
  health_status = m.health_status;
  sequence_number = m.sequence_number;
  features = read_word16_bytes m.features h i;
  state_digest = m.state_digest;
})

pub id_claim_request_round_trip :
    (m : IdClaimRequest) (rest : List ℕ)
    → m.uid < 4294967296
    → id_claim_request_from_frame (id_claim_request_to_frame m ++ rest) ≡ message m
unfolding id_claim_request_from_frame id_claim_request_to_frame
id_claim_request_round_trip m rest h = λ i. message (record {
  claiming_device_id = m.claiming_device_id;
  uid = read_word32_bytes m.uid h i;
  protocol_version = m.protocol_version;
})

-- The response does not carry the claimant's UID: it reads back with 0 in its place.
pub id_claim_response_round_trip :
    (m : IdClaimResponse) (rest : List ℕ)
    → id_claim_response_from_frame (id_claim_response_to_frame m ++ rest)
      ≡ message (record m { claiming_device_uid = 0 })
unfolding id_claim_response_from_frame id_claim_response_to_frame
id_claim_response_round_trip m rest = refl

-- Every management message that a unit sends is read back by the decoder of its kind, whatever
-- follows it in the frame; the response to an ID claim loses the claimant's UID.
pub management_round_trip :
    (q : DiscoveryRequest) (r : DiscoveryResponse) (c : IdClaimRequest) (a : IdClaimResponse)
    (rest : List ℕ)
    → q.uid < 4294967296
    → r.uid < 4294967296
    → r.features < 65536
    → c.uid < 4294967296
    → (discovery_request_from_frame (discovery_request_to_frame q ++ rest) ≡ message q)
      × (discovery_response_from_frame (discovery_response_to_frame r ++ rest) ≡ message r)
      × (id_claim_request_from_frame (id_claim_request_to_frame c ++ rest) ≡ message c)
      × (id_claim_response_from_frame (id_claim_response_to_frame a ++ rest)
          ≡ message (record a { claiming_device_uid = 0 }))
management_round_trip q r c a rest hq hr fr hc = (
  discovery_request_round_trip q rest hq,
  discovery_response_round_trip r rest hr fr,
  id_claim_request_round_trip c rest hc,
  id_claim_response_round_trip a rest,
)

refuse_request :
    (kind : ℕ) (rest : List ℕ)
    → kind ≢ discovery_request
    → discovery_request_from_frame (kind ∷ rest) ≡ invalid
unfolding discovery_request_from_frame
refuse_request kind (a ∷ b ∷ c ∷ d ∷ rest) h = ground arith
refuse_request kind _ h = ground arith

refuse_response :
    (kind : ℕ) (rest : List ℕ)
    → kind ≢ discovery_response
    → discovery_response_from_frame (kind ∷ rest) ≡ invalid
unfolding discovery_response_from_frame
refuse_response kind (a ∷ b ∷ c ∷ d ∷ e ∷ f ∷ g ∷ rest) h = ground arith
refuse_response kind _ h = ground arith

refuse_claim :
    (kind : ℕ) (rest : List ℕ)
    → kind ≢ id_claim
    → id_claim_request_from_frame (kind ∷ rest) ≡ invalid
unfolding id_claim_request_from_frame
refuse_claim kind (a ∷ b ∷ c ∷ d ∷ e ∷ f ∷ g ∷ rest) h = ground arith
refuse_claim kind _ h = ground arith

refuse_claim_response :
    (kind : ℕ) (rest : List ℕ)
    → kind ≢ id_claim_response
    → id_claim_response_from_frame (kind ∷ rest) ≡ invalid
unfolding id_claim_response_from_frame
refuse_claim_response kind (a ∷ b ∷ c ∷ rest) h = ground arith
refuse_claim_response kind _ h = ground arith

-- A decoder given a frame of another kind refuses it, however long it is.
pub other_kind_refused :
    (kind : ℕ) (rest : List ℕ)
    → (kind ≢ discovery_request → discovery_request_from_frame (kind ∷ rest) ≡ invalid)
      × (kind ≢ discovery_response → discovery_response_from_frame (kind ∷ rest) ≡ invalid)
      × (kind ≢ id_claim → id_claim_request_from_frame (kind ∷ rest) ≡ invalid)
      × (kind ≢ id_claim_response → id_claim_response_from_frame (kind ∷ rest) ≡ invalid)
other_kind_refused kind rest = (
  refuse_request kind rest,
  refuse_response kind rest,
  refuse_claim kind rest,
  refuse_claim_response kind rest,
)
