-- ===== src/Cdmp/Messages/Network/Decodes.antt =====
-- The decoders of the ID claim, the discovery response and the heartbeat on any frame of bytes.
use rt_core.Prelude.{
  ℕ, ◌/◌, ◌%◌, ◌<◌, ◌≡◌, ◌≢◌, subst, inl, inr, List, [], ◌∷◌, arith, length, ◌!=◌, if◌then◌else◌,
  Bool-cases,
}
use rt_core.Cdmp.Messages.Codec.{
  Decoded, message, invalid, out_of_bounds, read_word32, read_word16, bytes-read_word32,
  bytes-read_word16,
}
use rt_core.Cdmp.Messages.Network.{
  DiscoveryResponse, discovery_response_from_frame, Heartbeat, heartbeat_from_frame, IdClaimRequest,
  id_claim_request_from_frame,
}

abbrev pub AllBytes : List ℕ → Type 0
AllBytes [] = Unit
AllBytes (b ∷ bs) = (b < 256) × AllBytes bs

-- The frames of an ID claim, by their bytes: 1, the identifier, the UID from its lowest byte, a byte that
-- is not read, the version, and anything.
pub data ClaimDecodes : List ℕ → Decoded IdClaimRequest → Type 0 where
  reads :
      (m : IdClaimRequest) (reserved : ℕ) (rest : List ℕ)
      → m.uid < 4294967296
      → ClaimDecodes
          (1
            ∷ m.claiming_device_id
            ∷ m.uid % 256
            ∷ m.uid / 256 % 256
            ∷ m.uid / 65536 % 256
            ∷ m.uid / 16777216
            ∷ reserved
            ∷ m.protocol_version
            ∷ rest)
          (message m)
  other_kind : (kind : ℕ) (rest : List ℕ) → kind ≢ 1 → ClaimDecodes (kind ∷ rest) invalid
  empty : ClaimDecodes [] out_of_bounds
  too_short : (rest : List ℕ) → length rest < 7 → ClaimDecodes (1 ∷ rest) out_of_bounds

-- Those of a discovery response: 4, the identifier, the UID, the features, and anything.
pub data ResponseDecodes : List ℕ → Decoded DiscoveryResponse → Type 0 where
  reads :
      (m : DiscoveryResponse) (rest : List ℕ)
      → m.uid < 4294967296
      → m.features < 65536
      → ResponseDecodes
          (4
            ∷ m.device_id
            ∷ m.uid % 256
            ∷ m.uid / 256 % 256
            ∷ m.uid / 65536 % 256
            ∷ m.uid / 16777216
            ∷ m.features % 256
            ∷ m.features / 256
            ∷ rest)
          (message m)
  other_kind : (kind : ℕ) (rest : List ℕ) → kind ≢ 4 → ResponseDecodes (kind ∷ rest) invalid
  too_short : (frame : List ℕ) → length frame < 8 → ResponseDecodes frame invalid

-- Those of a heartbeat, which has no kind and two bytes that are not read.
pub data HeartbeatDecodes : List ℕ → Decoded Heartbeat → Type 0 where
  reads :
      (m : Heartbeat) (r s : ℕ) (rest : List ℕ)
      → m.features < 65536
      → HeartbeatDecodes
          (m.device_id
            ∷ m.health_status
            ∷ m.sequence_number
            ∷ m.features % 256
            ∷ m.features / 256
            ∷ r
            ∷ s
            ∷ m.state_digest
            ∷ rest)
          (message m)
  too_short : (frame : List ℕ) → length frame < 8 → HeartbeatDecodes frame invalid

short_claim :
    (kind : ℕ) (rest : List ℕ)
    → length rest < 7
    → ClaimDecodes (kind ∷ rest) (if kind != 1 then invalid else out_of_bounds)
short_claim kind rest l = elim (Bool-cases (kind != 1)) [
  | inl other ↦ rw other (other_kind kind rest (ground arith))
  | inr own ↦
      let e : 1 ≡ kind = ground arith in
      rw own (subst (λ k. ClaimDecodes (k ∷ rest) out_of_bounds) e (too_short rest l))
]

claim-Decodes :
    (frame : List ℕ) → AllBytes frame → ClaimDecodes frame (id_claim_request_from_frame frame)
unfolding id_claim_request_from_frame
claim-Decodes [] h = empty
claim-Decodes (k ∷ []) h = short_claim k [] (omega arith)
claim-Decodes (k ∷ a ∷ []) h = short_claim k _ (omega arith)
claim-Decodes (k ∷ a ∷ b ∷ []) h = short_claim k _ (omega arith)
claim-Decodes (k ∷ a ∷ b ∷ c ∷ []) h = short_claim k _ (omega arith)
claim-Decodes (k ∷ a ∷ b ∷ c ∷ d ∷ []) h = short_claim k _ (omega arith)
claim-Decodes (k ∷ a ∷ b ∷ c ∷ d ∷ e ∷ []) h = short_claim k _ (omega arith)
claim-Decodes (k ∷ a ∷ b ∷ c ∷ d ∷ e ∷ f ∷ []) h = short_claim k _ (omega arith)
claim-Decodes (k ∷ id ∷ b2 ∷ b3 ∷ b4 ∷ b5 ∷ r ∷ v ∷ rest) (_, (_, (h2, (h3, (h4, (h5, _)))))) =
    let m : IdClaimRequest = record {
      claiming_device_id = id;
      uid = read_word32 b2 b3 b4 b5;
      protocol_version = v;
    } in
    elim (Bool-cases (k != 1)) [
      | inl other ↦ rw other (other_kind k _ (ground arith))
      | inr own ↦
          let (small, e2, e3, e4, e5) = bytes-read_word32 b2 b3 b4 b5 h2 h3 h4 h5 in
          let e1 : 1 ≡ k = ground arith in
          rw own (
            subst (λ frame. ClaimDecodes frame (message m))
              (λ i. e1 i ∷ id ∷ e2 i ∷ e3 i ∷ e4 i ∷ e5 i ∷ r ∷ v ∷ rest) (reads m r rest small))
    ]

response-Decodes :
    (frame : List ℕ) → AllBytes frame → ResponseDecodes frame (discovery_response_from_frame frame)
unfolding discovery_response_from_frame
response-Decodes (k ∷ id ∷ b2 ∷ b3 ∷ b4 ∷ b5 ∷ b6 ∷ b7 ∷ rest)
      (_, (_, (h2, (h3, (h4, (h5, (h6, (h7, _)))))))) =
    let m : DiscoveryResponse = record {
      device_id = id;
      uid = read_word32 b2 b3 b4 b5;
      features = read_word16 b6 b7;
    } in
    elim (Bool-cases (k != 4)) [
      | inl other ↦ rw other (other_kind k _ (ground arith))
      | inr own ↦
          let (small, e2, e3, e4, e5) = bytes-read_word32 b2 b3 b4 b5 h2 h3 h4 h5 in
          let (mask, e6, e7) = bytes-read_word16 b6 b7 h6 h7 in
          let e1 : 4 ≡ k = ground arith in
          rw own (
            subst (λ frame. ResponseDecodes frame (message m))
              (λ i. e1 i ∷ id ∷ e2 i ∷ e3 i ∷ e4 i ∷ e5 i ∷ e6 i ∷ e7 i ∷ rest)
              (reads m rest small mask))
    ]
response-Decodes _ h = too_short _ (omega arith)

heartbeat-Decodes :
    (frame : List ℕ) → AllBytes frame → HeartbeatDecodes frame (heartbeat_from_frame frame)
unfolding heartbeat_from_frame
heartbeat-Decodes (id ∷ health ∷ number ∷ b3 ∷ b4 ∷ r ∷ s ∷ digest ∷ rest)
      (_, (_, (_, (h3, (h4, _))))) =
    let m : Heartbeat = record {
      device_id = id;
      health_status = health;
      sequence_number = number;
      features = read_word16 b3 b4;
      state_digest = digest;
    } in
    let (mask, e3, e4) = bytes-read_word16 b3 b4 h3 h4 in
    subst (λ frame. HeartbeatDecodes frame (message m))
      (λ i. id ∷ health ∷ number ∷ e3 i ∷ e4 i ∷ r ∷ s ∷ digest ∷ rest) (reads m r s rest mask)
heartbeat-Decodes _ h = too_short _ (omega arith)

-- On any frame of bytes, the decoder of an ID claim reads exactly the frames of 8 bytes or more that begin
-- with 1, as the claim whose identifier, UID and version stand in them; it refuses other kinds, and reads
-- a shorter frame of its kind, and an empty one, past the end. The decoders of a discovery response
-- and of a heartbeat read the frames of their kind of 8 bytes or more in the same way, and refuse all
-- others.
pub from_frame-Decodes :
    (frame : List ℕ)
    → AllBytes frame
    → ClaimDecodes frame (id_claim_request_from_frame frame)
      × ResponseDecodes frame (discovery_response_from_frame frame)
      × HeartbeatDecodes frame (heartbeat_from_frame frame)
from_frame-Decodes frame h =
    (claim-Decodes frame h, response-Decodes frame h, heartbeat-Decodes frame h)
