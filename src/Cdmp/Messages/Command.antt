-- ===== src/Cdmp/Messages/Command.antt =====
-- subsys/cdmp/models/messages: commands (base + 2) and their responses (base + 3).
pub mod RoundTrip
use rt_core.Prelude.{ℕ, List, [], ◌∷◌, ◌++◌}
use rt_core.Cdmp.Messages.Codec.{Decoded, message, out_of_bounds}

pub record CommandRequest : Type 0 where
  pub target_device_id : ℕ
  pub command_code : ℕ
  pub transaction_id : ℕ
  pub payload : List ℕ

unfoldable pub command_request_to_frame : CommandRequest → List ℕ
command_request_to_frame m =
    (m.target_device_id ∷ m.command_code ∷ m.transaction_id ∷ []) ++ m.payload

unfoldable pub command_request_from_frame : List ℕ → Decoded CommandRequest
command_request_from_frame (target ∷ code ∷ transaction ∷ payload) = message (record {
  target_device_id = target;
  command_code = code;
  transaction_id = transaction;
  payload = payload;
})
command_request_from_frame _ = out_of_bounds

pub record CommandResponse : Type 0 where
  pub source_device_id : ℕ
  pub command_code : ℕ
  pub transaction_id : ℕ
  pub result_code : ℕ
  pub payload : List ℕ

unfoldable pub command_response_to_frame : CommandResponse → List ℕ
command_response_to_frame m =
    (m.source_device_id ∷ m.command_code ∷ m.transaction_id ∷ m.result_code ∷ []) ++ m.payload

unfoldable pub command_response_from_frame : List ℕ → Decoded CommandResponse
command_response_from_frame (source ∷ code ∷ transaction ∷ result ∷ payload) = message (record {
  source_device_id = source;
  command_code = code;
  transaction_id = transaction;
  result_code = result;
  payload = payload;
})
command_response_from_frame _ = out_of_bounds

abbrev pub status_request : ℕ
status_request = 0x10

-- The constructor of CdmpCommandResponseStatusMessage: device, transaction, result, status, protocol
-- version and health.
unfoldable pub status_response : ℕ → ℕ → ℕ → ℕ → ℕ → ℕ → CommandResponse
status_response source transaction result status version health = record {
  source_device_id = source;
  command_code = status_request;
  transaction_id = transaction;
  result_code = result;
  payload = status ∷ version ∷ health ∷ [];
}
