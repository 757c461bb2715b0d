-- ===== src/Cdmp/Messages/State.antt =====
-- subsys/cdmp/models/messages and models/cdmp_state_data.h: state changes (base + 4) and their
-- acknowledgements (base + 5). `Option` is std::optional; the throwing variants are not used.
pub mod RoundTrip
use rt_core.Prelude.{ℕ, ◌+◌, Option, none, some, List, [], ◌∷◌, ◌++◌, ltb, if◌then◌else◌, length}

abbrev pub max_data_size : ℕ
max_data_size = 5

abbrev pub max_frame_size : ℕ
max_frame_size = 8

pub record StateChange : Type 0 where
  pub source_device_id : ℕ
  pub version : ℕ
  pub state_type : ℕ
  pub payload : List ℕ

unfoldable pub state_change_from_frame : List ℕ → Option StateChange
state_change_from_frame (source ∷ version ∷ state_type ∷ payload) =
    if ltb max_frame_size (length (source ∷ version ∷ state_type ∷ payload))
    then none
    else some (record {
      source_device_id = source;
      version = version;
      state_type = state_type;
      payload = payload;
    })
state_change_from_frame _ = none

-- The bytes written, the first ones of the caller's array.
unfoldable pub state_change_to_frame : StateChange → List ℕ
state_change_to_frame m = (m.source_device_id ∷ m.version ∷ m.state_type ∷ []) ++ m.payload

pub record StateChangeResponse : Type 0 where
  pub responding_device_id : ℕ
  pub source_device_id : ℕ
  pub version : ℕ
  pub result_code : ℕ

unfoldable pub state_change_response_from_frame : List ℕ → Option StateChangeResponse
state_change_response_from_frame (responding ∷ source ∷ version ∷ result ∷ _) = some (record {
  responding_device_id = responding;
  source_device_id = source;
  version = version;
  result_code = result;
})
state_change_response_from_frame _ = none

unfoldable pub state_change_response_to_frame : StateChangeResponse → List ℕ
state_change_response_to_frame m =
    m.responding_device_id ∷ m.source_device_id ∷ m.version ∷ m.result_code ∷ []
