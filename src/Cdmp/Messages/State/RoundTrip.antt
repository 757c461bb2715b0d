-- ===== src/Cdmp/Messages/State/RoundTrip.antt =====
-- State changes and their acknowledgements: what one unit writes another reads, and no other frame.
use rt_core.Prelude.{ℕ, ◌≤◌, ◌≡◌, refl, some, List, [], ◌∷◌, ◌++◌, arith, length}
use rt_core.Cdmp.Messages.State.{
  StateChange, state_change_from_frame, state_change_to_frame, StateChangeResponse,
  state_change_response_from_frame, state_change_response_to_frame, max_data_size,
}

-- A state change of at most 5 data bytes fills at most 8 bytes and reads back as it was written.
pub state_change_round_trip :
    (m : StateChange)
    → length m.payload ≤ max_data_size
    → (length (state_change_to_frame m) ≤ 8)
      × (state_change_from_frame (state_change_to_frame m) ≡ some m)
unfolding state_change_from_frame state_change_to_frame
state_change_round_trip m h = (omega arith, ground arith)

-- A frame that is read as a state change is exactly what that change writes, and carries at most 5
-- data bytes.
pub state_change_unique :
    (frame : List ℕ) {m : StateChange}
    → state_change_from_frame frame ≡ some m
    → (state_change_to_frame m ≡ frame) × (length m.payload ≤ max_data_size)
unfolding state_change_from_frame state_change_to_frame
state_change_unique [] e = cc
state_change_unique (a ∷ []) e = cc
state_change_unique (a ∷ b ∷ []) e = cc
state_change_unique (a ∷ b ∷ c ∷ payload) {m} e = ground arith

pub state_change_response_round_trip :
    (m : StateChangeResponse) (rest : List ℕ)
    → state_change_response_from_frame (state_change_response_to_frame m ++ rest) ≡ some m
unfolding state_change_response_from_frame state_change_response_to_frame
state_change_response_round_trip m rest = refl
