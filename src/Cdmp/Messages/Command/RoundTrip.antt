-- ===== src/Cdmp/Messages/Command/RoundTrip.antt =====
-- Commands and their responses: what one unit writes another reads.
use rt_core.Prelude.{◌≡◌, refl}
use rt_core.Cdmp.Messages.Codec.{message}
use rt_core.Cdmp.Messages.Command.{
  CommandRequest, command_request_to_frame, command_request_from_frame, CommandResponse,
  command_response_to_frame, command_response_from_frame,
}

-- A command and a response of any payload read back as they were written.
pub command_round_trip :
    (q : CommandRequest) (r : CommandResponse)
    → (command_request_from_frame (command_request_to_frame q) ≡ message q)
      × (command_response_from_frame (command_response_to_frame r) ≡ message r)
unfolding command_request_from_frame command_request_to_frame command_response_from_frame
    command_response_to_frame
command_round_trip q r = (refl, refl)
