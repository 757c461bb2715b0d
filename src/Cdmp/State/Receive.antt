-- ===== src/Cdmp/State/Receive.antt =====
-- cdmp_state_service.cpp: the frames of the receive queue. The number of copies that are kept is a
-- parameter.
use rt_core.Prelude.{
  ℕ, ◌+◌, Bool, false, not, ◌||◌, Option, none, some, List, [], ◌∷◌, ◌==◌, if◌then◌else◌,
}
use rt_core.Prelude.Bits.{u32}
use rt_core.Cdmp.Messages.State.{state_change_from_frame, StateChangeResponse}
use rt_core.Cdmp.State.Remote.{apply_record}
use rt_core.Cdmp.State.Service.{Device, ReceivedFrame, StateService, process_response_frame}

module _ (max_remote : ℕ) where
  -- The service after a notification, and the acknowledgement that it gets; `is_known` says whether
  -- the device table has a device online.
  unfoldable pub process_state_change_frame :
      Device → (ℕ → Bool) → ℕ → List ℕ → StateService → StateService × Option StateChangeResponse
  unfolding state_change_from_frame apply_record
  process_state_change_frame d is_known now frame_data s =
      if not d.is_online then (s, none) else elim (state_change_from_frame frame_data) [
        | none ↦ (record s { rx_dropped = u32 (s.rx_dropped + 1) }, none)
        | some m ↦
            if m.state_type == 0
            then (record s { rx_dropped = u32 (s.rx_dropped + 1) }, none)
            else if m.source_device_id == d.device_id || not (is_known m.source_device_id)
            then (s, none)
            else (
              record s { remote = apply_record max_remote now m s.remote },
              some (record {
                responding_device_id = d.device_id;
                source_device_id = m.source_device_id;
                version = m.version;
                result_code = 0;
              }),
            )
      ]

  -- The frames of the queue, in order, with the acknowledgements that go out.
  unfoldable pub receive_all :
      Device
      → (ℕ → Bool)
      → ℕ
      → List ReceivedFrame
      → StateService
      → StateService × List StateChangeResponse
  unfolding process_state_change_frame process_response_frame
  receive_all d is_known now [] s = (s, [])
  receive_all d is_known now (frame ∷ rest) s =
      let (s', response) : StateService × Option StateChangeResponse =
        if frame.is_response
        then (process_response_frame d frame.bytes s, none)
        else process_state_change_frame d is_known now frame.bytes s in
      let (s'', responses) = receive_all d is_known now rest s' in
      (s'', elim response [ none ↦ responses | some r ↦ r ∷ responses ])

  unfoldable pub receive_frames :
      Device → (ℕ → Bool) → ℕ → StateService → StateService × List StateChangeResponse
  unfolding receive_all
  receive_frames d is_known now s =
      let emptied = record s { rx_queue = []; is_receive_due = false } in
      let (s', responses) = receive_all d is_known now s.rx_queue emptied in
      (record s' { rx_dropped = 0 }, responses)
