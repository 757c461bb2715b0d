-- ===== src/Examples/SmpRuns.antt =====
-- The SMP transport's theorems at concrete inputs, and tests of its definitions.
use rt_core.Prelude.{
  ℕ, ◌+◌, ◌*◌, ◌≤◌, ◌<◌, ◌≡◌, refl, some, true, false, List, [], ◌∷◌, ◌++◌, arith, bit_and,
  replicate, ◌&&◌, ◌==◌,
}
use rt_core.Smp.Header.{
  SmpHeader, write, parse, encode, get_packet_size, to_underlying, to_operation,
}
use rt_core.Smp.Header.RoundTrip.{Fits, parse-encode}
use rt_core.Smp.Can.FrameFormat.{FrameFormat}
use rt_core.Smp.Can.IdLayout.{
  IdLayout, IsLayout, make_id, contains, get_target, get_source, get_target_filter_id,
  target_filter_mask, make_id_fields, target_filter_exact,
}
use rt_core.Smp.Can.Framer.{make_framer, frames}
use rt_core.Smp.Can.Reassembler.{Reassembler, make_reassembler, attach, accept}
use rt_core.Smp.Can.Reassembler.RoundTrip.{feed, Delivered, feed-frames}
use rt_core.Smp.Can.Reassembler.Data.{IsPacket}
use rt_core.Smp.Can.Reassembler.Invariant.{Outcome, accept-Outcome, attach-IsReassembler}
use rt_core.Smp.Can.Receiver.{CanFrame, Receiver}
use rt_core.Smp.Can.Pacer.{Pacer, reset, update, can_send, on_sent, get_wait_us}
use rt_core.Smp.Can.Pacer.Rate.{
  IsPacer, Trace, start, updated, sent, bus_share, needed, get_wait_us_enough, get_wait_us_least,
}

-- A write request of 3 body bytes, which takes two classic frames.
abbrev request_header : SmpHeader
request_header = record {
  operation = write;
  version = 1;
  flags = 0;
  length = 3;
  group = 1;
  sequence = 7;
  command_id = 2;
}

abbrev request : List ℕ
request = 0x0A ∷ 0 ∷ 0 ∷ 3 ∷ 0 ∷ 1 ∷ 7 ∷ 2 ∷ 10 ∷ 20 ∷ 30 ∷ []

request-IsPacket : IsPacket request request_header
unfolding parse get_packet_size to_operation
request-IsPacket = record { parses = refl; whole = refl; has_header = omega arith }

request_header-Fits : Fits request_header
unfolding to_underlying to_operation
request_header-Fits = record {
  operation_fits = omega arith;
  operation_named = refl;
  version_fits = omega arith;
  flags_fit = omega arith;
  length_fits = omega arith;
  group_fits = omega arith;
  sequence_fits = omega arith;
  command_fits = omega arith;
}

parse-encode_example : parse (encode request_header ++ 10 ∷ 20 ∷ 30 ∷ []) ≡ some request_header
parse-encode_example = parse-encode request_header (10 ∷ 20 ∷ 30 ∷ []) request_header-Fits

abbrev classic : FrameFormat
classic = record { is_can_fd = false }

abbrev fd : FrameFormat
fd = record { is_can_fd = true }

abbrev receiver : Reassembler
receiver = attach (make_reassembler 100) (replicate 64 0) classic

abbrev every_10_ms : ℕ → ℕ
every_10_ms k = k * 10

feed-frames_example :
    let (r', results) =
      feed receiver every_10_ms 0 (frames 11 (make_framer request receiver.format)) in
    Delivered request r' results
unfolding attach make_reassembler
feed-frames_example =
    feed-frames request request_header request-IsPacket every_10_ms 100 (λ k. omega arith) receiver
      0 11 (omega arith) refl (omega arith)

accept-Outcome_example :
    let (r', result) = accept receiver (0x80 ∷ 1 ∷ 2 ∷ []) 5 in Outcome receiver r' result
accept-Outcome_example =
    accept-Outcome receiver (0x80 ∷ 1 ∷ 2 ∷ []) 5
      (attach-IsReassembler (make_reassembler 100) (replicate 64 0) classic)

-- DEFAULT_BASE.
abbrev layout : IdLayout
layout = record { base = 0x1FF00000 }

layout-IsLayout : IsLayout layout
layout-IsLayout = (refl, omega arith)

make_id_fields_example :
    (make_id layout 5 1 < 536870912)
    × (contains layout (make_id layout 5 1) ≡ true)
    × (get_target (make_id layout 5 1) ≡ 5)
    × (get_source (make_id layout 5 1) ≡ 1)
make_id_fields_example = make_id_fields layout 5 1 layout-IsLayout (omega arith) (omega arith)

target_filter_exact_example :
    (bit_and 0x1FF00501 target_filter_mask
        == bit_and (get_target_filter_id layout 5) target_filter_mask
      && bit_and 0x1FF00501 0xE0000000 == 0)
    ≡ (contains layout 0x1FF00501 && get_target 0x1FF00501 == 5)
target_filter_exact_example =
    target_filter_exact layout 5 0x1FF00501 layout-IsLayout (omega arith) (omega arith)

-- Frames of 320 us at 500 kbit/s, 30 percent of the bus, bursts of 4.
abbrev pacer : Pacer
pacer = record {
  rate = 30000;
  frame_cost = 32000000;
  capacity = 128000000;
  credit = 40000000;
  last_update_us = 1000;
}

pacer-IsPacer : IsPacer pacer
pacer-IsPacer = record {
  cost_pos = omega arith;
  rate_pos = omega arith;
  holds_frame = omega arith;
  credit_capped = omega arith;
}

abbrev later : Pacer
later = on_sent (update (on_sent (reset pacer 1000)) 3000)

two_sends : Trace (reset pacer 1000) 2 later
unfolding can_send update on_sent reset
two_sends = sent (updated (sent start refl) 3000) refl

bus_share_example :
    2 * pacer.frame_cost + 1000 * pacer.rate ≤ pacer.capacity + later.last_update_us * pacer.rate
bus_share_example = bus_share 1000 pacer-IsPacer two_sends

get_wait_us_enough_example :
    (needed pacer 2 ≤ (update pacer (1000 + get_wait_us pacer 2)).credit)
    × (can_send (update pacer (1000 + get_wait_us pacer 2)) ≡ true)
get_wait_us_enough_example = get_wait_us_enough pacer 2 pacer-IsPacer

-- With 2 million of credit left the next frame takes 1000 us.
abbrev drained : Pacer
drained = record pacer { credit = 2000000 }

get_wait_us_least_example : can_send (update drained (1000 + 999)) ≡ false
get_wait_us_least_example =
    get_wait_us_least drained 999
      (record {
        cost_pos = omega arith;
        rate_pos = omega arith;
        holds_frame = omega arith;
        credit_capped = omega arith;
      })
      (unfold get_wait_us in omega arith)

-- A frame from unit 5 for unit 1, and a receiver with one free slot.
abbrev first_frame : CanFrame
first_frame = record {
  id = 0x1FF00105;
  is_extended = true;
  is_transmit = false;
  is_can_fd = false;
  is_bitrate_switch = false;
  is_remote_request = false;
  bytes = 0x80 ∷ 0x0A ∷ 0 ∷ 0 ∷ 3 ∷ 0 ∷ 1 ∷ 7 ∷ [];
}

abbrev idle_receiver : Receiver
idle_receiver = record {
  slots = record { source = 0; reassembler = receiver } ∷ [];
  rx_dropped = 0;
}
