-- ===== src/Examples/SenderRuns.antt =====
-- The sending side of the SMP transport and its binding at concrete inputs.
use rt_core.Prelude.{ℕ, zero, suc, ◌≡◌, refl, true, false, some, List, [], ◌∷◌, arith}
use rt_core.Smp.Can.IdLayout.{is_valid_address, get_target_filter_id}
use rt_core.Smp.Can.FrameFormat.{get_frame_time_ns, get_data_size, get_padded_size}
use rt_core.Smp.Can.Pacer.{Pacer}
use rt_core.Smp.Can.Sender.{
  Sender, BusConfig, SendResult, accepted, busy, sent, run_again_us, Run, enqueue, process_tx,
  get_config,
}
use rt_core.Smp.Can.Sender.Waiting.{IsSender, work}
use rt_core.Smp.Can.Sender.Process.{Processed, process_tx-Processed}
use rt_core.Smp.Can.Sender.Queue.{Enqueued, enqueue-Enqueued}
use rt_core.Smp.Can.Sender.Share.{History, begins, runs}
use rt_core.Smp.Can.Sender.Progress.{Progresses, wake_time, process_tx-Progresses}
use rt_core.Smp.Can.Transport.{remove_handler, clear_smp_rx, register_handler, Transport, bind}
use rt_core.Smp.Can.Transport.Handlers.{IsTransport, Binding, apply_calls, bind-Binding}
use rt_core.Smp.Can.Transport.Lifetime.{Lifetime-IsTransport, binds, begins as starts}

abbrev classic_bus : BusConfig
classic_bus = record { is_can_fd = false; bitrate = 500_000; data_bitrate = 0 }

-- 320 us a frame, a quarter of the bus, bursts of 8.
abbrev fresh_pacer : Pacer
fresh_pacer = record {
  rate = 25_000;
  frame_cost = 32_000_000;
  capacity = 256_000_000;
  credit = 0;
  last_update_us = 0;
}

abbrev packet : List ℕ
packet = 0x0A ∷ 0 ∷ 0 ∷ 3 ∷ 0 ∷ 1 ∷ 7 ∷ 2 ∷ 10 ∷ 20 ∷ 30 ∷ []

-- Unit 5, with a packet of two frames for unit 1 in progress, and one in the queue.
abbrev unit_5 : Sender
unit_5 = record {
  address = 5;
  layout = record { base = 0x1FF00000 };
  bus_share_percent = 25;
  has_tx_task = true;
  is_tx_due = true;
  tx_queue = record { target = 9; packet = packet } ∷ [];
  tx_packet = some (record { target = 1; packet = packet });
  tx_framer = record {
    packet = packet;
    format = record { is_can_fd = false };
    offset = 0;
    sequence = 0;
  };
  pacer = record fresh_pacer { credit = 256_000_000; last_update_us = 1000 };
  pacer_frame_time_ns = 320_000;
  tx_dropped = 0;
}

unit_5-IsSender : IsSender unit_5
unit_5-IsSender = record {
  queued = (omega arith, tt);
  current = omega arith;
  count_fits = omega arith;
}

-- The controller takes three frames, then its queue is full.
abbrev three_accepted : ℕ → SendResult
three_accepted zero = accepted
three_accepted (suc zero) = accepted
three_accepted (suc (suc zero)) = accepted
three_accepted (suc (suc (suc n))) = busy

process_tx-Processed_example :
    Processed
      (some classic_bus)
      unit_5
      (process_tx three_accepted (some classic_bus) 8 40 1000 unit_5)
process_tx-Processed_example =
    process_tx-Processed three_accepted (some classic_bus) 8 40 1000 unit_5 unit_5-IsSender
      (omega arith) (omega arith) (omega arith) (unfold work in omega arith)

enqueue-Enqueued_example :
    Enqueued (record { is_can_fd = false }) unit_5 7 packet (enqueue unit_5 7 packet)
enqueue-Enqueued_example =
    enqueue-Enqueued (record { is_can_fd = false }) unit_5 7 packet unit_5-IsSender

process_tx-Progresses_example :
    Progresses (process_tx three_accepted (some classic_bus) 8 40 (wake_time 8 unit_5) unit_5)
process_tx-Progresses_example =
    process_tx-Progresses three_accepted (some classic_bus) 8 40 unit_5
      (record { target = 1; packet = packet }) unit_5-IsSender
      (record {
        cost_pos = omega arith;
        rate_pos = omega arith;
        holds_frame = omega arith;
        credit_capped = omega arith;
      })
      refl (unfold get_config get_frame_time_ns in omega arith)
      (unfold get_config get_frame_time_ns in refl) refl (unfold work in omega arith)

-- The run sends the packet in progress and the first frame of the next one.
abbrev first_run : Run
first_run = record {
  sender = record unit_5 {
    tx_queue = [];
    tx_packet = some (record { target = 9; packet = packet });
    tx_framer = record {
      packet = packet;
      format = record { is_can_fd = false };
      offset = 7;
      sequence = 1;
    };
    pacer = record fresh_pacer { credit = 160_000_000; last_update_us = 1000 };
  };
  events =
      sent 0x1FF00105 (0x80 ∷ 0x0A ∷ 0 ∷ 0 ∷ 3 ∷ 0 ∷ 1 ∷ 7 ∷ [])
      ∷ sent 0x1FF00105 (1 ∷ 2 ∷ 10 ∷ 20 ∷ 30 ∷ [])
      ∷ sent 0x1FF00905 (0x80 ∷ 0x0A ∷ 0 ∷ 0 ∷ 3 ∷ 0 ∷ 1 ∷ 7 ∷ [])
      ∷ [];
  result = run_again_us 1000;
}

process_tx_test : process_tx three_accepted (some classic_bus) 8 40 1000 unit_5 ≡ some first_run
unfolding process_tx get_data_size get_padded_size
process_tx_test = refl

abbrev history : History (some classic_bus) 8 unit_5 3 first_run.sender
history = runs begins three_accepted 40 1000 first_run process_tx_test

-- Unit 5 has handler 3 at bus 0, and is bound to address 6, for which the bus gives handler 4.
abbrev idle : Transport
idle = record {
  sender = unit_5;
  receiver = record { slots = []; rx_dropped = 0 };
  handler = some (record { id = 3; bus = 0 });
  has_proxy = true;
  has_sink = false;
}

idle-IsTransport : IsTransport 0 idle ((3, 0x1FF00500) ∷ [])
unfolding is_valid_address get_target_filter_id
idle-IsTransport = record { bound = (refl, refl, refl); known = refl }

bind-Binding_example :
    Binding 0 6 (some 4) idle ((3, 0x1FF00500) ∷ []) (bind 6 (some 0) (some 4) idle)
bind-Binding_example =
    bind-Binding 0 6 (some 4) idle ((3, 0x1FF00500) ∷ []) (unfold is_valid_address in refl) refl
      idle-IsTransport

rebind_test :
    apply_calls 0 (bind 6 (some 0) (some 4) idle).2 ((3, 0x1FF00500) ∷ []) ≡ (4, 0x1FF00600) ∷ []
unfolding bind apply_calls
rebind_test = refl

abbrev rebound : Transport
rebound = record idle {
  sender = record unit_5 { address = 6 };
  handler = some (record { id = 4; bus = 0 });
}

rebinds :
    bind 6 (some 0) (some 4) idle
    ≡ (true, rebound, remove_handler 0 3 ∷ clear_smp_rx ∷ register_handler 0 4 0x1FF00600 ∷ [])
unfolding bind
rebinds = refl

Lifetime-IsTransport_example : IsTransport 0 rebound (
    apply_calls 0
      (remove_handler 0 3 ∷ clear_smp_rx ∷ register_handler 0 4 0x1FF00600 ∷ [])
      ((3, 0x1FF00500) ∷ []))
Lifetime-IsTransport_example =
    Lifetime-IsTransport idle-IsTransport (binds starts 6 (some 4) true rebound _ rebinds)
