-- ===== src/Cdmp/Heartbeat/Heard.antt =====
-- cdmp_heartbeat_service.cpp: a heartbeat that one unit sends reaches another unit's table.
use mathlib.Core.List.{append_assoc}
use rt_core.Prelude.{
  ℕ, ◌+◌, ◌/◌, ◌%◌, ◌<◌, ◌≡◌, refl, sym, ap, subst, ◌∙◌, true, Option, none, some, List, [], ◌∷◌,
  ◌++◌, length, append-nil, arith,
}
use rt_core.Cdmp.Messages.Codec.{Decoded, message, invalid, out_of_bounds}
use rt_core.Cdmp.Messages.Network.{Heartbeat, heartbeat_to_frame}
use rt_core.Cdmp.Messages.Network.RoundTrip.{heartbeat_round_trip}
use rt_core.Cdmp.Network.Service.{OwnDevice, NetworkService, update_device_from_heartbeat}
use rt_core.Cdmp.Heartbeat.{HeartbeatService, process_periodic_heartbeat, process_heartbeat_frame}

frame-Heard :
    (h : Heartbeat) (rest : List ℕ) (now : ℕ) (peer : NetworkService)
    → h.features < 65536
    → process_heartbeat_frame now (heartbeat_to_frame h ++ rest) peer
      ≡ some (update_device_from_heartbeat now h peer)
unfolding process_heartbeat_frame
frame-Heard h rest now peer l = ap result (heartbeat_round_trip h rest l)
  where
    result : Decoded Heartbeat → Option NetworkService
    result d = elim d [
      | message m ↦ some (update_device_from_heartbeat now m peer)
      | invalid ↦ some peer
      | out_of_bounds ↦ none
    ]

-- What the unit is when the task runs: the unit, its health and the digest of its state.
pub record Beat : Type 0 where
  pub unit : OwnDevice
  pub health : ℕ
  pub digest : ℕ

-- Runs of the task, one after the other.
unfoldable pub run_all : List Beat → HeartbeatService → HeartbeatService
run_all [] s = s
run_all (b ∷ bs) s = run_all bs (process_periodic_heartbeat b.unit b.health b.digest s)

-- The bytes of a heartbeat with this sequence number.
abbrev pub beat_bytes : ℕ → Beat → List ℕ
beat_bytes number b =
    b.unit.device_id
    ∷ b.health
    ∷ number
    ∷ b.unit.features % 256
    ∷ b.unit.features / 256 % 256
    ∷ 0
    ∷ 0
    ∷ b.digest
    ∷ []

-- What a peer is to read from it.
abbrev pub beat_heartbeat : ℕ → Beat → Heartbeat
beat_heartbeat number b = record {
  device_id = b.unit.device_id;
  health_status = b.health;
  sequence_number = number;
  features = b.unit.features;
  state_digest = b.digest;
}

beat-Heard :
    (number : ℕ) (b : Beat) (rest : List ℕ) (now : ℕ) (peer : NetworkService)
    → b.unit.features < 65536
    → process_heartbeat_frame now (beat_bytes number b ++ rest) peer
      ≡ some (update_device_from_heartbeat now (beat_heartbeat number b) peer)
unfolding heartbeat_to_frame
beat-Heard number b rest now peer l = frame-Heard (beat_heartbeat number b) rest now peer l

-- One frame for each run, numbered on from `number` modulo 256, that the peer reads as it was meant.
pub data HeardEach (rest : List ℕ) (now : ℕ) (peer : NetworkService)
    : ℕ → List Beat → List (List ℕ) → Type 0 where
  silent : {number : ℕ} → HeardEach rest now peer number [] []
  heard :
      {number : ℕ} {b : Beat} {bs : List Beat} {frames : List (List ℕ)}
      → (process_heartbeat_frame now (beat_bytes number b ++ rest) peer
          ≡ some (update_device_from_heartbeat now (beat_heartbeat number b) peer))
      → HeardEach rest now peer ((number + 1) % 256) bs frames
      → HeardEach rest now peer number (b ∷ bs) (beat_bytes number b ∷ frames)

-- The delay after the last run.
abbrev pub delay_after : List Beat → Option ℕ → Option ℕ
delay_after [] delay = delay
delay_after (b ∷ bs) delay = delay_after bs (some (3000 + b.unit.staggered_message_delay))

pub record Heard (rest : List ℕ) (now : ℕ) (peer : NetworkService) (bs : List Beat)
    (s t : HeartbeatService) : Type 0 where
  pub frames : List (List ℕ)
  pub sends : t.sent ≡ s.sent ++ frames
  pub each : HeardEach rest now peer s.sequence_number bs frames
  pub number : t.sequence_number ≡ (s.sequence_number + length bs) % 256
  pub delay : t.task_delay ≡ delay_after bs s.task_delay

-- Every feature mask has 16 bits.
abbrev pub AllMasks : List Beat → Type 0
AllMasks [] = Unit
AllMasks (b ∷ bs) = (b.unit.features < 65536) × AllMasks bs

one_run :
    (b : Beat) (s : HeartbeatService)
    → s.enabled ≡ true
    → s.has_bus ≡ true
    → process_periodic_heartbeat b.unit b.health b.digest s ≡ record s {
      sent = s.sent ++ beat_bytes s.sequence_number b ∷ [];
      sequence_number = (s.sequence_number + 1) % 256;
      task_delay = some (3000 + b.unit.staggered_message_delay);
    }
unfolding process_periodic_heartbeat
one_run b s on bus = ground arith

-- Any runs of the task of a unit with heartbeats enabled, a bus and feature masks of 16 bits, whatever
-- the unit, its health and its digest are at each: each run sends one frame, and from each of these, with
-- anything after its 8 bytes, a peer updates its table by the identifier, health, features and digest that
-- the unit had and by the sequence number, which goes up by one modulo 256 from run to run; the task is
-- due 3 s and the unit's own offset after the last run.
pub run_all-Heard :
    (bs : List Beat) (s : HeartbeatService) (rest : List ℕ) (now : ℕ) (peer : NetworkService)
    → s.enabled ≡ true
    → s.has_bus ≡ true
    → s.sequence_number < 256
    → AllMasks bs
    → Heard rest now peer bs s (run_all bs s)
unfolding run_all
run_all-Heard [] s rest now peer on bus small masks = record {
  frames = [];
  sends = sym (append-nil s.sent);
  each = silent;
  number = omega arith;
  delay = refl;
}
run_all-Heard (b ∷ bs) s rest now peer on bus small (mask, masks) =
    let frame = beat_bytes s.sequence_number b in
    let next = record s {
      sent = s.sent ++ frame ∷ [];
      sequence_number = (s.sequence_number + 1) % 256;
      task_delay = some (3000 + b.unit.staggered_message_delay);
    } in
    let ih = run_all-Heard bs next rest now peer on bus (omega arith) masks in
    subst (λ t. Heard rest now peer (b ∷ bs) s (run_all bs t)) (sym (one_run b s on bus))
      (record {
        frames = frame ∷ ih.frames;
        sends = ih.sends ∙ append_assoc s.sent (frame ∷ []) ih.frames;
        each = heard (beat-Heard s.sequence_number b rest now peer mask) ih.each;
        number = omega (arith, ih.number);
        delay = ih.delay;
      })
