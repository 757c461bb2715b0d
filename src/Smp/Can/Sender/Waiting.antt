-- ===== src/Smp/Can/Sender/Waiting.antt =====
-- smp_can_transport.cpp: a plain account of the frames that wait to be sent, and what a round of
-- ProcessTx() does to it.
use rt_core.Prelude.{
  ℕ, zero, suc, ◌+◌, ◌-◌, ◌≤◌, ◌<◌, ◌≡◌, refl, sym, ap, subst, ◌∙◌, inl, inr, true, false, Option,
  none, some, List, [], ◌∷◌, map, arith, length, Bool-cases,
}
use rt_core.Prelude.Bits.{u32}
use rt_core.Smp.Can.FrameFormat.{FrameFormat, get_data_size_pos}
use rt_core.Smp.Can.IdLayout.{IdLayout, make_id}
use rt_core.Smp.Can.Framer.{
  Framer, make_framer, is_done, current_data_size, encode, advance, frames,
}
use rt_core.Smp.Can.Sender.{
  Outgoing, Sender, TxEvent, sent, gave_up, next_packet, give_up, after_sent,
}

-- Packets that wait, each as the events that sending it whole makes.
abbrev pub Waiting : Type 0
Waiting = List (List TxEvent)

-- What one event does to them: the first frame of the first packet goes out, or that packet is
-- given up with all its frames.
pub data Emits : Waiting → TxEvent → Waiting → Type 0 where
  sends :
      (e e' : TxEvent) (es : List TxEvent) (ps : Waiting)
      → Emits ((e ∷ e' ∷ es) ∷ ps) e ((e' ∷ es) ∷ ps)
  sends_last : (e : TxEvent) (ps : Waiting) → Emits ((e ∷ []) ∷ ps) e ps
  gives_up : (es : List TxEvent) (ps : Waiting) → Emits (es ∷ ps) gave_up ps

pub data Drains : Waiting → List TxEvent → Waiting → Type 0 where
  drained : (p : Waiting) → Drains p [] p
  emits :
      {p q r : Waiting} {e : TxEvent} {es : List TxEvent}
      → Emits p e q
      → Drains q es r
      → Drains p (e ∷ es) r

-- The frames of a framer that are still to come.
unfoldable pub frames_left : Framer → List (List ℕ)
unfolding frames
frames_left f = frames (length f.packet) f

unfoldable pub to_events : IdLayout → ℕ → ℕ → List (List ℕ) → List TxEvent
to_events layout address target fs = map (λ bytes. sent (make_id layout target address) bytes) fs

unfoldable pub queue_waiting : FrameFormat → IdLayout → ℕ → List Outgoing → Waiting
unfolding to_events frames_left
queue_waiting format layout address [] = []
queue_waiting format layout address (p ∷ ps) =
    to_events layout address p.target (frames_left (make_framer p.packet format))
    ∷ queue_waiting format layout address ps

-- The abstract view of a sender.
unfoldable pub waiting : FrameFormat → Sender → Waiting
unfolding queue_waiting to_events frames_left
waiting format s = elim s.tx_packet [
  | none ↦ queue_waiting format s.layout s.address s.tx_queue
  | some p ↦
      to_events s.layout s.address p.target (frames_left s.tx_framer)
      ∷ queue_waiting format s.layout s.address s.tx_queue
]

abbrev pub AllFilled : List Outgoing → Type 0
AllFilled [] = Unit
AllFilled (p ∷ ps) = (0 < length p.packet) × AllFilled ps

abbrev pub HasMore : Option Outgoing → Framer → Type 0
HasMore none f = Unit
HasMore (some p) f = f.offset < length f.packet

-- No packet is empty, the one in progress has a frame to come, and the counter fits 32 bits.
pub record IsSender (s : Sender) : Type 0 where
  pub queued : AllFilled s.tx_queue
  pub current : HasMore s.tx_packet s.tx_framer
  pub count_fits : s.tx_dropped < 4294967296

-- Fuel past the end of the packet changes nothing.
frames-suc : (n : ℕ) (f : Framer) → length f.packet - f.offset ≤ n → frames n f ≡ frames (suc n) f
unfolding frames is_done advance current_data_size
frames-suc zero f h = ground arith
frames-suc (suc n) f h = ground (arith, frames-suc n (advance f), get_data_size_pos f.format)

length-advance : (f : Framer) → length (advance f).packet ≡ length f.packet
unfolding advance
length-advance f = ground arith

frames-done : (n : ℕ) (f : Framer) → is_done f ≡ true → frames n f ≡ []
unfolding frames
frames-done zero f e = refl
frames-done (suc n) f e = rw e refl

frames-more :
    (n : ℕ) (f : Framer)
    → length f.packet ≡ n
    → is_done f ≡ false
    → frames n f ≡ encode f ∷ frames n (advance f)
unfolding frames
frames-more zero f l e = absurd (unfold is_done in (ground arith))
frames-more (suc n) f l e = rw e (
    ap (◌∷◌ (encode f)) (
      frames-suc n (advance f)
        (unfold advance is_done current_data_size in (ground (arith, get_data_size_pos f.format)))))

-- A framer that is not done has its next frame first.
frames_left-more :
    (f : Framer) → is_done f ≡ false → frames_left f ≡ encode f ∷ frames_left (advance f)
unfolding frames_left
frames_left-more f e = rw (length-advance f) (frames-more (length f.packet) f refl e)

frames_left-done : (f : Framer) → is_done f ≡ true → frames_left f ≡ []
unfolding frames_left
frames_left-done f e = frames-done (length f.packet) f e

-- Taking the next packet from the queue changes nothing that waits.
pub record Taken (format : FrameFormat) (s : Sender) (p : Outgoing) (t : Sender) : Type 0 where
  pub keeps : waiting format s ≡ waiting format t
  pub holds : t.tx_packet ≡ some p
  pub more : is_done t.tx_framer ≡ false
  pub valid : IsSender t

pub next_packet-Taken :
    (format : FrameFormat) (s t : Sender) {p : Outgoing}
    → IsSender s
    → next_packet format s ≡ some (p, t)
    → Taken format s p t
unfolding next_packet waiting queue_waiting make_framer is_done
next_packet-Taken format s t {p} v e = record {
  keeps = ground arith;
  holds = ground arith;
  more = ground arith;
  valid = record { queued = ground arith; current = ground arith; count_fits = ground arith };
}

abbrev pub count_gave_up : List TxEvent → ℕ
count_gave_up [] = 0
count_gave_up (sent id bytes ∷ es) = count_gave_up es
count_gave_up (gave_up ∷ es) = suc (count_gave_up es)

unfoldable pub queue_work : List Outgoing → ℕ
queue_work [] = 0
queue_work (p ∷ ps) = suc (length p.packet) + queue_work ps

-- A bound on the rounds of the loop: the bytes that wait, and one for each packet.
unfoldable pub work : Sender → ℕ
unfolding queue_work
work s =
    elim s.tx_packet [ none ↦ 0 | some p ↦ suc (length s.tx_framer.packet - s.tx_framer.offset) ]
    + queue_work s.tx_queue

-- A round that goes on does to the packets what its event says.
pub record Emitted (format : FrameFormat) (s : Sender) (e : TxEvent) (t : Sender) : Type 0 where
  pub step : Emits (waiting format s) e (waiting format t)
  pub valid : IsSender t
  pub less : work t < work s
  pub dropped : t.tx_dropped ≡ u32 (s.tx_dropped + count_gave_up (e ∷ []))

pub next_packet-work :
    (format : FrameFormat) (s t : Sender) {p : Outgoing}
    → next_packet format s ≡ some (p, t)
    → (work t ≡ work s) × (t.tx_dropped ≡ s.tx_dropped)
unfolding next_packet work queue_work make_framer
next_packet-work format s t e = ground arith

pub waiting-some :
    (format : FrameFormat) (s : Sender) (p : Outgoing) {fs : List (List ℕ)}
    → s.tx_packet ≡ some p
    → frames_left s.tx_framer ≡ fs
    → waiting format s
      ≡ to_events s.layout s.address p.target fs
        ∷ queue_waiting format s.layout s.address s.tx_queue
unfolding waiting
waiting-some format s p h e = ground arith

pub waiting-none :
    (format : FrameFormat) (s : Sender)
    → s.tx_packet ≡ none
    → waiting format s ≡ queue_waiting format s.layout s.address s.tx_queue
unfolding waiting
waiting-none format s h = ground arith

pub give_up-Emitted :
    (format : FrameFormat) (s : Sender) (p : Outgoing)
    → s.tx_packet ≡ some p
    → IsSender s
    → Emitted format s gave_up (give_up s)
unfolding give_up waiting work queue_work
give_up-Emitted format s p h v = record {
  step =
      subst (λ w. Emits w gave_up (queue_waiting format s.layout s.address s.tx_queue))
        (sym (waiting-some format s p h refl)) (gives_up _ _);
  valid = record { queued = ground arith; current = ground arith; count_fits = ground arith };
  less = ground arith;
  dropped = ground arith;
}

after_sent-last :
    (format : FrameFormat) (s : Sender) (p : Outgoing)
    → s.tx_packet ≡ some p
    → is_done s.tx_framer ≡ false
    → is_done (advance s.tx_framer) ≡ true
    → Emits
        (waiting format s)
        (sent (make_id s.layout p.target s.address) (encode s.tx_framer))
        (waiting format (after_sent s))
unfolding after_sent to_events
after_sent-last format s p h more last =
    let left = frames_left-more s.tx_framer more in
    let none_left = frames_left-done (advance s.tx_framer) last in
    let before = waiting-some format s p h (left ∙ ap (◌∷◌ (encode s.tx_framer)) none_left) in
    let after = waiting-none format (after_sent s) (ground arith) in
    subst
      (λ w.
        Emits w (sent (make_id s.layout p.target s.address) (encode s.tx_framer))
          (waiting format (after_sent s)))
      (sym before)
      (subst
        (λ w.
          Emits
            ((sent (make_id s.layout p.target s.address) (encode s.tx_framer) ∷ [])
              ∷ queue_waiting format s.layout s.address s.tx_queue)
            (sent (make_id s.layout p.target s.address) (encode s.tx_framer)) w)
        (sym after) (sends_last _ _))

after_sent-more :
    (format : FrameFormat) (s : Sender) (p : Outgoing)
    → s.tx_packet ≡ some p
    → is_done s.tx_framer ≡ false
    → is_done (advance s.tx_framer) ≡ false
    → Emits
        (waiting format s)
        (sent (make_id s.layout p.target s.address) (encode s.tx_framer))
        (waiting format (after_sent s))
unfolding after_sent to_events
after_sent-more format s p h more more' =
    let left = frames_left-more s.tx_framer more in
    let left' = frames_left-more (advance s.tx_framer) more' in
    let before = waiting-some format s p h (left ∙ ap (◌∷◌ (encode s.tx_framer)) left') in
    let after = waiting-some format (after_sent s) p (ground arith) left' in
    subst
      (λ w.
        Emits w (sent (make_id s.layout p.target s.address) (encode s.tx_framer))
          (waiting format (after_sent s)))
      (sym before)
      (subst
        (λ w.
          Emits
            (to_events s.layout s.address p.target (
                encode s.tx_framer
                ∷ encode (advance s.tx_framer)
                ∷ frames_left (advance (advance s.tx_framer)))
              ∷ queue_waiting format s.layout s.address s.tx_queue)
            (sent (make_id s.layout p.target s.address) (encode s.tx_framer)) w)
        (sym after) (sends _ _ _ _))

pub after_sent-Emitted :
    (format : FrameFormat) (s : Sender) (p : Outgoing)
    → s.tx_packet ≡ some p
    → is_done s.tx_framer ≡ false
    → IsSender s
    → Emitted format s
        (sent (make_id s.layout p.target s.address) (encode s.tx_framer))
        (after_sent s)
unfolding after_sent waiting work queue_work is_done advance current_data_size
after_sent-Emitted format s p h more v = record {
  step = elim (Bool-cases (is_done (advance s.tx_framer))) [
    | inl last ↦ after_sent-last format s p h more last
    | inr more' ↦ after_sent-more format s p h more more'
  ];
  valid = record {
    queued = ground arith;
    current = ground (arith, get_data_size_pos s.tx_framer.format);
    count_fits = ground arith;
  };
  less = ground (arith, get_data_size_pos s.tx_framer.format);
  dropped = ground arith;
}
