-- ===== src/Smp/Can/Reassembler/RoundTrip.antt =====
-- smp_can_framer.cpp against smp_can_reassembler.cpp: the frames of a packet, received in order, give
-- the packet back.
use rt_core.Prelude.{
  ℕ, zero, suc, ◌+◌, ◌-◌, ◌≤◌, ◌<◌, ◌≡◌, refl, sym, ap, subst, ◌∙◌, true, false, List, [], ◌∷◌,
  ◌++◌, arith, dec_lt, length, take, drop, replicate, append-nil, bit_and,
}
use rt_core.Prelude.Bits.{and-low_mask}
use rt_core.Smp.Header.{SmpHeader}
use rt_core.Smp.Can.FrameFormat.{
  get_frame_size, get_data_size, get_padded_size, get_data_size_pos, get_padded_size_full,
  get_padded_size_bounds,
}
use rt_core.Smp.Can.Framer.{
  Framer, make_framer, is_done, current_data_size, control_byte, frame_data, encode, advance,
  frames, sequence_mask,
}
use rt_core.Smp.Can.Framer.Frames.{control_byte_fields, length-frame_data}
use rt_core.Smp.Can.Reassembler.{
  Reassembler, Result, in_progress, complete, dropped, ignored, reset, copy_in, append, accept_data,
  accept,
}
use rt_core.Smp.Can.Reassembler.Data.{IsPacket, Holds, append_middle, append_last}

-- The frames of a list, accepted one after the other, the `k`-th at its time of arrival.
pub feed : Reassembler → (ℕ → ℕ) → ℕ → List (List ℕ) → Reassembler × List Result
feed r at k [] = (r, [])
feed r at k (frame ∷ rest) =
    let (r', result) = accept r frame (at k) in
    let (r'', results) = feed r' at (suc k) rest in (r'', result ∷ results)

-- Every frame but the last left the packet in progress, and the last one completed it.
abbrev pub Delivered : List ℕ → Reassembler → List Result → Type 0
Delivered p r [] = ⊥
Delivered p r (complete ∷ []) = (take r.length_ r.buffer ≡ p) × (r.is_active ≡ false)
Delivered p r (complete ∷ _ ∷ _) = ⊥
Delivered p r (in_progress ∷ results) = Delivered p r results
Delivered p r (dropped ∷ _) = ⊥
Delivered p r (ignored ∷ _) = ⊥

-- The framer that has sent what the reassembler has received.
abbrev sender : List ℕ → Reassembler → Framer
sender p r = record {
  packet = p;
  format = r.format;
  offset = r.length_;
  sequence = r.next_sequence;
}

encode_frame : (f : Framer) → f.offset < length f.packet → encode f ≡ control_byte f ∷ frame_data f
unfolding encode
encode_frame f h = ground arith

frame_fits : (f : Framer) → length (control_byte f ∷ frame_data f) ≤ get_frame_size f.format
unfolding current_data_size
frame_fits f = omega (
  arith,
  length-frame_data f,
  get_data_size_pos f.format,
  get_padded_size_bounds f.format (current_data_size f + 1)
      (omega (arith, get_data_size_pos f.format)),
)

-- A frame of the sender of `r`, while the packet is in progress and has not timed out.
accept_next :
    (p : List ℕ) (r : Reassembler) (now : ℕ)
    → 0 < r.length_
    → r.length_ < length p
    → r.is_active ≡ true
    → r.next_sequence < 128
    → now ≤ r.last_frame_ms + r.timeout_ms
    → accept r (encode (sender p r)) now
      ≡ accept_data r r.next_sequence now (frame_data (sender p r))
unfolding accept
accept_next p r now pos more active s t =
    rw (encode_frame (sender p r) more)
      (ground (arith, frame_fits (sender p r), control_byte_fields (sender p r) s))

-- The first frame of a packet starts afresh, whatever was in progress.
accept_first :
    (p : List ℕ) (r : Reassembler) (now : ℕ)
    → 0 < length p
    → accept r (encode (make_framer p r.format)) now
      ≡ accept_data
          (record (reset r) { is_active = true })
          0
          now
          (frame_data (make_framer p r.format))
unfolding accept make_framer
accept_first p r now pos =
    let f : Framer = record { packet = p; format = r.format; offset = 0; sequence = 0 } in
    rw (encode_frame f pos) (ground (arith, frame_fits f, control_byte_fields f (omega arith)))

-- A sender that has sent everything makes no more frames.
frames_done : (fuel : ℕ) (f : Framer) → length f.packet ≤ f.offset → frames fuel f ≡ []
unfolding frames is_done
frames_done zero f h = refl
frames_done (suc fuel) f h = ground arith

frames_more :
    (fuel : ℕ) (f : Framer)
    → f.offset < length f.packet
    → frames (suc fuel) f ≡ encode f ∷ frames fuel (advance f)
unfolding frames is_done
frames_more fuel f h = ground arith

frame_data_of :
    (f : Framer) (d : ℕ)
    → current_data_size f ≡ d
    → frame_data f
      ≡ take d (drop f.offset f.packet) ++ replicate (get_padded_size f.format (d + 1) - (1 + d)) 0
unfolding frame_data
frame_data_of f d e =
    ap
      (λ (t : ℕ).
        take t (drop f.offset f.packet) ++ replicate (get_padded_size f.format (t + 1) - (1 + t)) 0)
      e

frame_data_full :
    (f : Framer)
    → f.offset + get_data_size f.format < length f.packet
    → frame_data f ≡ take (get_data_size f.format) (drop f.offset f.packet)
unfolding current_data_size
frame_data_full f h =
    let d = get_data_size f.format in
    let none_left : get_padded_size f.format (d + 1) - (1 + d) ≡ 0 =
      omega (arith, get_padded_size_full f.format) in
    frame_data_of f d (omega arith)
    ∙ ap (λ (t : ℕ). take d (drop f.offset f.packet) ++ replicate t 0) none_left
    ∙ append-nil _

advance_by :
    (f : Framer) (d : ℕ)
    → f.offset < length f.packet
    → current_data_size f ≡ d
    → advance f
      ≡ record f { offset = f.offset + d; sequence = bit_and (f.sequence + 1) sequence_mask }
unfolding advance
advance_by f d h e = ground arith

-- What a list of results and a list of frames still to come amount to.
abbrev Goes : List ℕ → (ℕ → ℕ) → ℕ → Reassembler × Result → List (List ℕ) → Type 0
Goes p at k (r, result) rest =
    let (r', results) = feed r at (suc k) rest in Delivered p r' (result ∷ results)

-- The reassembler as the sequence check leaves it, before the data of the frame goes in.
abbrev checked : Reassembler → ℕ → Reassembler
checked r now = record r {
  last_frame_ms = now;
  next_sequence = bit_and (r.next_sequence + 1) sequence_mask;
}

checked-Holds : (p : List ℕ) (r : Reassembler) (now : ℕ) → Holds p r → Holds p (checked r now)
checked-Holds p r now v = record {
  active = v.active;
  prefix = v.prefix;
  room = v.room;
  size = v.size;
}

module _ (p : List ℕ) (h : SmpHeader) (v : IsPacket p h) (at : ℕ → ℕ) where
  -- The last frame completes the packet, and the sender is done.
  last_step :
      (r : Reassembler) (now fuel : ℕ)
      → Holds p r
      → r.length_ < length p
      → length p ≤ r.length_ + get_data_size r.format
      → (r' : Reassembler) × (append (checked r now) (frame_data (sender p r)) ≡ (r', complete))
        × (frames fuel (advance (sender p r)) ≡ [])
        × (take r'.length_ r'.buffer ≡ p)
        × (r'.is_active ≡ false)
  last_step r now fuel holds more last =
      let d : ℕ = length p - r.length_ in
      let size : current_data_size (sender p r) ≡ d = unfold current_data_size in omega arith in
      let (e, whole) =
        append_last p h v (checked r now) d (checked-Holds p r now holds) (omega arith)
          (omega arith) (omega arith) in
      (
        _,
        ap (append (checked r now)) (frame_data_of (sender p r) d size) ∙ e,
        frames_done fuel (advance (sender p r))
            (rw (advance_by (sender p r) d more size) (omega arith)),
        whole,
        refl,
      )

  deliver_last :
      (fuel : ℕ) (r : Reassembler) (k : ℕ)
      → Holds p r
      → r.length_ < length p
      → length p ≤ r.length_ + get_data_size r.format
      → Goes p at k
          (append (checked r (at k)) (frame_data (sender p r)))
          (frames fuel (advance (sender p r)))
  unfolding feed
  deliver_last fuel r k holds more last =
      let (r', e, done, whole, idle) = last_step r (at k) fuel holds more last in
      rw (e, done) (whole, idle)

  -- A frame in the middle leaves the reassembler with the sender one frame further.
  middle_step :
      (r : Reassembler) (now : ℕ)
      → Holds p r
      → r.length_ + get_data_size r.format < length p
      → (r' : Reassembler) × (append (checked r now) (frame_data (sender p r)) ≡ (r', in_progress))
        × (advance (sender p r) ≡ sender p r')
        × Holds p r'
        × (r'.length_ ≡ r.length_ + get_data_size r.format)
        × (r'.last_frame_ms ≡ now)
        × (r'.timeout_ms ≡ r.timeout_ms)
        × (r'.next_sequence < 128)
  unfolding copy_in
  middle_step r now holds l =
      let size : current_data_size (sender p r) ≡ get_data_size r.format =
        unfold current_data_size in omega arith in
      let (e, holds') = append_middle p h v (checked r now) (checked-Holds p r now holds) l in
      (
        _,
        ap (append (checked r now)) (frame_data_full (sender p r) l) ∙ e,
        advance_by (sender p r) _ (omega arith) size,
        holds',
        refl,
        refl,
        refl,
        omega (arith, and-low_mask 7 (r.next_sequence + 1)),
      )

module _ (p : List ℕ) (h : SmpHeader) (v : IsPacket p h) (at : ℕ → ℕ) (timeout : ℕ)
    (paced : (k : ℕ) → at (suc k) ≤ at k + timeout) where
  deliver :
      (fuel : ℕ) (r : Reassembler) (k : ℕ)
      → Holds p r
      → r.length_ < length p
      → length p ≤ r.length_ + fuel + 1
      → r.timeout_ms ≡ timeout
      → Goes p at k
          (append (checked r (at k)) (frame_data (sender p r)))
          (frames fuel (advance (sender p r)))
  unfolding feed accept_data
  deliver zero r k holds more enough t =
      deliver_last p h v at zero r k holds more (omega (arith, get_data_size_pos r.format))
  deliver (suc fuel) r k holds more enough t =
      elim (dec_lt (r.length_ + get_data_size r.format) (length p)) [
        | no last ↦ deliver_last p h v at (suc fuel) r k holds more (omega arith)
        | yes middle ↦
            let (r', e, a, holds', len, time, limit, s) =
              middle_step p h v at r (at k) holds middle in
            let more' : r'.length_ < length p = omega arith in
            let pos : 0 < r'.length_ = omega (arith, get_data_size_pos r.format) in
            let next =
              accept_next p r' (at (suc k)) pos more' holds'.active s (omega (arith, paced k)) in
            let ih =
              deliver fuel r' (suc k) holds' more' (omega (arith, get_data_size_pos r.format))
                (limit ∙ t) in
            let step : Goes p at (suc k) (accept r' (encode (sender p r')) (at (suc k)))
                (frames fuel (advance (sender p r'))) =
              subst (λ x. Goes p at (suc k) x (frames fuel (advance (sender p r')))) (sym next)
                ih in
            let more_frames = ap (frames (suc fuel)) a ∙ frames_more fuel (sender p r') more' in
            subst (λ x. Goes p at k x (frames (suc fuel) (advance (sender p r)))) (sym e)
              (subst (λ fs. Goes p at k (r', in_progress) fs) (sym more_frames) step)
      ]

  -- The frames of a packet, as the framer makes them, received in order and none later than the
  -- timeout after the one before: every frame but the last leaves the packet in progress, the last one
  -- completes it, and the buffer then starts with the packet. It does not matter what was in progress
  -- before, nor whether the frames are classic or CAN FD; the buffer has to have room for the packet.
  pub feed-frames :
      (r : Reassembler) (k fuel : ℕ)
      → length p ≤ length r.buffer
      → r.timeout_ms ≡ timeout
      → length p ≤ fuel
      → let (r', results) = feed r at k (frames fuel (make_framer p r.format)) in
        Delivered p r' results
  unfolding feed make_framer reset accept_data
  feed-frames r k zero room t enough = absurd (omega (arith, v.has_header))
  feed-frames r k (suc fuel) room t enough =
      let first = record (reset r) { is_active = true } in
      let f = sender p first in
      let pos : 0 < length p = omega (arith, v.has_header) in
      let start : Holds p first = record {
        active = refl;
        prefix = refl;
        room = room;
        size = refl;
      } in
      let go = deliver fuel first k start pos (omega arith) t in
      let step : Goes p at k (accept r (encode f) (at k)) (frames fuel (advance f)) =
        subst (λ x. Goes p at k x (frames fuel (advance f))) (sym (accept_first p r (at k) pos))
          go in
      subst (λ fs. let (r', results) = feed r at k fs in Delivered p r' results)
        (sym (frames_more fuel f pos)) step
