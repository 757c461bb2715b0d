-- ===== src/Smp/Can/Reassembler/Invariant.antt =====
-- smp_can_reassembler.cpp: what holds of a reassembler whatever frames reach it.
use rt_core.Prelude.{
  ℕ, ◌+◌, ◌-◌, ◌≤◌, ◌<◌, ◌≡◌, refl, sym, ap, ◌∙◌, ◌⊎◌, inl, inr, min, true, false, some, List, [],
  ◌∷◌, arith, length, take, drop, write_at, append-nil, length-take, length-write_at, Bool-cases,
  take-take, take-append-drop, take-write_at, Option-cases, leb, ltb, ◌&&◌, ◌||◌, ◌==◌, ◌!=◌,
  if◌then◌else◌, bit_and,
}
use rt_core.Prelude.Bits.{and-low_mask}
use rt_core.Smp.Header.{SmpHeader, parse, get_packet_size}
use rt_core.Smp.Header.RoundTrip.{parse-append}
use rt_core.Smp.Can.FrameFormat.{FrameFormat, get_frame_size, get_data_size, get_padded_size}
use rt_core.Smp.Can.Framer.{sequence_mask}
use rt_core.Smp.Can.Reassembler.{
  Reassembler, Result, in_progress, complete, ignored, dropped, reset, is_expired, drop_packet,
  is_start_frame, read_packet_size, finish_frame, copy_in, append, accept_data, accept_sequence,
  accept_fresh, accept, attach,
}

-- The header of the packet in progress, once it is read.
pub record Header (r : Reassembler) : Type 0 where
  pub header : SmpHeader
  pub parsed : parse (take r.length_ r.buffer) ≡ some header
  pub size : get_packet_size header ≡ r.packet_size
  pub received : 8 ≤ r.length_
  pub fits : r.packet_size ≤ length r.buffer

pub record IsReassembler (r : Reassembler) : Type 0 where
  pub within : r.length_ ≤ length r.buffer
  pub sequence_fits : r.next_sequence < 128
  pub sized : (r.packet_size ≡ 0) ⊎ Header r

-- A completed packet: whole, within the buffer, and as long as its own header says.
pub record Completed (r : Reassembler) : Type 0 where
  pub header : SmpHeader
  pub parsed : parse (take r.length_ r.buffer) ≡ some header
  pub exact : get_packet_size header ≡ r.length_
  pub within : r.length_ ≤ length r.buffer

-- What a result says of the reassembler: nothing is in progress unless it says so.
abbrev pub Says : Reassembler → Result → Type 0
Says r ignored = r.is_active ≡ false
Says r in_progress = r.is_active ≡ true
Says r complete = Completed r × (r.is_active ≡ false)
Says r dropped = r.is_active ≡ false

pub record Outcome (old r : Reassembler) (result : Result) : Type 0 where
  pub valid : IsReassembler r
  pub same_buffer : length r.buffer ≡ length old.buffer
  pub says : Says r result

parse_longer :
    (m n : ℕ) (xs : List ℕ) → 8 ≤ m → m ≤ n → m ≤ length xs → parse (take n xs) ≡ parse (take m xs)
parse_longer m n xs h k l =
    ap parse (sym (take-append-drop m (take n xs)))
    ∙ parse-append (take m (take n xs)) (drop m (take n xs))
        (omega (arith, length-take m (take n xs), length-take n xs))
    ∙ ap parse (take-take m n xs k)

pub reset-IsReassembler : (r : Reassembler) → IsReassembler (reset r)
unfolding reset
reset-IsReassembler r = record {
  within = omega arith;
  sequence_fits = omega arith;
  sized = inl refl;
}

drop_packet-Outcome :
    (old r : Reassembler)
    → length r.buffer ≡ length old.buffer
    → Outcome old (drop_packet r).0 (drop_packet r).1
unfolding drop_packet
drop_packet-Outcome old r e = record {
  valid = reset-IsReassembler r;
  same_buffer = unfold reset in e;
  says = unfold reset in refl;
}

copy_in-IsReassembler :
    (r : Reassembler) (bytes : List ℕ) → IsReassembler r → IsReassembler (copy_in r bytes)
unfolding copy_in
copy_in-IsReassembler r bytes v = record {
  within = omega (arith, v.within, length-write_at r.length_ (take c bytes) r.buffer);
  sequence_fits = v.sequence_fits;
  sized = header v.sized;
}
  where
    c : ℕ
    c = min (length bytes) (length r.buffer - r.length_)

    same : take r.length_ (write_at r.length_ (take c bytes) r.buffer) ≡ take r.length_ r.buffer
    same =
        let e : r.length_ ≡ r.length_ + 0 = omega arith in
        ap (λ (t : ℕ). take t (write_at r.length_ (take c bytes) r.buffer)) e
        ∙ take-write_at r.length_ 0 (take c bytes) r.buffer (omega arith) (omega (arith, v.within))
        ∙ append-nil _

    header :
        (r.packet_size ≡ 0) ⊎ Header r
        → ((copy_in r bytes).packet_size ≡ 0) ⊎ Header (copy_in r bytes)
    header (inl e) = inl e
    header (inr k) = inr (record {
      header = k.header;
      parsed =
          parse_longer r.length_ (r.length_ + c) (write_at r.length_ (take c bytes) r.buffer)
            k.received (omega arith)
            (omega (arith, v.within, length-write_at r.length_ (take c bytes) r.buffer))
          ∙ ap parse same
          ∙ k.parsed;
      size = k.size;
      received = omega (arith, k.received);
      fits = omega (arith, k.fits, length-write_at r.length_ (take c bytes) r.buffer);
    })

packet_size-ge : (h : SmpHeader) → 8 ≤ get_packet_size h
unfolding get_packet_size
packet_size-ge h = omega arith

-- Reading the header changes nothing, or finds a header whose packet fits the buffer.
read_cases :
    (r : Reassembler) {r' : Reassembler}
    → read_packet_size r ≡ some r'
    → (r' ≡ r)
      ⊎ ((h : SmpHeader) × (parse (take r.length_ r.buffer) ≡ some h)
          × (8 ≤ r.length_)
          × (get_packet_size h ≤ length r.buffer)
          × (r' ≡ record r { packet_size = get_packet_size h }))
unfolding read_packet_size
read_cases r {r'} e = elim (Bool-cases (r.packet_size == 0 && leb 8 r.length_)) [
  | inr skip ↦ inl (ground arith)
  | inl read ↦ elim (Option-cases (parse (take r.length_ r.buffer))) [
    | inl missing ↦ absurd (ground arith)
    | inr (h, parsed) ↦ inr (h, parsed, ground arith, ground arith, ground arith)
  ]
]

pub record Same (r r' : Reassembler) : Type 0 where
  pub valid : IsReassembler r'
  pub buffer : r'.buffer ≡ r.buffer
  pub active : r'.is_active ≡ r.is_active

read_packet_size-Same :
    (r : Reassembler) {r' : Reassembler}
    → IsReassembler r
    → read_packet_size r ≡ some r'
    → Same r r'
read_packet_size-Same r v e = elim (read_cases r e) [
  | inl same ↦ rw same (record { valid = v; buffer = refl; active = refl })
  | inr (h, parsed, received, fits, new) ↦ rw new (record {
    valid = record {
      within = v.within;
      sequence_fits = v.sequence_fits;
      sized =
          inr
            (record { header = h; parsed = parsed; size = refl; received = received; fits = fits });
    };
    buffer = refl;
    active = refl;
  })
]

finish_frame-Outcome :
    (old r : Reassembler) (start copied size : ℕ)
    → IsReassembler r
    → length r.buffer ≡ length old.buffer
    → r.is_active ≡ true
    → let (r', result) = finish_frame r start copied size in Outcome old r' result
unfolding finish_frame
finish_frame-Outcome old r start copied size v e active =
    elim (Bool-cases (r.packet_size == 0 || ltb r.length_ r.packet_size)) [
      | inl more ↦
          rw more (elim (Bool-cases (ltb size (get_data_size r.format) || ltb copied size)) [
            | inl short ↦ rw short (drop_packet-Outcome old r e)
            | inr full ↦ rw full (record { valid = v; same_buffer = e; says = active })
          ])
      | inr all ↦
          rw all
            (elim (Bool-cases (get_padded_size r.format (r.packet_size - start + 1) != size + 1)) [
              | inl short ↦ rw short (drop_packet-Outcome old r e)
              | inr full ↦ rw full (completes v.sized all)
            ])
    ]
  where
    completes :
        (r.packet_size ≡ 0) ⊎ Header r
        → (r.packet_size == 0 || ltb r.length_ r.packet_size) ≡ false
        → Outcome old (record r { length_ = r.packet_size; is_active = false }) complete
    completes (inl e) all = absurd (ground arith)
    completes (inr k) all =
        let size_ge : 8 ≤ r.packet_size = omega (arith, packet_size-ge k.header, k.size) in
        let short : r.packet_size ≤ r.length_ = ground arith in
        let parsed : parse (take r.packet_size r.buffer) ≡ some k.header =
          sym (parse_longer r.packet_size r.length_ r.buffer size_ge short k.fits) ∙ k.parsed in
        record {
          valid = record {
            within = k.fits;
            sequence_fits = v.sequence_fits;
            sized = inr (record {
              header = k.header;
              parsed = parsed;
              size = k.size;
              received = size_ge;
              fits = k.fits;
            });
          };
          same_buffer = e;
          says = (
            record { header = k.header; parsed = parsed; exact = k.size; within = k.fits },
            refl,
          );
        }

append-Outcome :
    (old r : Reassembler) (bytes : List ℕ)
    → IsReassembler r
    → length r.buffer ≡ length old.buffer
    → r.is_active ≡ true
    → let (r', result) = append r bytes in Outcome old r' result
unfolding append
append-Outcome old r [] v e active = drop_packet-Outcome old r e
append-Outcome old r (b ∷ bytes) v e active =
    elim (Option-cases (read_packet_size (copy_in r (b ∷ bytes)))) [
      | inl fails ↦ rw (fails, append) (drop_packet-Outcome old (copy_in r (b ∷ bytes)) keeps)
      | inr (r', reads) ↦
          let same = read_packet_size-Same _ (copy_in-IsReassembler r (b ∷ bytes) v) reads in
          rw (reads, append)
            (finish_frame-Outcome old r' r.length_ _ _ same.valid (ap length same.buffer ∙ keeps)
              (same.active ∙ unfold copy_in in active))
    ]
  where
    keeps : length (copy_in r (b ∷ bytes)).buffer ≡ length old.buffer
    keeps = unfold copy_in in (length-write_at r.length_ _ r.buffer ∙ e)

accept_data-Outcome :
    (old r : Reassembler) (sequence now : ℕ) (bytes : List ℕ)
    → IsReassembler r
    → length r.buffer ≡ length old.buffer
    → r.is_active ≡ true
    → let (r', result) = accept_data r sequence now bytes in Outcome old r' result
unfolding accept_data
accept_data-Outcome old r sequence now bytes v e active =
    append-Outcome old _ bytes
      (record {
        within = v.within;
        sequence_fits = omega (arith, and-low_mask 7 (sequence + 1));
        sized = kept v.sized;
      })
      e active
  where
    kept :
        (r.packet_size ≡ 0) ⊎ Header r
        → (r.packet_size ≡ 0)
          ⊎ Header (record r {
            last_frame_ms = now;
            next_sequence = bit_and (sequence + 1) sequence_mask;
          })
    kept (inl e) = inl e
    kept (inr k) = inr (record {
      header = k.header;
      parsed = k.parsed;
      size = k.size;
      received = k.received;
      fits = k.fits;
    })

becomes :
    {old : Reassembler} {x y : Reassembler × Result}
    → x ≡ y
    → Outcome old y.0 y.1
    → Outcome old x.0 x.1
becomes e h = rw e h

-- A frame that is ignored, and one that restarts.
ignored-Outcome :
    (old r : Reassembler)
    → IsReassembler r
    → length r.buffer ≡ length old.buffer
    → r.is_active ≡ false
    → Outcome old r ignored
ignored-Outcome old r v e idle = record { valid = v; same_buffer = e; says = idle }

started : (r : Reassembler) → IsReassembler (record (reset r) { is_active = true })
unfolding reset
started r = record { within = omega arith; sequence_fits = omega arith; sized = inl refl }

accept_sequence-Outcome :
    (old r : Reassembler) (control : ℕ) (bytes : List ℕ) (now : ℕ)
    → IsReassembler r
    → length r.buffer ≡ length old.buffer
    → let (r', result) = accept_sequence r (control ∷ bytes) now in Outcome old r' result
unfolding accept_sequence
accept_sequence-Outcome old r control bytes now v e =
    let sequence = bit_and control sequence_mask in
    elim (Bool-cases (is_start_frame (control ∷ bytes))) [
      | inl start ↦ elim (Bool-cases (sequence != 0)) [
        | inl bad ↦
            rw (start, bad, accept_sequence) (drop_packet-Outcome old (reset r) (unfold reset in e))
        | inr zero_th ↦
            rw (start, zero_th, accept_sequence)
              (accept_data-Outcome old (record (reset r) { is_active = true }) sequence now bytes
                (started r) (unfold reset in e) refl)
      ]
      | inr continues ↦ elim (Bool-cases r.is_active) [
        | inr idle ↦ becomes (ground arith) (ignored-Outcome old r v e idle)
        | inl active ↦ elim (Bool-cases (sequence != r.next_sequence)) [
          | inl gap ↦ becomes (ground arith) (drop_packet-Outcome old r e)
          | inr follows ↦
              becomes (ground arith) (accept_data-Outcome old r sequence now bytes v e active)
        ]
      ]
    ]

accept_fresh-Outcome :
    (old r : Reassembler) (frame : List ℕ) (now : ℕ)
    → IsReassembler r
    → length r.buffer ≡ length old.buffer
    → let (r', result) = accept_fresh r frame now in Outcome old r' result
unfolding accept_fresh
accept_fresh-Outcome old r [] now v e = elim (Bool-cases r.is_active) [
  | inl active ↦ becomes (ground arith) (drop_packet-Outcome old r e)
  | inr idle ↦ becomes (ground arith) (ignored-Outcome old r v e idle)
]
accept_fresh-Outcome old r (control ∷ bytes) now v e =
    elim (Bool-cases (ltb (get_frame_size r.format) (length (control ∷ bytes)))) [
      | inr fits ↦ becomes (ground arith) (accept_sequence-Outcome old r control bytes now v e)
      | inl long ↦ elim (Bool-cases r.is_active) [
        | inl active ↦ becomes (ground arith) (drop_packet-Outcome old r e)
        | inr idle ↦ becomes (ground arith) (ignored-Outcome old r v e idle)
      ]
    ]

-- Whatever bytes a frame has and whenever it comes: the reassembler stays within its buffer, a packet
-- that it completes is as long as the packet's own header says, and a packet is in progress
-- afterwards exactly when the result says so.
pub accept-Outcome :
    (r : Reassembler) (frame : List ℕ) (now : ℕ)
    → IsReassembler r
    → let (r', result) = accept r frame now in Outcome r r' result
unfolding accept
accept-Outcome r frame now v = elim (Bool-cases (is_expired r now)) [
  | inl late ↦
      becomes (ap (λ x. accept_fresh (if x then reset r else r) frame now) late)
        (accept_fresh-Outcome r (reset r) frame now (reset-IsReassembler r) (unfold reset in refl))
  | inr live ↦
      becomes (ap (λ x. accept_fresh (if x then reset r else r) frame now) live)
        (accept_fresh-Outcome r r frame now v refl)
]

-- An attached buffer starts with the invariant.
pub attach-IsReassembler :
    (r : Reassembler) (buffer : List ℕ) (format : FrameFormat)
    → IsReassembler (attach r buffer format)
unfolding attach
attach-IsReassembler r buffer format =
    reset-IsReassembler (record r { buffer = buffer; format = format })
