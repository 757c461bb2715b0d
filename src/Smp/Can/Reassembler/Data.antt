-- ===== src/Smp/Can/Reassembler/Data.antt =====
-- smp_can_reassembler.cpp, Append(): the data of one frame that the framer made.
use rt_core.Prelude.{
  ℕ, ◌+◌, ◌-◌, ◌≤◌, ◌<◌, ◌≡◌, refl, sym, ap, ◌∙◌, subst, ◌≢◌, ◌⊎◌, inl, inr, min, true, false, some,
  List, [], ◌∷◌, ◌++◌, arith, dec_lt, length, take, drop, replicate, write_at, leb, if◌then◌else◌,
  length-append, length-take, length-drop, length-replicate, length-write_at, take-all,
  take-append-drop, take-append, take-take, take-length_add, take-write_at,
}
use rt_core.Smp.Header.{SmpHeader, parse, get_packet_size}
use rt_core.Smp.Header.RoundTrip.{parse-append}
use rt_core.Smp.Can.FrameFormat.{
  get_data_size, get_padded_size, get_data_size_pos, get_padded_size_bounds,
}
use rt_core.Smp.Can.Reassembler.{
  Reassembler, in_progress, complete, read_packet_size, finish_frame, copy_in, append,
}

-- The packet that is sent, with the header that it starts with.
pub record IsPacket (p : List ℕ) (h : SmpHeader) : Type 0 where
  pub parses : parse p ≡ some h
  pub whole : get_packet_size h ≡ length p
  pub has_header : 8 ≤ length p

-- The packet size that is known once `n` bytes are there.
abbrev pub known_size : List ℕ → ℕ → ℕ
known_size p n = if leb 8 n then length p else 0

-- The bytes received so far are the first ones of the packet.
pub record Holds (p : List ℕ) (r : Reassembler) : Type 0 where
  pub active : r.is_active ≡ true
  pub prefix : take r.length_ r.buffer ≡ take r.length_ p
  pub room : length p ≤ length r.buffer
  pub size : r.packet_size ≡ known_size p r.length_

parse-take :
    (p q : List ℕ) (m n : ℕ) {h : SmpHeader}
    → parse p ≡ some h
    → 8 ≤ m
    → m ≤ n
    → 8 ≤ length q
    → take m q ≡ take m p
    → 8 ≤ length p
    → parse (take n q) ≡ some h
parse-take p q m n {h} e l k lq t lp =
    sym (cut (take n q) (omega (arith, length-take n q)))
    ∙ ap parse (take-take m n q k ∙ t)
    ∙ cut p lp
    ∙ e
  where
    cut : (xs : List ℕ) → 8 ≤ length xs → parse (take m xs) ≡ parse xs
    cut xs g =
        sym (parse-append (take m xs) (drop m xs) (omega (arith, length-take m xs)))
        ∙ ap parse (take-append-drop m xs)

-- The header is read from the buffer once it is complete, and the packet fits.
read_packet_size_lem :
    (p : List ℕ) (h : SmpHeader) (r : Reassembler)
    → IsPacket p h
    → length p ≤ length r.buffer
    → (8 ≤ r.length_ → parse (take r.length_ r.buffer) ≡ some h)
    → (r.packet_size ≡ 0) ⊎ (r.packet_size ≡ known_size p r.length_)
    → read_packet_size r ≡ some (record r { packet_size = known_size p r.length_ })
unfolding read_packet_size
read_packet_size_lem p h r v room parses s = elim (dec_lt r.length_ 8) [
  | yes l ↦ ground arith
  | no l ↦ ground (arith, parses (omega arith))
]

finish_middle :
    (r : Reassembler) (start copied size : ℕ)
    → (r.packet_size ≡ 0) ⊎ (r.length_ < r.packet_size)
    → get_data_size r.format ≤ size
    → size ≤ copied
    → finish_frame r start copied size ≡ (r, in_progress)
unfolding finish_frame
finish_middle r start copied size h k l = ground arith

finish_last :
    (r : Reassembler) (start copied size : ℕ)
    → r.packet_size ≢ 0
    → r.packet_size ≤ r.length_
    → get_padded_size r.format (r.packet_size - start + 1) ≡ size + 1
    → finish_frame r start copied size
      ≡ (record r { length_ = r.packet_size; is_active = false }, complete)
unfolding finish_frame
finish_last r start copied size h k l = ground arith

known_size-grows :
    (p : List ℕ) (m n s : ℕ) → m ≤ n → s ≡ known_size p m → (s ≡ 0) ⊎ (s ≡ known_size p n)
known_size-grows p m n s h e = ground arith

known_size-below : (p : List ℕ) (n : ℕ) → n < length p → (known_size p n ≡ 0) ⊎ (n < known_size p n)
known_size-below p n h = ground arith

known_size-all : (p : List ℕ) (n : ℕ) → 8 ≤ length p → length p ≤ n → known_size p n ≡ length p
known_size-all p n h k = ground arith

append_lem :
    (r r' : Reassembler) (bytes : List ℕ)
    → 0 < length bytes
    → read_packet_size (copy_in r bytes) ≡ some r'
    → append r bytes
      ≡ finish_frame r' r.length_ (min (length bytes) (length r.buffer - r.length_)) (length bytes)
unfolding append
append_lem r r' [] pos e = absurd (omega arith)
append_lem r r' (b ∷ bytes) pos e = ground arith

module _ (p : List ℕ) (h : SmpHeader) (v : IsPacket p h) where
  -- The first bytes of a frame's data go behind the bytes received.
  copy_in_prefix :
      (r : Reassembler) (bytes : List ℕ) (k : ℕ)
      → Holds p r
      → k ≤ length bytes
      → r.length_ + k ≤ length p
      → take k bytes ≡ take k (drop r.length_ p)
      → take (r.length_ + k) (copy_in r bytes).buffer ≡ take (r.length_ + k) p
  unfolding copy_in
  copy_in_prefix r bytes k holds l fits e =
      take-write_at r.length_ k (take c bytes) r.buffer
        (omega (arith, length-take c bytes, holds.room)) (omega (arith, holds.room))
      ∙ rw (take-take k c bytes (omega (arith, holds.room)), e, holds.prefix)
          (sym (take-length_add r.length_ k p))
    where
      c : ℕ
      c = min (length bytes) (length r.buffer - r.length_)

  -- So Append() goes on to the check of the frame, with the packet's size known if 8 bytes are there.
  append-finish_frame :
      (r : Reassembler) (bytes : List ℕ) (k : ℕ)
      → Holds p r
      → 0 < length bytes
      → k ≤ length bytes
      → (k ≡ length bytes) ⊎ (r.length_ + k ≡ length p)
      → r.length_ + k ≤ length p
      → take k bytes ≡ take k (drop r.length_ p)
      → let n = r.length_ + min (length bytes) (length r.buffer - r.length_) in
        append r bytes
        ≡ finish_frame
            (record (copy_in r bytes) { packet_size = known_size p n })
            r.length_
            (min (length bytes) (length r.buffer - r.length_))
            (length bytes)
  unfolding copy_in
  append-finish_frame r bytes k holds pos l full fits e = append_lem r _ bytes pos (
      read_packet_size_lem p h (copy_in r bytes) v
        (omega (arith, holds.room, length-write_at r.length_ (take c bytes) r.buffer)) parses
        (known_size-grows p r.length_ (r.length_ + c) r.packet_size (omega arith) holds.size))
    where
      c : ℕ
      c = min (length bytes) (length r.buffer - r.length_)

      parses :
          8 ≤ r.length_ + c
          → parse (take (r.length_ + c) (write_at r.length_ (take c bytes) r.buffer)) ≡ some h
      parses g =
          parse-take p _ (r.length_ + k) (r.length_ + c) v.parses
            (omega (arith, full, holds.room, v.has_header)) (omega (arith, holds.room))
            (omega
              (arith, holds.room, v.has_header, length-write_at r.length_ (take c bytes) r.buffer))
            (copy_in_prefix r bytes k holds l fits e) v.has_header

  -- A full frame that is not the last: its data goes in, and the packet stays in progress.
  pub append_middle :
      (r : Reassembler)
      → Holds p r
      → r.length_ + get_data_size r.format < length p
      → let bytes = take (get_data_size r.format) (drop r.length_ p) in
        let n = r.length_ + get_data_size r.format in
        let r' = record (copy_in r bytes) { length_ = n; packet_size = known_size p n } in
        (append r bytes ≡ (r', in_progress)) × Holds p r'
  unfolding copy_in
  append_middle r holds l = (
    append-finish_frame r bytes ds holds (omega (arith, len, get_data_size_pos r.format))
          (omega (arith, len)) (inl (omega (arith, len))) (omega arith) refl'
        ∙ finish_middle _ r.length_ c (length bytes) known (omega (arith, len))
            (omega (arith, len, holds.room))
        ∙ (λ i. (
          record (copy_in r bytes) { length_ = all i; packet_size = known_size p (all i) },
          in_progress,
        )),
    record {
      active = holds.active;
      prefix = copy_in_prefix r bytes ds holds (omega (arith, len)) (omega arith) refl';
      room = omega (arith, holds.room, length-write_at r.length_ (take c bytes) r.buffer);
      size = refl;
    },
  )
    where
      ds : ℕ
      ds = get_data_size r.format

      bytes : List ℕ
      bytes = take ds (drop r.length_ p)

      c : ℕ
      c = min (length bytes) (length r.buffer - r.length_)

      len : length bytes ≡ ds
      len = omega (arith, length-take ds (drop r.length_ p), length-drop r.length_ p)

      all : r.length_ + c ≡ r.length_ + ds
      all = omega (arith, len, holds.room)

      refl' : take ds bytes ≡ take ds (drop r.length_ p)
      refl' = take-take ds ds (drop r.length_ p) (omega arith)

      known : (known_size p (r.length_ + c) ≡ 0) ⊎ (r.length_ + c < known_size p (r.length_ + c))
      known = known_size-below p (r.length_ + c) (omega (arith, l, all))

  -- The last frame, padding included: its data goes in, and the packet is complete.
  pub append_last :
      (r : Reassembler) (d : ℕ)
      → Holds p r
      → r.length_ + d ≡ length p
      → 0 < d
      → d ≤ get_data_size r.format
      → let bytes =
          take d (drop r.length_ p) ++ replicate (get_padded_size r.format (d + 1) - (1 + d)) 0 in
        let r' = record (copy_in r bytes) {
          length_ = length p;
          packet_size = length p;
          is_active = false;
        } in
        (append r bytes ≡ (r', complete)) × (take (length p) r'.buffer ≡ p)
  unfolding copy_in
  append_last r d holds e pos l = (
    append-finish_frame r bytes d holds (omega (arith, len)) (omega (arith, len)) (inr e)
          (omega (arith, e)) front
        ∙ finish_last _ r.length_ c (length bytes) (omega (arith, all, v.has_header))
            (omega (arith, all, more)) padded
        ∙ (λ i. (
          record (copy_in r bytes) { length_ = all i; packet_size = all i; is_active = false },
          complete,
        )),
    whole,
  )
    where
      pad : ℕ
      pad = get_padded_size r.format (d + 1) - (1 + d)

      bytes : List ℕ
      bytes = take d (drop r.length_ p) ++ replicate pad 0

      c : ℕ
      c = min (length bytes) (length r.buffer - r.length_)

      given : length (take d (drop r.length_ p)) ≡ d
      given = omega (arith, e, length-take d (drop r.length_ p), length-drop r.length_ p)

      len : length bytes ≡ d + pad
      len = omega (
        arith,
        given,
        length-append (take d (drop r.length_ p)) (replicate {A = ℕ} pad 0),
        length-replicate {A = ℕ} pad 0,
      )

      more : length p ≤ r.length_ + c
      more = omega (arith, len, e, holds.room)

      all : known_size p (r.length_ + c) ≡ length p
      all = known_size-all p (r.length_ + c) v.has_header more

      front : take d bytes ≡ take d (drop r.length_ p)
      front =
          take-append d (take d (drop r.length_ p)) (replicate pad 0) (omega (arith, given))
          ∙ take-take d d (drop r.length_ p) (omega arith)

      padded :
          get_padded_size r.format (known_size p (r.length_ + c) - r.length_ + 1) ≡ length bytes + 1
      padded =
          let rest : known_size p (r.length_ + c) - r.length_ ≡ d = omega (arith, all, e) in
          ap (λ (t : ℕ). get_padded_size r.format (t + 1)) rest
          ∙ omega (
            arith,
            len,
            get_padded_size_bounds r.format (d + 1) (omega (arith, l, get_data_size_pos r.format)),
          )

      whole : take (length p) (write_at r.length_ (take c bytes) r.buffer) ≡ p
      whole =
          subst (λ t. take t (write_at r.length_ (take c bytes) r.buffer) ≡ take t p) e
            (copy_in_prefix r bytes d holds (omega (arith, len)) (omega (arith, e)) front)
          ∙ take-all (length p) p (omega arith)
