-- ===== src/Canbus/Signal/RoundTrip.antt =====
-- can_signal_codec.cpp: what Encode() writes, Decode() reads, and the other bits stay.
use rt_core.Prelude.{
  ℕ, ◌/◌, ◌^◌, ◌≤◌, ◌<◌, ◌≡◌, ◌≢◌, refl, sym, ap, subst, ◌∙◌, inl, inr, Bool, true, false, not,
  none, some, List, [], ◌∷◌, length, arith, max, ◌==◌, if◌then◌else◌, Bool-cases,
}
use rt_core.Canbus.Signal.{
  Signal, bit, put_bit, bit_at, put_at, is_layout_valid, signal_bits, read_bits, write_bits,
  decode_raw, encode_raw,
}
use rt_core.Canbus.Signal.Bits.{
  bit-lt, bit-put_bit, bit-put_bit_other, bit-zero, bit-above, same_bits, length-put_at,
  bit_at-put_at, bit_at-put_at_other,
}
use rt_core.Canbus.Signal.Layout.{
  has_frame_bit, has_signal_bit, IsDistinct, signal_bits-IsDistinct, signal_bits-all,
  signal_bits-inside,
}

length-write_bits :
    (ps : List (ℕ × ℕ)) (raw : ℕ) (bytes : List ℕ) → length (write_bits ps raw bytes) ≡ length bytes
unfolding write_bits
length-write_bits [] raw bytes = refl
length-write_bits ((p, k) ∷ ps) raw bytes =
    length-write_bits ps raw (put_at p (bit k raw) bytes) ∙ length-put_at p (bit k raw) bytes

write-other :
    (ps : List (ℕ × ℕ)) (raw : ℕ) (bytes : List ℕ) (q : ℕ)
    → has_frame_bit q ps ≡ false
    → bit_at (write_bits ps raw bytes) q ≡ bit_at bytes q
unfolding write_bits has_frame_bit
write-other [] raw bytes q h = refl
write-other ((p, k) ∷ ps) raw bytes q h =
    write-other ps raw (put_at p (bit k raw) bytes) q (ground arith)
    ∙ bit_at-put_at_other p q (bit k raw) bytes (bit-lt k raw) (λ e. ground arith)

-- The bits of `raw` stand in `bytes`.
unfoldable IsWritten : List (ℕ × ℕ) → ℕ → List ℕ → Type 0
IsWritten [] raw bytes = Unit
IsWritten ((p, k) ∷ ps) raw bytes = (bit_at bytes p ≡ bit k raw) × IsWritten ps raw bytes

write-IsWritten :
    (ps : List (ℕ × ℕ)) (raw : ℕ) (bytes : List ℕ)
    → IsDistinct ps
    → ((q : ℕ) → has_frame_bit q ps ≡ true → q / 8 < length bytes)
    → IsWritten ps raw (write_bits ps raw bytes)
unfolding IsWritten IsDistinct write_bits has_frame_bit
write-IsWritten [] raw bytes d inside = tt
write-IsWritten ((p, k) ∷ ps) raw bytes (new, other, d) inside =
    let first = put_at p (bit k raw) bytes in
    let here : has_frame_bit p ((p, k) ∷ ps) ≡ true = ground arith in
    (
      write-other ps raw first p new
          ∙ bit_at-put_at p (bit k raw) bytes (bit-lt k raw) (inside p here),
      write-IsWritten ps raw first d (λ q m.
          subst (λ n. q / 8 < n) (sym (length-put_at p (bit k raw) bytes))
            (inside q (ground arith))),
    )

-- One round of reading.
abbrev round : ℕ → ℕ → List ℕ → ℕ → ℕ
round p k bytes raw = if bit_at bytes p == 1 then put_bit k 1 raw else raw

round-other :
    (p k : ℕ) (bytes : List ℕ) (raw j : ℕ) → j ≢ k → bit j (round p k bytes raw) ≡ bit j raw
round-other p k bytes raw j ne = elim (Bool-cases (bit_at bytes p == 1)) [
  | inl set ↦
      let e : round p k bytes raw ≡ put_bit k 1 raw = ground arith in
      ap (bit j) e ∙ bit-put_bit_other j k 1 raw (omega arith) ne
  | inr clear ↦ let e : round p k bytes raw ≡ raw = ground arith in ap (bit j) e
]

round-here :
    (p k : ℕ) (bytes : List ℕ) (raw value : ℕ)
    → bit_at bytes p ≡ bit k value
    → bit k raw ≡ 0
    → bit k (round p k bytes raw) ≡ bit k value
round-here p k bytes raw value e z = elim (Bool-cases (bit_at bytes p == 1)) [
  | inl set ↦
      let same : round p k bytes raw ≡ put_bit k 1 raw = ground arith in
      let one : bit_at bytes p ≡ 1 = ground arith in
      ap (bit k) same ∙ bit-put_bit k 1 raw (omega arith) ∙ sym one ∙ e
  | inr clear ↦
      let same : round p k bytes raw ≡ raw = ground arith in
      let small = bit-lt k value in
      let nought : bit k value ≡ 0 = ground arith in ap (bit k) same ∙ z ∙ sym nought
]

read-other :
    (ps : List (ℕ × ℕ)) (bytes : List ℕ) (raw j : ℕ)
    → has_signal_bit j ps ≡ false
    → bit j (read_bits ps bytes raw) ≡ bit j raw
unfolding read_bits has_signal_bit
read-other [] bytes raw j h = refl
read-other ((p, k) ∷ ps) bytes raw j h =
    read-other ps bytes (round p k bytes raw) j (ground arith)
    ∙ round-other p k bytes raw j (λ e. ground arith)

read-written :
    (ps : List (ℕ × ℕ)) (bytes : List ℕ) (value raw : ℕ)
    → IsDistinct ps
    → IsWritten ps value bytes
    → ((j : ℕ) → has_signal_bit j ps ≡ true → bit j raw ≡ 0)
    → (j : ℕ) → has_signal_bit j ps ≡ true
    → bit j (read_bits ps bytes raw) ≡ bit j value
unfolding read_bits has_signal_bit IsDistinct IsWritten
read-written [] bytes value raw d w z j h = absurd (ground arith)
read-written ((p, k) ∷ ps) bytes value raw (new, other, d) (written, w) z j h =
    elim (Bool-cases (k == j)) [
      | inl here ↦
          let e : k ≡ j = ground arith in
          subst (λ i. bit i (read_bits ps bytes (round p k bytes raw)) ≡ bit i value) e
            (read-other ps bytes (round p k bytes raw) k other
              ∙ round-here p k bytes raw value written (z k (ground arith)))
      | inr later ↦
          read-written ps bytes value (round p k bytes raw) d w
            (λ i m. round-other p k bytes raw i (λ e. again i m e) ∙ z i (ground arith)) j
            (ground arith)
    ]
  where
    again : (i : ℕ) → has_signal_bit i ps ≡ true → i ≢ k
    again i m e =
        let n : has_signal_bit k ps ≡ true = subst (λ l. has_signal_bit l ps ≡ true) e m in
        absurd (ground (arith, other))

-- In a frame in which the signal fits, in either byte order: Encode() keeps the length of the data and
-- every bit that is not the signal's, and Decode() then gives back any raw number of the signal's size.
pub decode-encode :
    (s : Signal) (raw : ℕ) (bytes : List ℕ)
    → is_layout_valid s (length bytes) ≡ true
    → raw < 2 ^ s.size_bits
    → (written : List ℕ) × (encode_raw s raw bytes ≡ some written)
      × (length written ≡ length bytes)
      × ((q : ℕ) → has_frame_bit q (signal_bits s) ≡ false → bit_at written q ≡ bit_at bytes q)
      × (decode_raw s written ≡ some raw)
unfolding decode_raw encode_raw
decode-encode s raw bytes v small =
    let ps = signal_bits s in
    let written = write_bits ps raw bytes in
    let kept = length-write_bits ps raw bytes in
    let w =
      write-IsWritten ps raw bytes (signal_bits-IsDistinct s)
        (λ q m. signal_bits-inside s (length bytes) q v m) in
    let valid : is_layout_valid s (length written) ≡ true = ap (is_layout_valid s) kept ∙ v in
    let same : read_bits ps written 0 ≡ raw =
      same_bits (max (read_bits ps written 0) raw) (read_bits ps written 0) raw (omega arith)
        (omega arith)
        (λ j. elim (Bool-cases (has_signal_bit j ps)) [
          | inl mine ↦
              read-written ps written raw 0 (signal_bits-IsDistinct s) w (λ i m. bit-zero i) j mine
          | inr not_mine ↦
              let above : s.size_bits ≤ j = ground (arith, signal_bits-all s j) in
              read-other ps written 0 j not_mine
              ∙ bit-zero j
              ∙ sym (bit-above s.size_bits j raw small above)
        ]) in
    (
      written,
      ground (arith, v),
      kept,
      λ q h. write-other ps raw bytes q h,
      subst (λ (b : Bool). (if not b then none else some (read_bits ps written 0)) ≡ some raw)
          (sym valid) (ap some same),
    )
