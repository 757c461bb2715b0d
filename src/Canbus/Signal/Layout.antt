-- ===== src/Canbus/Signal/Layout.antt =====
-- can_signal_codec.cpp: the bits of a signal lie within the frame, and no two are the same.
use rt_core.Prelude.{
  ℕ, zero, suc, ◌+◌, ◌-◌, ◌*◌, ◌/◌, ◌%◌, ◌≤◌, ◌<◌, ◌≡◌, refl, inl, inr, Bool, true, false, not,
  ◌&&◌, ◌||◌, List, [], ◌∷◌, arith, ltb, leb, ◌==◌, if◌then◌else◌, Bool-cases, ltb→lt,
}
use rt_core.Canbus.Signal.{
  Signal, ByteOrder, little_endian_intel, big_endian_motorola, get_last_byte_index,
  max_signal_size_bits, is_layout_valid, intel_bits, motorola_next, motorola_bits, signal_bits,
}

unfoldable pub has_frame_bit : ℕ → List (ℕ × ℕ) → Bool
has_frame_bit q [] = false
has_frame_bit q ((p, k) ∷ ps) = p == q || has_frame_bit q ps

unfoldable pub has_signal_bit : ℕ → List (ℕ × ℕ) → Bool
has_signal_bit j [] = false
has_signal_bit j ((p, k) ∷ ps) = k == j || has_signal_bit j ps

-- No frame bit and no signal bit comes twice.
unfoldable pub IsDistinct : List (ℕ × ℕ) → Type 0
IsDistinct [] = Unit
IsDistinct ((p, k) ∷ ps) =
    (has_frame_bit p ps ≡ false) × (has_signal_bit k ps ≡ false) × IsDistinct ps

intel-frame :
    (start i n q : ℕ)
    → has_frame_bit q (intel_bits start i n) ≡ true
    → start + i ≤ q × q < start + i + n
unfolding has_frame_bit intel_bits
intel-frame start i zero q h = absurd (ground arith)
intel-frame start i (suc n) q h = elim (Bool-cases (start + i == q)) [
  | inl here ↦ (ground arith, ground arith)
  | inr later ↦
      let (low, high) = intel-frame start (i + 1) n q (ground arith) in (omega arith, omega arith)
]

intel-signal :
    (start i n j : ℕ) → has_signal_bit j (intel_bits start i n) ≡ (leb i j && ltb j (i + n))
unfolding has_signal_bit intel_bits
intel-signal start i zero j = ground arith
intel-signal start i (suc n) j = ground (arith, intel-signal start (i + 1) n j)

intel-IsDistinct : (start i n : ℕ) → IsDistinct (intel_bits start i n)
unfolding IsDistinct intel_bits
intel-IsDistinct start i zero = tt
intel-IsDistinct start i (suc n) = (
  elim (Bool-cases (has_frame_bit (start + i) (intel_bits start (i + 1) n))) [
    | inl again ↦
        let (low, high) = intel-frame start (i + 1) n (start + i) again in absurd (omega arith)
    | inr new ↦ new
  ],
  ground (arith, intel-signal start (i + 1) n i),
  intel-IsDistinct start (i + 1) n,
)

-- The place of a frame bit in the order in which Motorola signals run.
abbrev place : ℕ → ℕ
place p = p / 8 * 8 + (7 - p % 8)

place-next : (p : ℕ) → place (motorola_next p) ≡ place p + 1
unfolding motorola_next
place-next p = ground arith

motorola-frame :
    (p n q : ℕ)
    → has_frame_bit q (motorola_bits p n) ≡ true
    → place p ≤ place q × place q < place p + n
unfolding has_frame_bit motorola_bits
motorola-frame p zero q h = absurd (ground arith)
motorola-frame p (suc n) q h = elim (Bool-cases (p == q)) [
  | inl here ↦ let e : p ≡ q = ground arith in (omega arith, omega arith)
  | inr later ↦
      let (low, high) = motorola-frame (motorola_next p) n q (ground arith) in
      (omega (arith, low, place-next p), omega (arith, high, place-next p))
]

motorola-signal : (p n j : ℕ) → has_signal_bit j (motorola_bits p n) ≡ ltb j n
unfolding has_signal_bit motorola_bits
motorola-signal p zero j = ground arith
motorola-signal p (suc n) j = ground (arith, motorola-signal (motorola_next p) n j)

motorola-IsDistinct : (p n : ℕ) → IsDistinct (motorola_bits p n)
unfolding IsDistinct motorola_bits
motorola-IsDistinct p zero = tt
motorola-IsDistinct p (suc n) = (
  elim (Bool-cases (has_frame_bit p (motorola_bits (motorola_next p) n))) [
    | inl again ↦
        let (low, high) = motorola-frame (motorola_next p) n p again in
        absurd (omega (arith, low, place-next p))
    | inr new ↦ new
  ],
  ground (arith, motorola-signal (motorola_next p) n n),
  motorola-IsDistinct (motorola_next p) n,
)

pub signal_bits-IsDistinct : (s : Signal) → IsDistinct (signal_bits s)
unfolding signal_bits
signal_bits-IsDistinct s = by_order s.byte_order
  where
    by_order :
        (o : ByteOrder)
        → IsDistinct (elim o [
          | little_endian_intel ↦ intel_bits s.start_bit 0 s.size_bits
          | big_endian_motorola ↦ motorola_bits s.start_bit s.size_bits
        ])
    by_order little_endian_intel = intel-IsDistinct s.start_bit 0 s.size_bits
    by_order big_endian_motorola = motorola-IsDistinct s.start_bit s.size_bits

-- The signal bits are those from 0 to its size.
pub signal_bits-all : (s : Signal) (j : ℕ) → has_signal_bit j (signal_bits s) ≡ ltb j s.size_bits
unfolding signal_bits
signal_bits-all s j = by_order s.byte_order
  where
    by_order :
        (o : ByteOrder)
        → has_signal_bit j (elim o [
          | little_endian_intel ↦ intel_bits s.start_bit 0 s.size_bits
          | big_endian_motorola ↦ motorola_bits s.start_bit s.size_bits
        ])
          ≡ ltb j s.size_bits
    by_order little_endian_intel = ground (arith, intel-signal s.start_bit 0 s.size_bits j)
    by_order big_endian_motorola = motorola-signal s.start_bit s.size_bits j

motorola-last :
    (start size q last : ℕ)
    → place q < place start + size
    → (if leb size (start % 8 + 1) then start / 8 else start / 8 + (size - (start % 8 + 1) + 7) / 8)
      ≡ last
    → q / 8 ≤ last
motorola-last start size q last h e = elim (Bool-cases (leb size (start % 8 + 1))) [
  | inl short ↦
      let few : size ≤ start % 8 + 1 = ground arith in
      let byte : start / 8 ≡ last = ground arith in omega (arith, h, few, byte)
  | inr long ↦
      let many : start % 8 + 1 < size = ground arith in
      let byte : start / 8 + (size - (start % 8 + 1) + 7) / 8 ≡ last = ground arith in
      omega (arith, h, many, byte)
]

-- In a valid layout every bit of the signal lies within the frame, in either byte order.
pub signal_bits-inside :
    (s : Signal) (data_size q : ℕ)
    → is_layout_valid s data_size ≡ true
    → has_frame_bit q (signal_bits s) ≡ true
    → q / 8 < data_size
unfolding is_layout_valid signal_bits get_last_byte_index
signal_bits-inside s data_size q v h = by_order s.byte_order v h
  where
    last_fits : (a b c : Bool) → (a && b && c) ≡ true → c ≡ true
    last_fits true true c e = e
    last_fits true false c e = cc
    last_fits false b c e = cc

    by_order :
        (o : ByteOrder)
        → is_layout_valid (record s { byte_order = o }) data_size ≡ true
        → has_frame_bit q (signal_bits (record s { byte_order = o })) ≡ true
        → q / 8 < data_size
    by_order little_endian_intel v h =
        let (low, high) = intel-frame s.start_bit 0 s.size_bits q h in ground arith
    by_order big_endian_motorola v h =
        let (low, high) = motorola-frame s.start_bit s.size_bits q h in
        let last = get_last_byte_index (record s { byte_order = big_endian_motorola }) in
        let fits : ltb last data_size ≡ true =
          last_fits (not (s.size_bits == 0 || ltb max_signal_size_bits s.size_bits))
            (ltb s.start_bit (data_size * 8)) (ltb last data_size) v in
        let inside : last < data_size = ltb→lt last data_size fits in
        let within = motorola-last s.start_bit s.size_bits q last high refl in
        omega (arith, inside, within)
