-- ===== src/Canbus/Filter/Laws.antt =====
-- can_id.h and can_filter.h: which identifiers a filter accepts.
use rt_core.Prelude.{◌/◌, ◌≤◌, ◌<◌, ◌≡◌, ◌↔◌, refl, true, arith, bit_and}
use rt_core.Prelude.Bits.{and-low_mask, and-high_mask, xor-and_zero_iff, low-or-high, bit_or-zero}
use rt_core.Canbus.Filter.{CanId, CanFilter, is_valid_id, key, exact_filter, matches, width_mask}

-- A valid identifier fits the width of its format.
pub is_valid_id-width :
    (c : CanId) → c.id < 4294967296 → is_valid_id c ≡ true → c.id ≤ width_mask c.is_extended
unfolding is_valid_id
is_valid_id-width c w h = ground (
  arith,
  and-high_mask 11 0x1FFFFF c.id,
  and-low_mask 21 (c.id / 2048),
  and-high_mask 29 7 c.id,
  and-low_mask 3 (c.id / 536870912),
)

-- The key tells apart any two valid identifiers, of either format.
pub key_injective :
    (c d : CanId)
    → c.id < 4294967296
    → d.id < 4294967296
    → is_valid_id c ≡ true
    → is_valid_id d ≡ true
    → key c ≡ key d
    → c ≡ d
unfolding key width_mask
key_injective c d w x v u e = ground (
  arith,
  is_valid_id-width c w v,
  is_valid_id-width d x u,
  low-or-high 31 1 c.id,
  low-or-high 31 1 d.id,
  bit_or-zero c.id,
  bit_or-zero d.id,
)

-- A filter accepts an identifier exactly when the formats agree and the bits under the mask do.
pub matches_iff :
    (f : CanFilter) (c : CanId)
    → (matches f c ≡ true)
      ↔ ((c.is_extended ≡ f.is_extended) × (bit_and c.id f.mask ≡ bit_and f.id f.mask))
unfolding matches
matches_iff f c =
    let (forth, back) = xor-and_zero_iff c.id f.id f.mask in
    ((λ h. (ground arith, forth (ground arith))), (λ h. ground (arith, back h.1)))

-- The exact filter of a valid identifier accepts no other valid identifier.
pub exact_filter_exact :
    (c d : CanId)
    → c.id < 4294967296
    → d.id < 4294967296
    → is_valid_id c ≡ true
    → is_valid_id d ≡ true
    → (matches (exact_filter c) d ≡ true) ↔ (d ≡ c)
unfolding exact_filter
exact_filter_exact c d w x v u =
    let iff = matches_iff (exact_filter c) d in
    ((λ h. forth (iff.0 h)), (λ e. iff.1 (rw e (refl, refl))))
  where
    forth :
        (d.is_extended ≡ c.is_extended)
          × (bit_and d.id (width_mask c.is_extended) ≡ bit_and c.id (width_mask c.is_extended))
        → d ≡ c
    forth h =
        unfold width_mask in
        ground (
          arith,
          is_valid_id-width c w v,
          is_valid_id-width d x u,
          and-low_mask 11 c.id,
          and-low_mask 11 d.id,
          and-low_mask 29 c.id,
          and-low_mask 29 d.id,
        )
