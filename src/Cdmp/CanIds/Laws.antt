-- ===== src/Cdmp/CanIds/Laws.antt =====
-- cdmp_can_id_manager.h: the CDMP identifiers are standard ones, and what the receive filter accepts.
use rt_core.Prelude.{ℕ, ◌+◌, ◌/◌, ◌%◌, ◌≤◌, ◌<◌, ◌≡◌, ◌↔◌, some, true, false, arith, bit_and}
use rt_core.Prelude.Bits.{and-low_mask, and-high_mask}
use rt_core.Canbus.Filter.{CanId, CanFilter, standard, matches, masked}
use rt_core.Canbus.Filter.Laws.{matches_iff}
use rt_core.Cdmp.CanIds.{
  CanIdManager, get_receive_filter, get_state_change_response_can_id, get_capability_can_id,
  is_valid_base_can_id,
}

block :
    (base id : ℕ)
    → base ≤ 1948
    → base % 8 ≡ 0
    → id < 2048
    → (bit_and id 0x7F8 ≡ bit_and base 0x7F8) ↔ ((base ≤ id) × (id < base + 8))
block base id h a w =
    let i = and-high_mask 3 255 id in
    let b = and-high_mask 3 255 base in
    let i' = and-low_mask 8 (id / 8) in
    let b' = and-low_mask 8 (base / 8) in
    (
      (λ e. (omega (arith, i, b, i', b'), omega (arith, i, b, i', b'))),
      (λ k. omega (arith, i, b, i', b', k.0, k.1)),
    )

-- With a base that is a multiple of 8, the one receive filter accepts exactly the standard
-- identifiers from the base to 7 above it, whichever identifier it is asked for.
pub receive_filter_block :
    (m : CanIdManager) (asked c : CanId)
    → is_valid_base_can_id m.base_can_id ≡ true
    → m.base_can_id % 8 ≡ 0
    → c.id < 2048
    → (matches (get_receive_filter m asked) c ≡ true)
      ↔ ((c.is_extended ≡ false) × (m.base_can_id ≤ c.id) × (c.id < m.base_can_id + 8))
unfolding get_receive_filter masked standard is_valid_base_can_id
receive_filter_block m asked c v aligned w =
    let f : CanFilter = record { id = m.base_can_id; mask = 0x7F8; is_extended = false } in
    let e : get_receive_filter m asked ≡ f = ground arith in
    let (forth, back) = matches_iff f c in
    let iff : (bit_and c.id 0x7F8 ≡ bit_and m.base_can_id 0x7F8)
        ↔ ((m.base_can_id ≤ c.id) × (c.id < m.base_can_id + 8)) =
      block m.base_can_id c.id (ground arith) aligned w in
    rw e (
      (λ h. let (t, k) = forth h in (t, (iff.0 k).0, (iff.0 k).1)),
      (λ h. back (h.0, iff.1 (h.1, h.2))),
    )

-- Under a valid base a capability's identifier exists for bits 0 to 31 at most, fits 11 bits, lies
-- above the identifier of the state change response, and belongs to no other bit.
pub capability_ids :
    (m : CanIdManager) (i j : ℕ) {c : CanId}
    → is_valid_base_can_id m.base_can_id ≡ true
    → get_capability_can_id m i ≡ some c
    → get_capability_can_id m j ≡ some c
    → (i ≤ 31) × (c.id < 2048) × ((get_state_change_response_can_id m).id < c.id) × (i ≡ j)
unfolding get_capability_can_id get_state_change_response_can_id standard is_valid_base_can_id
capability_ids m i j {c} v e e' = (ground arith, ground arith, ground arith, ground arith)
