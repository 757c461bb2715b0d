-- ===== src/Canbus/Filter.antt =====
-- subsys/canbus/can_id.h and can_filter.h. Identifiers and masks are below 2^32.
pub mod Laws
use rt_core.Prelude.{
  ℕ, ◌-◌, Bool, true, false, not, ◌&&◌, ◌==◌, if◌then◌else◌, bit_and, bit_or, bit_xor,
}

-- CAN_STD_ID_MASK and CAN_EXT_ID_MASK of Zephyr's CAN driver API.
abbrev pub std_id_mask : ℕ
std_id_mask = 0x7FF

abbrev pub ext_id_mask : ℕ
ext_id_mask = 0x1FFFFFFF

-- `~x` on 32 bits.
abbrev pub complement32 : ℕ → ℕ
complement32 x = 0xFFFFFFFF - x

pub record CanId : Type 0 where
  pub id : ℕ
  pub is_extended : Bool

unfoldable pub standard : ℕ → CanId
standard id = record { id = id; is_extended = false }

unfoldable pub extended : ℕ → CanId
extended id = record { id = id; is_extended = true }

unfoldable pub width_mask : Bool → ℕ
width_mask is_extended = if is_extended then ext_id_mask else std_id_mask

unfoldable pub is_valid_id : CanId → Bool
unfolding width_mask
is_valid_id c = bit_and c.id (complement32 (width_mask c.is_extended)) == 0

unfoldable pub key : CanId → ℕ
key c = bit_or c.id (if c.is_extended then 0x80000000 else 0)

pub record CanFilter : Type 0 where
  pub id : ℕ
  pub mask : ℕ
  pub is_extended : Bool

-- The constructor from an identifier.
unfoldable pub exact_filter : CanId → CanFilter
unfolding width_mask
exact_filter c = record { id = c.id; mask = width_mask c.is_extended; is_extended = c.is_extended }

unfoldable pub masked : CanId → ℕ → CanFilter
masked c mask = record { id = c.id; mask = mask; is_extended = c.is_extended }

unfoldable pub is_valid_filter : CanFilter → Bool
unfolding width_mask
is_valid_filter f =
    bit_and f.id (complement32 (width_mask f.is_extended)) == 0
    && bit_and f.mask (complement32 (width_mask f.is_extended)) == 0

unfoldable pub is_exact : CanFilter → Bool
unfolding width_mask
is_exact f = f.mask == width_mask f.is_extended

unfoldable pub normalized : CanFilter → CanFilter
normalized f = record f { id = bit_and f.id f.mask }

-- Equality of two flags.
abbrev pub same : Bool → Bool → Bool
same true b = b
same false b = not b

unfoldable pub matches : CanFilter → CanId → Bool
matches f c = same c.is_extended f.is_extended && bit_and (bit_xor c.id f.id) f.mask == 0

unfoldable pub overlaps : CanFilter → CanFilter → Bool
overlaps f other =
    same other.is_extended f.is_extended
    && bit_and (bit_and (bit_xor other.id f.id) f.mask) other.mask == 0
