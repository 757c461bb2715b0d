-- ===== src/Smp/Can/IdLayout.antt =====
-- subsys/smp/can/smp_can_id_layout.h: 29-bit identifiers, `base | target << 8 | source`.
use rt_core.Prelude.{
  ℕ, ◌+◌, ◌*◌, ◌/◌, ◌%◌, ◌<◌, ◌≡◌, Bool, true, ◌&&◌, Option, none, some, arith, ◌==◌, ◌!=◌,
  if◌then◌else◌, bit_and, bit_or,
}
use rt_core.Prelude.Bits.{shr, shl, u8, high-or-low, and-low_mask, and-high_mask}

abbrev pub id_mask : ℕ
id_mask = 0x1FFFFFFF

abbrev pub address_mask : ℕ
address_mask = 0xFFFF

-- `ID_MASK & ~0xFF`.
abbrev pub target_filter_mask : ℕ
target_filter_mask = 0x1FFFFF00

-- `~ID_MASK` on 32 bits.
abbrev not_id_mask : ℕ
not_id_mask = 0xE0000000

-- `~ADDRESS_MASK` on 32 bits.
abbrev not_address_mask : ℕ
not_address_mask = 0xFFFF0000

unfoldable pub is_valid_base : ℕ → Bool
is_valid_base base = bit_and base not_id_mask == 0 && bit_and base address_mask == 0

unfoldable pub is_valid_address : ℕ → Bool
is_valid_address address = address != 0x00 && address != 0xFF

pub record IdLayout : Type 0 where
  pub base : ℕ

-- The constructor; `none` is std::invalid_argument.
unfoldable pub make_layout : ℕ → Option IdLayout
unfolding is_valid_base
make_layout base = if is_valid_base base then some (record { base = base }) else none

unfoldable pub make_id : IdLayout → ℕ → ℕ → ℕ
make_id l target source = bit_or (bit_or l.base (shl target 8)) source

unfoldable pub get_target_filter_id : IdLayout → ℕ → ℕ
unfolding make_id
get_target_filter_id l target = make_id l target 0

unfoldable pub contains : IdLayout → ℕ → Bool
contains l id =
    bit_and (bit_and id id_mask) not_address_mask == l.base && bit_and id not_id_mask == 0

unfoldable pub get_target : ℕ → ℕ
get_target id = u8 (shr id 8)

unfoldable pub get_source : ℕ → ℕ
get_source id = u8 id

-- A layout's base is a multiple of 2^16 below 2^29.
abbrev pub IsLayout : IdLayout → Type 0
IsLayout l = (l.base % 65536 ≡ 0) × (l.base < 536870912)

pub make_layout-IsLayout :
    (base : ℕ) {l : IdLayout} → base < 4294967296 → make_layout base ≡ some l → IsLayout l
unfolding make_layout
make_layout-IsLayout base {l} w h =
    ground (arith, and-low_mask 16 base, and-high_mask 29 7 base, and-low_mask 3 (base / 536870912))

make_id_sum :
    (l : IdLayout) (target source : ℕ)
    → IsLayout l
    → target < 256
    → source < 256
    → make_id l target source ≡ l.base + target * 256 + source
unfolding make_id
make_id_sum l target source v t s =
    let base = high-or-low 16 (l.base / 65536) (target * 256) (omega arith) in
    let e : l.base / 65536 * 65536 ≡ l.base = omega arith in
    let e' : (l.base + target * 256) / 256 * 256 ≡ l.base + target * 256 = omega arith in
    let inner : bit_or l.base (target * 256) ≡ l.base + target * 256 = rw e at base in
    rw inner (rw e' at (high-or-low 8 ((l.base + target * 256) / 256) source s))

-- Under a valid base the identifier of a frame fits 29 bits, belongs to the base, and gives its
-- target and its source back.
pub make_id_fields :
    (l : IdLayout) (target source : ℕ)
    → IsLayout l
    → target < 256
    → source < 256
    → (make_id l target source < 536870912)
      × (contains l (make_id l target source) ≡ true)
      × (get_target (make_id l target source) ≡ target)
      × (get_source (make_id l target source) ≡ source)
unfolding contains get_target get_source
make_id_fields l target source v t s =
    let id = make_id l target source in
    let e = make_id_sum l target source v t s in
    ground (
      arith,
      e,
      and-low_mask 29 id,
      and-high_mask 16 65535 id,
      and-high_mask 29 7 id,
      and-low_mask 16 (id / 65536),
      and-low_mask 3 (id / 536870912),
    )

-- Under a valid base an identifier agrees with the filter of a target under TARGET_FILTER_MASK, and has
-- no bit above 29, exactly when it belongs to the base and names the target, from any source.
pub target_filter_exact :
    (l : IdLayout) (target id : ℕ)
    → IsLayout l
    → target < 256
    → id < 4294967296
    → (bit_and id target_filter_mask == bit_and (get_target_filter_id l target) target_filter_mask
        && bit_and id not_id_mask == 0)
      ≡ (contains l id && get_target id == target)
unfolding contains get_target get_target_filter_id
target_filter_exact l target id v t w =
    let e = make_id_sum l target 0 v t (omega arith) in
    let m = and-high_mask 8 0x1FFFFF id in
    let m' = and-high_mask 8 0x1FFFFF (make_id l target 0) in
    ground (
      arith,
      e,
      m,
      m',
      and-low_mask 21 (id / 256),
      and-low_mask 21 (make_id l target 0 / 256),
      and-low_mask 29 id,
      and-high_mask 16 65535 (bit_and id 0x1FFFFFFF),
      and-low_mask 16 (bit_and id 0x1FFFFFFF / 65536),
      and-high_mask 29 7 id,
      and-low_mask 3 (id / 536870912),
    )
