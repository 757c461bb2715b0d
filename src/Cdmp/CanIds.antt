-- ===== src/Cdmp/CanIds.antt =====
-- subsys/cdmp/utilities/cdmp_can_id_manager.h: the identifiers of the CDMP frames, at fixed offsets
-- from a base.
pub mod Laws
use rt_core.Prelude.{
  ℕ, ◌+◌, ◌-◌, ◌%◌, Bool, Option, none, some, leb, ltb, ◌!=◌, if◌then◌else◌, bit_and,
}
use rt_core.Canbus.Filter.{
  CanId, CanFilter, standard, std_id_mask, complement32, exact_filter, masked,
}

abbrev pub default_base_can_id : ℕ
default_base_can_id = 0x700

abbrev pub capability_offset_start : ℕ
capability_offset_start = 20

abbrev pub capability_offset_end : ℕ
capability_offset_end = 51

abbrev pub application_offset_end : ℕ
application_offset_end = 99

abbrev pub receive_block_size : ℕ
receive_block_size = 8

pub record CanIdManager : Type 0 where
  pub base_can_id : ℕ

unfoldable pub is_valid_base_can_id : ℕ → Bool
is_valid_base_can_id base_can_id = leb base_can_id (std_id_mask - application_offset_end)

-- The manager after SetBaseCanId(); `none` is std::invalid_argument, and the old base is kept.
unfoldable pub set_base_can_id : CanIdManager → ℕ → Option CanIdManager
unfolding is_valid_base_can_id
set_base_can_id m base_can_id =
    if is_valid_base_can_id base_can_id then some (record m { base_can_id = base_can_id }) else none

-- The constructor.
unfoldable pub make_can_id_manager : ℕ → Option CanIdManager
unfolding set_base_can_id
make_can_id_manager base_can_id =
    set_base_can_id (record { base_can_id = default_base_can_id }) base_can_id

unfoldable pub get_management_can_id : CanIdManager → CanId
get_management_can_id m = standard (m.base_can_id + 0)

unfoldable pub get_heartbeat_can_id : CanIdManager → CanId
get_heartbeat_can_id m = standard (m.base_can_id + 1)

unfoldable pub get_command_request_can_id : CanIdManager → CanId
get_command_request_can_id m = standard (m.base_can_id + 2)

unfoldable pub get_command_response_can_id : CanIdManager → CanId
get_command_response_can_id m = standard (m.base_can_id + 3)

unfoldable pub get_state_change_request_can_id : CanIdManager → CanId
get_state_change_request_can_id m = standard (m.base_can_id + 4)

unfoldable pub get_state_change_response_can_id : CanIdManager → CanId
get_state_change_response_can_id m = standard (m.base_can_id + 5)

unfoldable pub get_capability_can_id : CanIdManager → ℕ → Option CanId
get_capability_can_id m capability_bit =
    if ltb (capability_offset_end - capability_offset_start) capability_bit
    then none
    else some (standard (m.base_can_id + capability_offset_start + capability_bit))

unfoldable pub get_receive_filter : CanIdManager → CanId → CanFilter
get_receive_filter m can_id =
    if m.base_can_id % receive_block_size != 0
    then exact_filter can_id
    else masked (standard m.base_can_id)
        (bit_and std_id_mask (complement32 (receive_block_size - 1)))
