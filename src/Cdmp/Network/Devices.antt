-- ===== src/Cdmp/Network/Devices.antt =====
-- cdmp_network_service.cpp and cdmp_helpers.h: the table of devices and the pending ID claims. The
-- unordered map is a list with one entry for each identifier; the claims are the array's 8.
pub mod Available
use rt_core.Prelude.{
  ℕ, zero, suc, ◌+◌, ◌-◌, ◌*◌, min, Bool, true, false, not, ◌&&◌, ◌||◌, Option, none, some, List,
  [], ◌∷◌, length, map, ltb, ◌==◌, ◌!=◌, if◌then◌else◌,
}
use rt_core.Prelude.Bits.{u8}
use rt_core.Prelude.Tables.{keep_if, any_of, find_index, modify_at}
use rt_core.Cdmp.Status.{DeviceStatus}
use rt_core.Cdmp.Messages.Network.{IdClaimRequest}

pub record NetworkDevice : Type 0 where
  pub device_id : ℕ
  pub uid : ℕ
  pub features : ℕ
  pub status : DeviceStatus
  pub last_heartbeat : ℕ
  pub is_lowest_id_on_network : Bool
  pub staggered_message_delay : ℕ

-- `device_id` 0, DEVICE_ID_UNASSIGNED, marks a free slot.
pub record PendingIdClaim : Type 0 where
  pub device_id : ℕ
  pub uid : ℕ
  pub claimed_at_ms : ℕ

abbrev pub free_claim : PendingIdClaim
free_claim = record { device_id = 0; uid = 0; claimed_at_ms = 0 }

abbrev pub id_unassigned : ℕ
id_unassigned = 0x00

abbrev pub id_broadcast : ℕ
id_broadcast = 0xFF

abbrev pub heartbeat_timeout_ms : ℕ
heartbeat_timeout_ms = 9000

abbrev pub staggered_message_time_offset_ms : ℕ
staggered_message_time_offset_ms = 5

unfoldable pub is_device : ℕ → NetworkDevice → Bool
is_device id d = d.device_id == id

unfoldable pub has_device : ℕ → List NetworkDevice → Bool
unfolding any_of is_device
has_device id devices = any_of (is_device id) devices

unfoldable pub find_device : ℕ → List NetworkDevice → Option NetworkDevice
find_device id [] = none
find_device id (d ∷ ds) = if d.device_id == id then some d else find_device id ds

unfoldable pub find_device_id_by_uid : ℕ → List NetworkDevice → Option ℕ
find_device_id_by_uid uid [] = none
find_device_id_by_uid uid (d ∷ ds) =
    if d.uid == uid then some d.device_id else find_device_id_by_uid uid ds

unfoldable pub erase_device : ℕ → List NetworkDevice → List NetworkDevice
unfolding keep_if is_device
erase_device id devices = keep_if (λ d. not (is_device id d)) devices

-- The device with an identifier, changed.
unfoldable pub change_device :
    ℕ → (NetworkDevice → NetworkDevice) → List NetworkDevice → List NetworkDevice
change_device id f [] = []
change_device id f (d ∷ ds) = (if d.device_id == id then f d else d) ∷ change_device id f ds

unfoldable pub lowest_id : ℕ → List NetworkDevice → ℕ
lowest_id lowest [] = lowest
lowest_id lowest (d ∷ ds) =
    lowest_id (if ltb d.device_id lowest then min lowest d.device_id else lowest) ds

-- std::set::insert.
unfoldable pub insert_id : ℕ → List ℕ → List ℕ
insert_id id [] = id ∷ []
insert_id id (x ∷ xs) =
    let rest = insert_id id xs in
    if ltb id x then id ∷ x ∷ xs else if id == x then x ∷ xs else x ∷ rest

unfoldable pub id_set : List ℕ → List ℕ
unfolding insert_id
id_set [] = []
id_set (id ∷ ids) = insert_id id (id_set ids)

unfoldable pub staggered_offset : List ℕ → ℕ → ℕ
unfolding id_set insert_id find_index
staggered_offset device_ids device_id =
    let ids = insert_id device_id (id_set device_ids) in
    elim (find_index (λ id. id == device_id) ids) [
      | none ↦ length ids * staggered_message_time_offset_ms
      | some position ↦ position * staggered_message_time_offset_ms
    ]

unfoldable pub device_ids : List NetworkDevice → List ℕ
device_ids devices = map (λ d. d.device_id) devices

-- UpdateLowestIdOnNetwork() and UpdateStaggeredMessageDelay() on the table.
unfoldable pub update_devices : ℕ → List NetworkDevice → List NetworkDevice
unfolding lowest_id staggered_offset device_ids
update_devices own_id devices =
    map
      (λ (d : NetworkDevice). record d {
        is_lowest_id_on_network = d.device_id == lowest_id own_id devices;
        staggered_message_delay = staggered_offset (device_ids devices) d.device_id;
      })
      devices

unfoldable pub expire_claim : ℕ → PendingIdClaim → PendingIdClaim
expire_claim now c =
    if c.device_id != id_unassigned && ltb heartbeat_timeout_ms (now - c.claimed_at_ms)
    then free_claim
    else c

unfoldable pub expire_pending_id_claims : ℕ → List PendingIdClaim → List PendingIdClaim
unfolding expire_claim
expire_pending_id_claims now claims = map (expire_claim now) claims

-- The claims after the expiry, and the position of an identifier's claim.
unfoldable pub find_pending_id_claim : ℕ → ℕ → List PendingIdClaim → List PendingIdClaim × Option ℕ
unfolding expire_pending_id_claims find_index
find_pending_id_claim now id claims =
    let live = expire_pending_id_claims now claims in
    (live, find_index (λ (c : PendingIdClaim). c.device_id == id) live)

-- std::ranges::min_element: the position of the first claim with the smallest time.
unfoldable pub oldest_from : ℕ → ℕ → ℕ → List PendingIdClaim → ℕ
oldest_from best time position [] = best
oldest_from best time position (c ∷ cs) =
    let earlier = ltb c.claimed_at_ms time in
    oldest_from (if earlier then position else best) (if earlier then c.claimed_at_ms else time)
      (position + 1) cs

unfoldable pub oldest_claim : List PendingIdClaim → ℕ
unfolding oldest_from
oldest_claim [] = 0
oldest_claim (c ∷ cs) = oldest_from 0 c.claimed_at_ms 1 cs

-- The slot for a claim: its own, a free one, or the oldest.
unfoldable pub claim_slot : ℕ → ℕ → List PendingIdClaim → ℕ
unfolding find_pending_id_claim oldest_claim
claim_slot now id claims = elim (find_pending_id_claim now id claims).1 [
  | some i ↦ i
  | none ↦ elim (find_pending_id_claim now id_unassigned claims).1 [
    | some i ↦ i
    | none ↦ oldest_claim (expire_pending_id_claims now claims)
  ]
]

unfoldable pub store_pending_id_claim :
    ℕ → IdClaimRequest → List PendingIdClaim → List PendingIdClaim
unfolding claim_slot expire_pending_id_claims modify_at
store_pending_id_claim now claim claims =
    let others =
      map
        (λ (c : PendingIdClaim).
          if c.uid == claim.uid && c.device_id != claim.claiming_device_id then free_claim else c)
        claims in
    modify_at (claim_slot now claim.claiming_device_id others)
      (λ c. record { device_id = claim.claiming_device_id; uid = claim.uid; claimed_at_ms = now })
      (expire_pending_id_claims now others)

-- The loop of GetLowestAvailableId(), with the claims after the expiries; `none` is its exception.
unfoldable pub lowest_available_from :
    ℕ → ℕ → ℕ → List NetworkDevice → List PendingIdClaim → Option ℕ × List PendingIdClaim
unfolding has_device find_pending_id_claim
lowest_available_from zero now i devices claims = (none, claims)
lowest_available_from (suc fuel) now i devices claims =
    let skipped = lowest_available_from fuel now (suc i) devices claims in
    let (live, claimed) = find_pending_id_claim now i claims in
    let pending = lowest_available_from fuel now (suc i) devices live in
    if has_device i devices
    then skipped
    else elim claimed [ none ↦ (some i, live) | some p ↦ pending ]

unfoldable pub get_lowest_available_id :
    ℕ → ℕ → List NetworkDevice → List PendingIdClaim → Option ℕ × List PendingIdClaim
unfolding lowest_available_from
get_lowest_available_id now after devices claims =
    lowest_available_from (id_broadcast - u8 (after + 1)) now (u8 (after + 1)) devices claims
