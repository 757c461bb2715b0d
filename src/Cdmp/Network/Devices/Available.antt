-- ===== src/Cdmp/Network/Devices/Available.antt =====
-- cdmp_network_service.cpp: GetLowestAvailableId() gives the lowest identifier that nobody has.
use rt_core.Prelude.{
  ℕ, dec_lt, if◌then◌else◌, zero, suc, ◌+◌, ◌-◌, ◌≤◌, ◌<◌, ◌≡◌, ◌⊎◌, refl, sym, ap, subst, ◌∙◌, inl,
  inr, Bool, true, false, Option, none, some, List, [], ◌∷◌, arith, Bool-cases, Option-cases,
  if◌then◌else◌,
}
use rt_core.Prelude.Bits.{u8}
use rt_core.Cdmp.Network.Devices.{
  NetworkDevice, PendingIdClaim, has_device, expire_claim, expire_pending_id_claims,
  find_pending_id_claim, lowest_available_from, get_lowest_available_id,
}

expire_claim-twice :
    (now : ℕ) (c : PendingIdClaim) → expire_claim now (expire_claim now c) ≡ expire_claim now c
unfolding expire_claim
expire_claim-twice now c = ground arith

pub expire-twice :
    (now : ℕ) (cs : List PendingIdClaim)
    → expire_pending_id_claims now (expire_pending_id_claims now cs)
      ≡ expire_pending_id_claims now cs
unfolding expire_pending_id_claims
expire-twice now [] = refl
expire-twice now (c ∷ cs) = let e = expire_claim-twice now c in let ih = expire-twice now cs in cc

-- Whether somebody has an identifier: a device, or a claim that has not expired.
unfoldable pub is_taken : ℕ → List NetworkDevice → List PendingIdClaim → ℕ → Bool
unfolding has_device find_pending_id_claim
is_taken now devices claims id =
    if has_device id devices
    then true
    else elim (find_pending_id_claim now id claims).1 [ none ↦ false | some i ↦ true ]

taken-expired :
    (now j : ℕ) (devices : List NetworkDevice) (claims : List PendingIdClaim)
    → is_taken now devices (expire_pending_id_claims now claims) j ≡ is_taken now devices claims j
unfolding is_taken find_pending_id_claim
taken-expired now j devices claims = rw (expire-twice now claims) refl

-- What is found is free, and in the range from `start`.
pub record Free (now start : ℕ) (devices : List NetworkDevice) (claims : List PendingIdClaim)
    (id : ℕ) : Type 0 where
  pub above : start ≤ id
  pub below : id < 255
  pub free : is_taken now devices claims id ≡ false

abbrev pub FreeIf : ℕ → ℕ → List NetworkDevice → List PendingIdClaim → Option ℕ → Type 0
FreeIf now start devices claims none = Unit
FreeIf now start devices claims (some id) = Free now start devices claims id

-- Everything below what is found is taken, and all is when nothing is found.
abbrev pub Lowest : ℕ → List NetworkDevice → List PendingIdClaim → ℕ → Option ℕ → Type 0
Lowest now devices claims j none = is_taken now devices claims j ≡ true
Lowest now devices claims j (some id) = (id ≤ j) ⊎ (is_taken now devices claims j ≡ true)

taken-Lowest :
    (now : ℕ) (devices : List NetworkDevice) (claims : List PendingIdClaim) (j : ℕ) (o : Option ℕ)
    → is_taken now devices claims j ≡ true
    → Lowest now devices claims j o
taken-Lowest now devices claims j none t = t
taken-Lowest now devices claims j (some id) t = inr t

Free-below :
    (now i : ℕ) (devices : List NetworkDevice) (claims : List PendingIdClaim) (o : Option ℕ)
    → FreeIf now (suc i) devices claims o
    → FreeIf now i devices claims o
Free-below now i devices claims none f = tt
Free-below now i devices claims (some id) f = record {
  above = omega (arith, f.above);
  below = f.below;
  free = f.free;
}

FreeIf-expired :
    (now i : ℕ) (devices : List NetworkDevice) (claims : List PendingIdClaim) (o : Option ℕ)
    → FreeIf now i devices (expire_pending_id_claims now claims) o
    → FreeIf now i devices claims o
FreeIf-expired now i devices claims none f = tt
FreeIf-expired now i devices claims (some id) f = record {
  above = f.above;
  below = f.below;
  free = sym (taken-expired now id devices claims) ∙ f.free;
}

Lowest-expired :
    (now j : ℕ) (devices : List NetworkDevice) (claims : List PendingIdClaim) (o : Option ℕ)
    → Lowest now devices (expire_pending_id_claims now claims) j o
    → Lowest now devices claims j o
Lowest-expired now j devices claims none f = sym (taken-expired now j devices claims) ∙ f
Lowest-expired now j devices claims (some id) (inl l) = inl l
Lowest-expired now j devices claims (some id) (inr t) =
    inr (sym (taken-expired now j devices claims) ∙ t)

-- One round of the loop: it passes over a taken identifier, with the claims as they were or expired.
data Round (now fuel i : ℕ) (devices : List NetworkDevice) (claims : List PendingIdClaim)
    : Option ℕ → Type 0 where
  device :
      is_taken now devices claims i ≡ true
      → Round now fuel i devices claims (lowest_available_from fuel now (suc i) devices claims).0
  claimed :
      is_taken now devices claims i ≡ true
      → Round now fuel i devices claims
          (lowest_available_from fuel now (suc i) devices (expire_pending_id_claims now claims)).0
  chosen : is_taken now devices claims i ≡ false → Round now fuel i devices claims (some i)

round_cases :
    (now fuel i : ℕ) (devices : List NetworkDevice) (claims : List PendingIdClaim)
    → Round now fuel i devices claims (lowest_available_from (suc fuel) now i devices claims).0
unfolding lowest_available_from is_taken find_pending_id_claim
round_cases now fuel i devices claims = elim (Bool-cases (has_device i devices)) [
  | inl known ↦
      let e : (lowest_available_from (suc fuel) now i devices claims).0
          ≡ (lowest_available_from fuel now (suc i) devices claims).0 =
        ground arith in
      subst (Round now fuel i devices claims) (sym e) (device (ground arith))
  | inr unknown ↦ elim (Option-cases (find_pending_id_claim now i claims).1) [
    | inl unclaimed ↦
        let e : (lowest_available_from (suc fuel) now i devices claims).0 ≡ some i = ground arith in
        subst (Round now fuel i devices claims) (sym e) (chosen (ground arith))
    | inr (p, found) ↦
        let e : (lowest_available_from (suc fuel) now i devices claims).0
            ≡ (lowest_available_from fuel now (suc i) devices
                (expire_pending_id_claims now claims)).0 =
          ground arith in
        subst (Round now fuel i devices claims) (sym e) (claimed (ground arith))
  ]
]

lowest_available_from-FreeIf :
    (fuel now i : ℕ) (devices : List NetworkDevice) (claims : List PendingIdClaim)
    → fuel + i ≤ 255
    → FreeIf now i devices claims (lowest_available_from fuel now i devices claims).0
lowest_available_from-FreeIf zero now i devices claims e = unfold lowest_available_from in tt
lowest_available_from-FreeIf (suc fuel) now i devices claims e =
    after _ (round_cases now fuel i devices claims)
      (lowest_available_from-FreeIf fuel now (suc i) devices claims (omega arith))
      (lowest_available_from-FreeIf fuel now (suc i) devices (expire_pending_id_claims now claims)
        (omega arith))
  where
    after :
        (o : Option ℕ)
        → Round now fuel i devices claims o
        → FreeIf now
            (suc i)
            devices
            claims
            (lowest_available_from fuel now (suc i) devices claims).0
        → FreeIf now
            (suc i)
            devices
            (expire_pending_id_claims now claims)
            (lowest_available_from fuel now (suc i) devices (expire_pending_id_claims now claims)).0
        → FreeIf now i devices claims o
    after _ (device t) f g = Free-below now i devices claims _ f
    after _ (claimed t) f g =
        Free-below now i devices claims _ (FreeIf-expired now (suc i) devices claims _ g)
    after _ (chosen t) f g = record { above = omega arith; below = omega arith; free = t }

lowest_available_from-Lowest :
    (fuel now i : ℕ) (devices : List NetworkDevice) (claims : List PendingIdClaim) (j : ℕ)
    → 255 ≤ fuel + i
    → i ≤ j
    → j < 255
    → Lowest now devices claims j (lowest_available_from fuel now i devices claims).0
lowest_available_from-Lowest zero now i devices claims j e l m = absurd (omega arith)
lowest_available_from-Lowest (suc fuel) now i devices claims j e l m = elim (dec_lt i j) [
  | yes above ↦
      after _ (round_cases now fuel i devices claims)
        (lowest_available_from-Lowest fuel now (suc i) devices claims j (omega arith) (omega arith)
          m)
        (lowest_available_from-Lowest fuel now (suc i) devices (expire_pending_id_claims now claims)
          j (omega arith) (omega arith) m)
  | no here ↦ at_start _ (omega arith) (round_cases now fuel i devices claims)
]
  where
    after :
        (o : Option ℕ)
        → Round now fuel i devices claims o
        → Lowest now devices claims j (lowest_available_from fuel now (suc i) devices claims).0
        → Lowest now devices
            (expire_pending_id_claims now claims)
            j
            (lowest_available_from fuel now (suc i) devices (expire_pending_id_claims now claims)).0
        → Lowest now devices claims j o
    after _ (device t) f g = f
    after _ (claimed t) f g = Lowest-expired now j devices claims _ g
    after _ (chosen t) f g = inl l

    at_start :
        (o : Option ℕ) → j ≡ i → Round now fuel i devices claims o → Lowest now devices claims j o
    at_start o same (device t) =
        taken-Lowest now devices claims j _ (ap (is_taken now devices claims) same ∙ t)
    at_start o same (claimed t) =
        taken-Lowest now devices claims j _ (ap (is_taken now devices claims) same ∙ t)
    at_start o same (chosen t) = inl l

-- The identifier that is claimed after `after` is above it, below the broadcast identifier, and has no
-- device and no pending claim; and every identifier in between is taken, or every one at all when there is
-- nothing to claim.
pub get_lowest_available_id-Free :
    (now after j : ℕ) (devices : List NetworkDevice) (claims : List PendingIdClaim)
    → after < 255
    → after < j
    → j < 255
    → let o = (get_lowest_available_id now after devices claims).0 in
      FreeIf now (after + 1) devices claims o × Lowest now devices claims j o
unfolding get_lowest_available_id
get_lowest_available_id-Free now after j devices claims a l m =
    let e : u8 (after + 1) ≡ after + 1 = omega arith in
    rw e (
      lowest_available_from-FreeIf (255 - (after + 1)) now (after + 1) devices claims (omega arith),
      lowest_available_from-Lowest (255 - (after + 1)) now (after + 1) devices claims j
          (omega arith) (omega arith) m,
    )

-- The same without an identifier to compare with.
pub get_lowest_available_id-above :
    (now after : ℕ) (devices : List NetworkDevice) (claims : List PendingIdClaim) {id : ℕ}
    → after < 255
    → (get_lowest_available_id now after devices claims).0 ≡ some id
    → (after < id) × (id < 255)
unfolding get_lowest_available_id
get_lowest_available_id-above now after devices claims {id} a e =
    let k : u8 (after + 1) ≡ after + 1 = omega arith in
    let f =
      lowest_available_from-FreeIf (255 - u8 (after + 1)) now (u8 (after + 1)) devices claims
        (omega arith) in
    let g = subst (FreeIf now (u8 (after + 1)) devices claims) e f in
    (omega (arith, g.above, k), g.below)
