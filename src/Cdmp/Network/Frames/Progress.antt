-- ===== src/Cdmp/Network/Frames/Progress.antt =====
-- cdmp_network_service.cpp: what comes in leaves the counters of the discovery and of the ID claim.
use rt_core.Prelude.{
  ℕ, ◌≡◌, refl, ◌∙◌, inl, inr, Bool, true, false, not, Option, none, some, List, [], ◌∷◌, arith,
  Option-cases, ◌==◌, ◌!=◌, if◌then◌else◌, get_elem?, ltb, ◌-◌,
}
use rt_core.Prelude.Tables.{keep_if}
use rt_core.Cdmp.Status.{DeviceStatus, offline, init, claiming, online, version_mismatch, error}
use rt_core.Cdmp.Messages.Codec.{Decoded, message, invalid, out_of_bounds}
use rt_core.Cdmp.Messages.Network.{
  DiscoveryRequest, DiscoveryResponse, IdClaimRequest, IdClaimResponse, Heartbeat, id_claim,
  id_claim_response, discovery_request, discovery_response, discovery_request_from_frame,
  discovery_response_from_frame, id_claim_request_from_frame, id_claim_response_from_frame,
}
use rt_core.Cdmp.Network.Devices.{
  NetworkDevice, store_pending_id_claim, find_pending_id_claim, device_ids, PendingIdClaim,
  has_device, find_device, find_device_id_by_uid,
}
use rt_core.Cdmp.Network.Service.{
  NetworkService, on_device_status_changed, change_status, request_rediscovery,
  add_or_update_device, remove_device, notify_joined, record_id_claim, clear_claim, remove_renamed,
  update_device_from_discovery, update_from_sender, update_device_from_heartbeat, remove_devices,
  remove_offline_devices, process_periodic_tasks, stop, is_restart, is_peer_device_id,
}
use rt_core.Cdmp.Network.Frames.{
  on_discovery_request, on_discovery_response, on_id_claim_request, on_id_claim_response,
  on_decoded, process_frame, claim_result,
}

pub record Kept (s t : NetworkService) : Type 0 where
  pub claimed : t.claiming_device_id ≡ s.claiming_device_id
  pub attempt : t.id_claim_attempt ≡ s.id_claim_attempt
  pub request : t.discovery_attempt ≡ s.discovery_attempt
  pub resets : t.discovery_backoff_resets ≡ s.discovery_backoff_resets

Kept-refl : (s : NetworkService) → Kept s s
Kept-refl s = record { claimed = refl; attempt = refl; request = refl; resets = refl }

Kept-trans : {s t u : NetworkService} → Kept s t → Kept t u → Kept s u
Kept-trans a b = record {
  claimed = b.claimed ∙ a.claimed;
  attempt = b.attempt ∙ a.attempt;
  request = b.request ∙ a.request;
  resets = b.resets ∙ a.resets;
}

stop-Kept : (s : NetworkService) → Kept s (stop s)
unfolding stop
stop-Kept s = record {
  claimed = ground arith;
  attempt = ground arith;
  request = ground arith;
  resets = ground arith;
}

on_status-Kept : (new : DeviceStatus) (s : NetworkService) → Kept s (on_device_status_changed new s)
unfolding on_device_status_changed
on_status-Kept offline s = Kept-refl s
on_status-Kept init s = record { claimed = refl; attempt = refl; request = refl; resets = refl }
on_status-Kept claiming s = record { claimed = refl; attempt = refl; request = refl; resets = refl }
on_status-Kept online s = record {
  claimed = ground arith;
  attempt = ground arith;
  request = ground arith;
  resets = ground arith;
}
on_status-Kept version_mismatch s = stop-Kept s
on_status-Kept error s = stop-Kept s

Kept-if : (s x y : NetworkService) (b : Bool) → Kept s x → Kept s y → Kept s (if b then x else y)
Kept-if s x y true f g = f
Kept-if s x y false f g = g

change_status-Kept : (new : DeviceStatus) (s : NetworkService) → Kept s (change_status new s)
unfolding change_status
change_status-Kept new s =
    let t = record s { unit = record s.unit { status = new } } in
    let first : Kept s t = record {
      claimed = refl;
      attempt = refl;
      request = refl;
      resets = refl;
    } in
    Kept-if s s _ _ (Kept-refl s) (Kept-trans first (on_status-Kept new t))

remove_device-Kept : (id : ℕ) (s : NetworkService) → Kept s (remove_device id s)
unfolding remove_device
remove_device-Kept id s = elim (Option-cases (find_device id s.devices)) [
  | inl missing ↦ record {
    claimed = ground arith;
    attempt = ground arith;
    request = ground arith;
    resets = ground arith;
  }
  | inr (d, found) ↦ record {
    claimed = ground arith;
    attempt = ground arith;
    request = ground arith;
    resets = ground arith;
  }
]

abbrev KeptIf : NetworkService → Option (Bool × NetworkService) → Type 0
KeptIf s none = Unit
KeptIf s (some (added, t)) = Kept s t

KeptIf-if :
    (s : NetworkService) (x y : Option (Bool × NetworkService)) (b : Bool)
    → KeptIf s x
    → KeptIf s y
    → KeptIf s (if b then x else y)
KeptIf-if s x y true f g = f
KeptIf-if s x y false f g = g

add_or_update-KeptIf :
    (now id uid features : ℕ) (s : NetworkService)
    → KeptIf s (add_or_update_device now id uid features s)
unfolding add_or_update_device
add_or_update-KeptIf now id uid features s =
    KeptIf-if s _ _ (has_device id s.devices)
      (record { claimed = refl; attempt = refl; request = refl; resets = refl })
      (KeptIf-if s _ _ (uid == 0) tt
        (record { claimed = refl; attempt = refl; request = refl; resets = refl }))

Kept-elim :
    {A : Type 0} (s : NetworkService) (o : Option A) (x : NetworkService) (f : A → NetworkService)
    → Kept s x
    → ((a : A) → Kept s (f a))
    → Kept s (elim o [ none ↦ x | some a ↦ f a ])
Kept-elim s none x f g h = g
Kept-elim s (some a) x f g h = h a

notify_joined-Kept :
    (id : ℕ) (added : Bool) (s : NetworkService) → Kept s (notify_joined id added s)
unfolding notify_joined
notify_joined-Kept id added s = Kept-if s s _ (not added) (Kept-refl s) (
    Kept-elim s (find_device id s.devices) s _ (Kept-refl s)
      (λ d. record { claimed = refl; attempt = refl; request = refl; resets = refl }))

clear_claim-Kept : (now id : ℕ) (s : NetworkService) → Kept s (clear_claim now id s)
unfolding clear_claim
clear_claim-Kept now id s = record { claimed = refl; attempt = refl; request = refl; resets = refl }

remove_renamed-Kept : (id uid : ℕ) (s : NetworkService) → Kept s (remove_renamed id uid s)
unfolding remove_renamed
remove_renamed-Kept id uid s =
    Kept-elim s (find_device_id_by_uid uid s.devices) s _ (Kept-refl s)
      (λ previous. Kept-if s _ _ (previous != id) (remove_device-Kept previous s) (Kept-refl s))

-- A device was added or updated, and its claim is cleared.
joined-Kept :
    (now id : ℕ) (s t : NetworkService) (o : Option (Bool × NetworkService))
    (f : Bool → NetworkService → NetworkService)
    → Kept s t
    → KeptIf t o
    → ((added : Bool) (u : NetworkService) → Kept u (f added u))
    → Kept s (elim o [ none ↦ t | some (added, u) ↦ f added u ])
joined-Kept now id s t none f k h g = k
joined-Kept now id s t (some (added, u)) f k h g = Kept-trans k (Kept-trans h (g added u))

discovery-Kept :
    (now : ℕ) (m : DiscoveryResponse) (s : NetworkService)
    → Kept s (update_device_from_discovery now m s)
unfolding update_device_from_discovery
discovery-Kept now m s =
    let t = remove_renamed m.device_id m.uid s in
    Kept-if s s _ _ (Kept-refl s) (
      joined-Kept now m.device_id s t (add_or_update_device now m.device_id m.uid m.features t) _
        (remove_renamed-Kept m.device_id m.uid s)
        (add_or_update-KeptIf now m.device_id m.uid m.features t)
        (λ added u.
          Kept-trans (clear_claim-Kept now m.device_id u) (notify_joined-Kept m.device_id added _)))

record_id_claim-Kept :
    (now : ℕ) (claim : IdClaimRequest) (s : NetworkService) → Kept s (record_id_claim now claim s)
unfolding record_id_claim
record_id_claim-Kept now claim s =
    let stored = store_pending_id_claim now claim s.pending_id_claims in
    let t = record s { pending_id_claims = stored } in
    Kept-if s s _ _ (Kept-refl s) (
      known (find_device claim.claiming_device_id s.devices) _ _
        (Kept-elim s (find_device_id_by_uid claim.uid s.devices) t _
          (record { claimed = refl; attempt = refl; request = refl; resets = refl })
          (λ previous.
            Kept-trans {s = s} {t = t}
              (record { claimed = refl; attempt = refl; request = refl; resets = refl })
              (remove_device-Kept previous t)))
        (λ d. Kept-if s s _ (d.uid != claim.uid) (Kept-refl s) (
          Kept-if s _ _ (is_restart now claim s)
            (record { claimed = refl; attempt = refl; request = refl; resets = refl })
            (record { claimed = refl; attempt = refl; request = refl; resets = refl }))))
  where
    known :
        (o : Option NetworkDevice) (x : NetworkService) (f : NetworkDevice → NetworkService)
        → Kept s x
        → ((d : NetworkDevice) → Kept s (f d))
        → Kept s (elim o [ some d ↦ f d | none ↦ x ])
    known none x f g h = g
    known (some d) x f g h = h d

request_rediscovery-Kept : (now : ℕ) (s : NetworkService) → Kept s (request_rediscovery now s)
unfolding request_rediscovery
request_rediscovery-Kept now s = record {
  claimed = ground arith;
  attempt = ground arith;
  request = ground arith;
  resets = ground arith;
}

sender-Kept :
    (now : ℕ) (h : Heartbeat) (c : Option PendingIdClaim) (s : NetworkService)
    → Kept s (update_from_sender now h c s)
unfolding update_from_sender
sender-Kept now h (some c) s =
    joined-Kept now h.device_id s s (add_or_update_device now h.device_id c.uid h.features s) _
      (Kept-refl s) (add_or_update-KeptIf now h.device_id c.uid h.features s)
      (λ added u. Kept-trans (clear_claim-Kept now h.device_id u) (
        Kept-trans (notify_joined-Kept h.device_id added _)
          (record { claimed = refl; attempt = refl; request = refl; resets = refl })))
sender-Kept now h none s =
    Kept-elim s (find_device h.device_id s.devices) _ _ (request_rediscovery-Kept now s) (λ d.
      joined-Kept now h.device_id s s (add_or_update_device now h.device_id d.uid h.features s) _
        (Kept-refl s) (add_or_update-KeptIf now h.device_id d.uid h.features s)
        (λ added u. record { claimed = refl; attempt = refl; request = refl; resets = refl }))

pub heartbeat-Kept :
    (now : ℕ) (h : Heartbeat) (s : NetworkService) → Kept s (update_device_from_heartbeat now h s)
unfolding update_device_from_heartbeat
heartbeat-Kept now h s =
    let (live, found) = find_pending_id_claim now h.device_id s.pending_id_claims in
    let t = record s { pending_id_claims = live } in
    let claim : Option PendingIdClaim = elim found [ none ↦ none | some i ↦ get_elem? live i ] in
    let first : Kept s t = record {
      claimed = refl;
      attempt = refl;
      request = refl;
      resets = refl;
    } in
    Kept-if s s (update_from_sender now h claim t) (not (is_peer_device_id h.device_id s))
      (Kept-refl s) (Kept-trans first (sender-Kept now h claim t))

remove_devices-Kept : (ids : List ℕ) (s : NetworkService) → Kept s (remove_devices ids s)
unfolding remove_devices
remove_devices-Kept [] s = Kept-refl s
remove_devices-Kept (id ∷ ids) s =
    Kept-trans (remove_device-Kept id s) (remove_devices-Kept ids (remove_device id s))

pub periodic-Kept : (now : ℕ) (s : NetworkService) → Kept s (process_periodic_tasks now s)
unfolding process_periodic_tasks remove_offline_devices
periodic-Kept now s =
    let offline_ids =
      device_ids (keep_if (λ (d : NetworkDevice). ltb 9000 (now - d.last_heartbeat)) s.devices) in
    let first : Kept s (remove_devices offline_ids s) = remove_devices-Kept offline_ids s in
    record {
      claimed = first.claimed;
      attempt = first.attempt;
      request = first.request;
      resets = first.resets;
    }

abbrev pub KeptBy : NetworkService → Option NetworkService → Type 0
KeptBy s none = Unit
KeptBy s (some t) = Kept s t

on_decoded-KeptBy :
    {M : Type 0} (f : M → NetworkService → NetworkService) (d : Decoded M) (s : NetworkService)
    → ((m : M) → Kept s (f m s))
    → KeptBy s (on_decoded f d s)
unfolding on_decoded
on_decoded-KeptBy f (message m) s h = h m
on_decoded-KeptBy f invalid s h = Kept-refl s
on_decoded-KeptBy f out_of_bounds s h = tt

KeptBy-if :
    (s : NetworkService) (x y : Option NetworkService) (b : Bool)
    → KeptBy s x
    → KeptBy s y
    → KeptBy s (if b then x else y)
KeptBy-if s x y true f g = f
KeptBy-if s x y false f g = g

request-Kept : (m : DiscoveryRequest) (s : NetworkService) → Kept s (on_discovery_request m s)
unfolding on_discovery_request
request-Kept m s = record { claimed = refl; attempt = refl; request = refl; resets = refl }

response-Kept :
    (now : ℕ) (m : DiscoveryResponse) (s : NetworkService) → Kept s (on_discovery_response now m s)
unfolding on_discovery_response
response-Kept now m s =
    let t = record s { discovery_response_received = true } in
    let first : Kept s t = record {
      claimed = refl;
      attempt = refl;
      request = refl;
      resets = refl;
    } in
    Kept-if s _ _ _ (Kept-trans first (change_status-Kept error t))
      (Kept-trans first (discovery-Kept now m t))

claim_response-Kept : (m : IdClaimResponse) (s : NetworkService) → Kept s (on_id_claim_response m s)
unfolding on_id_claim_response
claim_response-Kept m s = record {
  claimed = ground arith;
  attempt = ground arith;
  request = ground arith;
  resets = ground arith;
}

claim_request-Kept :
    (now : ℕ) (m : IdClaimRequest) (s : NetworkService) → Kept s (on_id_claim_request now m s)
unfolding on_id_claim_request
claim_request-Kept now m s =
    let t = record_id_claim now m s in
    let first = record_id_claim-Kept now m s in
    Kept-if s t _ _ first (
      Kept-elim s (claim_result m t) t _ first (λ result.
        Kept-trans first
          (record { claimed = refl; attempt = refl; request = refl; resets = refl })))

-- Whatever frame comes in, the counters stay.
pub process_frame-KeptBy :
    (now : ℕ) (frame : List ℕ) (s : NetworkService) → KeptBy s (process_frame now frame s)
unfolding process_frame
process_frame-KeptBy now [] s = tt
process_frame-KeptBy now (kind ∷ rest) s =
    let frame = kind ∷ rest in
    let request = on_decoded on_discovery_request (discovery_request_from_frame frame) s in
    let response = on_decoded (on_discovery_response now) (discovery_response_from_frame frame) s in
    let claim = on_decoded (on_id_claim_request now) (id_claim_request_from_frame frame) s in
    let claim_response = on_decoded on_id_claim_response (id_claim_response_from_frame frame) s in
    let if_claim_response = if kind == id_claim_response then claim_response else some s in
    let if_claim = if kind == id_claim then claim else if_claim_response in
    let if_response = if kind == discovery_response then response else if_claim in
    KeptBy-if s request if_response (kind == discovery_request)
      (on_decoded-KeptBy on_discovery_request (discovery_request_from_frame frame) s
        (λ m. request-Kept m s))
      (KeptBy-if s response if_claim (kind == discovery_response)
        (on_decoded-KeptBy (on_discovery_response now) (discovery_response_from_frame frame) s
          (λ m. response-Kept now m s))
        (KeptBy-if s claim if_claim_response (kind == id_claim)
          (on_decoded-KeptBy (on_id_claim_request now) (id_claim_request_from_frame frame) s
            (λ m. claim_request-Kept now m s))
          (KeptBy-if s claim_response (some s) (kind == id_claim_response)
            (on_decoded-KeptBy on_id_claim_response (id_claim_response_from_frame frame) s
              (λ m. claim_response-Kept m s))
            (Kept-refl s))))
