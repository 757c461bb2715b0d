-- ===== src/Cdmp/Network/Claim/Discovery.antt =====
-- cdmp_network_service.cpp: a discovery comes to an end.
use rt_core.Prelude.{ℕ, suc, ◌+◌, ◌-◌, ◌*◌, ◌<◌, ◌≡◌, some, List}
use rt_core.Cdmp.Network.Service.{NetworkService}
use rt_core.Cdmp.Messages.Network.{Heartbeat}
use rt_core.Cdmp.Network.Frames.{process_frame}
use rt_core.Cdmp.Network.Service.{update_device_from_heartbeat}
use rt_core.Cdmp.Network.Claim.{
  Next, finished, again_ms, run_discovery_attempt, begin_initialization,
}

-- The requests that are left: 3 for each series, and those of this one.
unfoldable discovery_budget : NetworkService → ℕ
discovery_budget s = (10 - s.discovery_backoff_resets) * 3 + (3 - s.discovery_attempt)

abbrev DiscoveryUses : NetworkService → Next × NetworkService → Type 0
DiscoveryUses s (finished, t) = Unit
DiscoveryUses s (again_ms d, t) = discovery_budget t < discovery_budget s

-- The attempts of one discovery, and what comes in between two of them: management frames and heartbeats,
-- at any time and with any content.
pub data DiscoveryRun (s : NetworkService) : ℕ → NetworkService → Type 0 where
  begins : DiscoveryRun s 0 (begin_initialization s)
  attempts :
      {n : ℕ} {t : NetworkService}
      → DiscoveryRun s n t
      → (delay_ms : ℕ) (u : NetworkService) → run_discovery_attempt t ≡ (again_ms delay_ms, u)
      → DiscoveryRun s (suc n) u
  receives :
      {n : ℕ} {t : NetworkService}
      → DiscoveryRun s n t
      → (now : ℕ) (frame : List ℕ) (u : NetworkService) → process_frame now frame t ≡ some u
      → DiscoveryRun s n u
  hears :
      {n : ℕ} {t : NetworkService}
      → DiscoveryRun s n t
      → (now : ℕ) (h : Heartbeat) → DiscoveryRun s n (update_device_from_heartbeat now h t)
