-- ===== src/Matter.antt =====
-- The Matter side of the bridge, bridge-app/nxp/rt/rw61x/main/src/BridgeMgr.cpp, as far as it is the
-- bridge's own: the devices in their slots, and the commands that it passes on. Its calls of the
-- Matter SDK enter by their results.
pub mod Commands
pub mod Slots
pub mod Monitor
pub mod Attributes
pub mod Reached
mod Tests
use dm_matter_zigbee_bridge.Prelude.{
  ℕ, Bool, Option, none, some, List, [], ◌∷◌, ◌++◌, length, set, get_elem?, Run, done, fault,
}
use dm_matter_zigbee_bridge.Nodes.{Nodes}
use dm_matter_zigbee_bridge.Reports.Descriptor.{Supported}

-- What `Device` keeps that the bridge looks at: `mReachable`, `mEndpointId`, and the clusters in
-- `zcb.uSupportedClusters`.
pub record Object : Type 0 where
  pub reachable : Bool
  pub endpoint : ℕ
  pub supported : Supported

-- The objects made with `new`, where `none` is one that was deleted; `gDevices`, with the place of
-- the object that a pointer points to; `mCurrentEndpointId`, `mFirstDynamicEndpointId`, and the
-- joined nodes.
pub record Manager {ℓ} (F : Type ℓ) : Type ℓ where
  pub heap : List (Option Object)
  pub slots : List (Option ℕ)
  pub current : ℕ
  pub first : ℕ
  pub nodes : Nodes F

-- A read through a pointer.
abbrev pub object_at {ℓ} : {F : Type ℓ} → ℕ → Manager F → Run Object
object_at dev m = elim (get_elem? m.heap dev) [
  | none ↦ fault
  | some none ↦ fault
  | some (some o) ↦ done o
]

abbrev pub put_object {ℓ} : {F : Type ℓ} → ℕ → Object → Manager F → Manager F
put_object dev o m = record m { heap = set m.heap dev (some o) }
