-- ===== src/Nodes.antt =====
-- The Zigbee nodes that the bridge knows, zigbee_bridge/rt/rw61x/ZCB/zcb.c: the table `JoinedNodes`,
-- its copy in flash, and the commands that go to a node by its dynamic endpoint.
pub mod Store
pub mod Join
pub mod Leave
pub mod Bridged
mod Tests
use dm_matter_zigbee_bridge.Prelude.{ℕ, Option, none, some, List, replicate}

abbrev pub dev_num : ℕ
dev_num = 5

-- NodeDB.
pub record Node : Type 0 where
  pub type : ℕ
  pub ep : ℕ
  pub short : ℕ
  pub mac : ℕ

abbrev pub no_node : Node
no_node = record { type = 0; ep = 0; short = 0; mac = 0 }

-- JoinedNodesSaved.
pub record Saved : Type 0 where
  pub total : ℕ
  pub nodes : List Node

-- The flash file: `ramStorageReadFromFlash`, with `none` for a read that fails and leaves the buffer
-- alone, and `ramStorageSavetoFlash`.
pub record FlashOps {ℓ} (F : Type ℓ) : Type ℓ where
  pub read : F → Option Saved
  pub save : Saved → F → F

-- `JoinedNodes`, `idx`, `savedNodes` and the flash.
pub record Nodes {ℓ} (F : Type ℓ) : Type ℓ where
  pub joined : List Node
  pub idx : ℕ
  pub saved : Saved
  pub flash : F

-- What `savedNodes` holds after a read.
abbrev pub read_saved {ℓ} : {F : Type ℓ} → FlashOps F → Nodes F → Saved
read_saved ops t = elim (ops.read t.flash) [ none ↦ t.saved | some s ↦ s ]

-- The loop of `eZCB_Init` over the table.
abbrev pub init_joined : List Node
init_joined = replicate dev_num no_node
