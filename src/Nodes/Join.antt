-- ===== src/Nodes/Join.antt =====
-- A node joins: `ZCB_HandleDeviceAnnounce` as far as it changes `JoinedNodes`, `UpdateJoinedNodes`,
-- by which the Matter side gives the node its dynamic endpoint, and the two functions that read
-- the nodes back from flash.
pub mod Reached
pub mod Restart
use dm_matter_zigbee_bridge.Prelude.{
  ℕ, zero, suc, Bool, true, false, not, ◌&&◌, Option, none, some, List, [], ◌∷◌, get_elem?, set,
  ◌==◌, if◌then◌else◌, Run, done, fault, ◌>>=◌,
}
use dm_matter_zigbee_bridge.Nodes.{Node, Saved, FlashOps, Nodes, read_saved}
use dm_matter_zigbee_bridge.Nodes.Store.{store_joined_node}

abbrev pub is_free : Node → Bool
is_free n = n.type == 0 && n.ep == 0

abbrev pub seated_later : Node → Option (ℕ × List Node) → Option (ℕ × List Node)
seated_later n none = none
seated_later n (some (i, ns)) = some (suc i, n ∷ ns)

-- The loop over `JoinedNodes`: the first free entry gets the addresses and type 1.
unfoldable pub seat : ℕ → ℕ → List Node → Option (ℕ × List Node)
seat short mac [] = none
seat short mac (n ∷ ns) =
    let rest = seated_later n (seat short mac ns) in
    if is_free n then some (0, record n { type = 1; short = short; mac = mac } ∷ ns) else rest

module _ {ℓ} {F : Type ℓ} where
  abbrev pub seated : Nodes F → Option (ℕ × List Node) → Nodes F
  seated t none = t
  seated t (some (i, ns)) = record t { joined = ns; idx = i }

  unfoldable pub announce : ℕ → ℕ → Nodes F → Nodes F
  announce short mac t = seated t (seat short mac t.joined)

  unfoldable pub update_joined_nodes : FlashOps F → ℕ → Nodes F → Run (Nodes F)
  update_joined_nodes ops ep t = elim (get_elem? t.joined t.idx) [
    | none ↦ fault
    | some n ↦
        let new = record n { ep = ep } in
        let updated = store_joined_node ops new (record t { joined = set t.joined t.idx new }) in
        if not (n.type == 0) && n.ep == 0 && not (ep == 0) then updated else done t
  ]

abbrev pub keep_node : Node → List Node × List Node → Run (List Node × List Node)
keep_node j r = done (j ∷ r.0, r.1)

abbrev pub post_node : Node → List Node × List Node → Run (List Node × List Node)
post_node n r = done (n ∷ r.0, n ∷ r.1)

-- The loop of `RestoreJoinedNodes` over `count` stored entries: the table, and the nodes for which
-- BRIDGE_RESTORE_JOINED_NODE is sent to the Matter side.
unfoldable pub restore_loop : ℕ → List Node → List Node → Run (List Node × List Node)
restore_loop zero ns joined = done (joined, [])
restore_loop (suc count) [] joined = fault
restore_loop (suc count) (n ∷ ns) [] =
    let rest = restore_loop count ns [] in if n.type == 0 then rest else fault
restore_loop (suc count) (n ∷ ns) (j ∷ joined) =
    let rest = restore_loop count ns joined in
    if n.type == 0 then rest >>= keep_node j else rest >>= post_node n

-- The loop of `EnumJoinedNodes`.
unfoldable pub enum_loop : ℕ → List Node → List Node → Run (List Node)
enum_loop zero ns joined = done joined
enum_loop (suc count) [] joined = fault
enum_loop (suc count) (n ∷ ns) [] = fault
enum_loop (suc count) (n ∷ ns) (j ∷ joined) = enum_loop count ns joined >>= λ r. done (n ∷ r)

module _ {ℓ} {F : Type ℓ} (ops : FlashOps F) where
  unfoldable pub restore_joined_nodes : Nodes F → Run (Nodes F × List Node)
  restore_joined_nodes t = elim (ops.read t.flash) [
    | none ↦ done (t, [])
    | some s ↦ restore_loop s.total s.nodes t.joined >>= λ r.
        done (record t { joined = r.0; saved = s }, r.1)
  ]

  unfoldable pub enum_joined_nodes : Nodes F → Run (Nodes F × Bool)
  enum_joined_nodes t = elim (ops.read t.flash) [
    | none ↦ done (t, false)
    | some s ↦
        enum_loop s.total s.nodes t.joined >>= λ r. done (record t { joined = r; saved = s }, true)
  ]
