-- ===== src/Nodes/Leave.antt =====
-- A node leaves: `ZCB_HandleDeviceLeave` as far as it changes `JoinedNodes` and the flash file.
pub mod Shift
pub mod Forgets
pub mod Removes
use dm_matter_zigbee_bridge.Prelude.{
  ℕ, zero, suc, ◌+◌, ◌-◌, ◌%◌, Bool, true, false, Option, none, some, List, [], ◌∷◌, ◌==◌,
  if◌then◌else◌, Run, done, fault, ◌>>=◌,
}
use dm_matter_zigbee_bridge.Nodes.{Node, no_node, Saved, FlashOps, Nodes}
use dm_matter_zigbee_bridge.Nodes.Store.{scan, put}

abbrev pub prefixed : Node → List Node → Run (List Node)
prefixed n ns = done (n ∷ ns)

-- `count` entries get the entry behind them, from the index `i` on.
unfoldable pub shift : ℕ → ℕ → List Node → Run (List Node)
shift i zero ns = done ns
shift (suc i) (suc count) [] = fault
shift (suc i) (suc count) (n ∷ ns) = shift i (suc count) ns >>= prefixed n
shift zero (suc count) [] = fault
shift zero (suc count) (n ∷ []) = fault
shift zero (suc count) (n ∷ m ∷ ns) = shift zero count (m ∷ ns) >>= prefixed m

-- The index that the entry was found at. `unset` is what the variable `Idx` holds when it was not
-- found: the source does not initialise it.
abbrev pub index_or : ℕ → Option ℕ → ℕ
index_or unset none = unset
index_or unset (some i) = i

module _ {ℓ} {F : Type ℓ} (ops : FlashOps F) where
  -- The new table is saved only if it is not empty.
  abbrev pub shifted : Saved → Nodes F → List Node → Run (Nodes F)
  shifted s t ns =
      let q : Saved = record { total = (s.total + 255) % 256; nodes = ns } in
      done (if q.total == 0 then record t { saved = q } else put ops q t)

  abbrev pub remove_at : Saved → Nodes F → ℕ → Run (Nodes F)
  remove_at s t i =
      let moved = shift i (s.total - i) s.nodes >>= shifted s t in
      if i == 0 then done (record t { saved = s }) else moved

  -- The change of the flash file for one entry of `JoinedNodes`.
  unfoldable pub remove_saved : ℕ → ℕ → Nodes F → Run (Nodes F)
  remove_saved unset mac t = elim (ops.read t.flash) [
    | none ↦ done t
    | some s ↦ scan mac s.nodes s.total >>= λ found. remove_at s t (index_or unset found)
  ]

  -- The loop over `JoinedNodes`: every entry with the MAC address is cleared.
  unfoldable pub leave_loop : ℕ → ℕ → List Node → Nodes F → Run (List Node × Nodes F)
  leave_loop unset mac [] t = done ([], t)
  leave_loop unset mac (n ∷ ns) t =
      let gone = remove_saved unset mac t >>= λ u.
      leave_loop unset mac ns u >>= λ r. done (no_node ∷ r.0, r.1) in
      let kept = leave_loop unset mac ns t >>= λ r. done (n ∷ r.0, r.1) in
      if n.mac == mac then gone else kept

  unfoldable pub leave : ℕ → ℕ → Nodes F → Run (Nodes F)
  leave unset mac t = leave_loop unset mac t.joined t >>= λ r. done (record r.1 { joined = r.0 })
