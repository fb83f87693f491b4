-- ===== src/Nodes/Leave/Forgets.antt =====
-- What is left of a node that has gone.
use dm_matter_zigbee_bridge.Prelude.{
  ℕ, suc, Bool-cases, some, List, [], ◌∷◌, ◌≡◌, ◌≢◌, refl, inl, inr, All, ◌==◌, eq→==,
  if◌then◌else◌, done,
}
use dm_matter_zigbee_bridge.Nodes.{Node, no_node, FlashOps, Nodes}
use dm_matter_zigbee_bridge.Nodes.Store.{scan}
use dm_matter_zigbee_bridge.Nodes.Store.Lookup.{node_at, stored}
use dm_matter_zigbee_bridge.Nodes.Leave.{remove_saved, leave_loop, leave}

abbrev pub NotAt : ℕ → List Node → Type 0
NotAt mac ns = All (λ (n : Node). n.mac ≢ mac) ns

-- The table without the entries of an address.
unfoldable pub cleared : ℕ → List Node → List Node
cleared mac [] = []
cleared mac (n ∷ ns) = (if n.mac == mac then no_node else n) ∷ cleared mac ns

scan-first :
    (mac : ℕ) (n : Node) (ns : List Node) (count : ℕ)
    → n.mac ≡ mac
    → scan mac (n ∷ ns) (suc count) ≡ done (some 0)
unfolding scan
scan-first mac n ns count e = rw (eq→== n.mac mac e)

module _ {ℓ} {F : Type ℓ} (ops : FlashOps F) where
  remove_saved-first :
      (unset mac : ℕ) (n : Node) (ns : List Node) (count : ℕ) (t : Nodes F)
      → ops.read t.flash ≡ some (record { total = suc count; nodes = n ∷ ns })
      → n.mac ≡ mac
      → remove_saved ops unset mac t
        ≡ done (record t { saved = record { total = suc count; nodes = n ∷ ns } })
  unfolding remove_saved
  remove_saved-first unset mac n ns count t in_flash e =
      rw (remove_saved, in_flash) (rw (scan-first mac n ns count e))

  leave_loop-first :
      (unset mac : ℕ) (joined : List Node) (n : Node) (ns : List Node) (count : ℕ) (t : Nodes F)
      → ops.read t.flash ≡ some (record { total = suc count; nodes = n ∷ ns })
      → n.mac ≡ mac
      → (u : Nodes F) × (leave_loop ops unset mac joined t ≡ done (cleared mac joined, u))
        × (u.flash ≡ t.flash)
  unfolding leave_loop cleared
  leave_loop-first unset mac [] n ns count t in_flash e = (t, refl, refl)
  leave_loop-first unset mac (x ∷ joined) n ns count t in_flash e =
      elim (Bool-cases (x.mac == mac)) [
        | inl y ↦
            (let t' : Nodes F = record t { saved = record { total = suc count; nodes = n ∷ ns } } in
              let (u, runs, same) = leave_loop-first unset mac joined n ns count t' in_flash e in
              (u, rw y (rw (remove_saved-first unset mac n ns count t in_flash e) (rw runs)), same))
        | inr y ↦
            (let (u, runs, same) = leave_loop-first unset mac joined n ns count t in_flash e in
              (u, rw y (rw runs), same))
      ]

  -- A node that stands first in the flash file is never removed from there: when it leaves, it is
  -- cleared from JoinedNodes, but the flash is as before and still finds it under its address.
  pub leave-first_stays :
      (unset : ℕ) (n : Node) (ns : List Node) (count : ℕ) (t : Nodes F)
      → ops.read t.flash ≡ some (record { total = suc count; nodes = n ∷ ns })
      → (u : Nodes F) × (leave ops unset n.mac t ≡ done u)
        × (u.joined ≡ cleared n.mac t.joined)
        × (u.flash ≡ t.flash)
        × (stored n.mac (record { total = suc count; nodes = n ∷ ns }) ≡ some n)
  unfolding leave node_at
  leave-first_stays unset n ns count t in_flash =
      let (u, runs, same) = leave_loop-first unset n.mac t.joined n ns count t in_flash refl in
      (
        record u { joined = cleared n.mac t.joined },
        rw runs,
        refl,
        same,
        rw (eq→== n.mac n.mac refl),
      )
