-- ===== src/Nodes/Store.antt =====
-- `StoreJoinedNode`: a node goes into the flash file, over the entry with its MAC address if there
-- is one.
pub mod Lookup
pub mod Keeps
use dm_matter_zigbee_bridge.Prelude.{
  ℕ, zero, suc, ◌+◌, ◌%◌, Bool, true, false, Option, none, some, List, [], ◌∷◌, length, set, ltb,
  ◌==◌, if◌then◌else◌, Run, done, fault, ◌>>=◌,
}
use dm_matter_zigbee_bridge.Nodes.{Node, Saved, FlashOps, Nodes}

abbrev pub one_later : Option ℕ → Run (Option ℕ)
one_later none = done none
one_later (some i) = done (some (suc i))

-- The index of the first of `count` entries with a MAC address. The array may end before.
unfoldable pub scan : ℕ → List Node → ℕ → Run (Option ℕ)
scan mac ns zero = done none
scan mac [] (suc count) = fault
scan mac (n ∷ ns) (suc count) =
    let rest = scan mac ns count >>= one_later in if n.mac == mac then done (some 0) else rest

-- The entry at `i` gets all but the MAC address from the new node.
unfoldable pub replaced : Node → ℕ → List Node → List Node
replaced new i [] = []
replaced new zero (n ∷ ns) = record n { type = new.type; short = new.short; ep = new.ep } ∷ ns
replaced new (suc i) (n ∷ ns) = n ∷ replaced new i ns

-- A new entry behind the last one; `totalNodes` is a `uint8_t`.
pub appended : Node → Saved → Run Saved
appended new s =
    if ltb s.total (length s.nodes)
    then done (record { total = (s.total + 1) % 256; nodes = set s.nodes s.total new })
    else fault

module _ {ℓ} {F : Type ℓ} (ops : FlashOps F) where
  abbrev pub put : Saved → Nodes F → Nodes F
  put s t = record t { saved = s; flash = ops.save s t.flash }

  abbrev pub put_some : Nodes F → Saved → Run (Nodes F)
  put_some t s = done (if s.total == 0 then record t { saved = s } else put s t)

  -- From `if (NewNode.type)` on.
  pub add_new : Node → Saved → Nodes F → Run (Nodes F)
  add_new new s t =
      let more = appended new s >>= put_some t in if new.type == 0 then put_some t s else more

  abbrev pub found_or_new : Node → Saved → Nodes F → Option ℕ → Run (Nodes F)
  found_or_new new s t none = add_new new s t
  found_or_new new s t (some i) = done (put (record s { nodes = replaced new i s.nodes }) t)

  unfoldable pub store_joined_node : Node → Nodes F → Run (Nodes F)
  store_joined_node new t = elim (ops.read t.flash) [
    | none ↦ add_new new t.saved t
    | some s ↦ scan new.mac s.nodes s.total >>= found_or_new new s t
  ]
