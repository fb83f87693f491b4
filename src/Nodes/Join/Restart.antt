-- ===== src/Nodes/Join/Restart.antt =====
-- After a restart: the nodes read back from flash serve the same endpoints.
use dm_matter_zigbee_bridge.Prelude.{
  ==→eq, ℕ, zero, suc, ◌≤◌, Bool-cases, none, some, List, [], ◌∷◌, ◌≡◌, refl, sym, ap, ◌∙◌, inl,
  inr, arith, length, length-replicate, take, replicate, ◌==◌, eq→==, if◌then◌else◌, Run, done,
}
use dm_matter_zigbee_bridge.Nodes.{Node, no_node, init_joined, Saved, FlashOps, Nodes}
use dm_matter_zigbee_bridge.Nodes.Store.Lookup.{IsTable}
use dm_matter_zigbee_bridge.Nodes.Bridged.{find_matched_node_by_ep}
use dm_matter_zigbee_bridge.Nodes.Join.{restore_loop, restore_joined_nodes}

-- The nodes that are told to the Matter side: those with a type.
unfoldable pub typed : List Node → List Node
typed [] = []
typed (n ∷ ns) = if n.type == 0 then typed ns else n ∷ typed ns

-- An entry without a type serves no endpoint.
skip_untyped :
    (ep : ℕ) (n : Node) (ns : List Node)
    → n.type ≡ 0
    → find_matched_node_by_ep ep (n ∷ ns) ≡ find_matched_node_by_ep ep ns
unfolding find_matched_node_by_ep
skip_untyped ep n ns e = rw (eq→== n.type 0 e)

find_matched-empty : (ep count : ℕ) → find_matched_node_by_ep ep (replicate count no_node) ≡ none
unfolding find_matched_node_by_ep
find_matched-empty ep zero = refl
find_matched-empty ep (suc count) = find_matched-empty ep count

-- What the loop leaves: a table that serves what the stored entries serve.
record Restores (ep : ℕ) (ns : List Node) (count room : ℕ) (r : Run (List Node × List Node))
    : Type 0 where
  joined : List Node
  runs : r ≡ done (joined, typed (take count ns))
  finds : find_matched_node_by_ep ep joined ≡ find_matched_node_by_ep ep (take count ns)
  as_long : length joined ≡ room

find-cons :
    (ep : ℕ) (n : Node) (ns ms : List Node)
    → find_matched_node_by_ep ep ns ≡ find_matched_node_by_ep ep ms
    → find_matched_node_by_ep ep (n ∷ ns) ≡ find_matched_node_by_ep ep (n ∷ ms)
unfolding find_matched_node_by_ep
find-cons ep n ns ms e = rw (find_matched_node_by_ep, e)

restore_loop-Restores :
    (ep : ℕ) (ns : List Node) (count room : ℕ)
    → count ≤ length ns
    → count ≤ room
    → Restores ep ns count room (restore_loop count ns (replicate room no_node))
unfolding restore_loop typed find_matched_node_by_ep
restore_loop-Restores ep ns zero room h le = record {
  joined = replicate room no_node;
  runs = refl;
  finds = find_matched-empty ep room;
  as_long = length-replicate room no_node;
}
restore_loop-Restores ep [] (suc count) room h le = absurd (omega arith)
restore_loop-Restores ep (n ∷ ns) (suc count) zero h le = absurd (omega arith)
restore_loop-Restores ep (n ∷ ns) (suc count) (suc room) h le =
    let k = restore_loop-Restores ep ns count room (omega arith) (omega arith) in
    elim (Bool-cases (n.type == 0)) [
      | inl y ↦ record {
        joined = no_node ∷ k.joined;
        runs = rw y (rw k.runs);
        finds =
            skip_untyped ep no_node k.joined refl
            ∙ k.finds
            ∙ sym (skip_untyped ep n (take count ns) (==→eq n.type 0 y));
        as_long = ap suc k.as_long;
      }
      | inr y ↦ record {
        joined = n ∷ k.joined;
        runs = rw y (rw k.runs);
        finds = find-cons ep n k.joined (take count ns) k.finds;
        as_long = ap suc k.as_long;
      }
    ]

-- After a restart with a table in flash, RestoreJoinedNodes returns; it tells the Matter side of
-- every stored node that has a type, in order, and from then on a command for an endpoint goes to
-- the first stored node that serves it, and to none if no stored node does.
pub restore_joined_nodes-serves {ℓ} :
    {F : Type ℓ} (ops : FlashOps F) (t : Nodes F) (s : Saved) (ep : ℕ)
    → t.joined ≡ init_joined
    → ops.read t.flash ≡ some s
    → IsTable s
    → (u : Nodes F) × (restore_joined_nodes ops t ≡ done (u, typed (take s.total s.nodes)))
      × (find_matched_node_by_ep ep u.joined ≡ find_matched_node_by_ep ep (take s.total s.nodes))
      × (length u.joined ≡ 5)
unfolding restore_joined_nodes
restore_joined_nodes-serves ops t s ep fresh in_flash h =
    let k = restore_loop-Restores ep s.nodes s.total 5 (omega (arith, h.room, h.bound)) h.bound in
    (
      record t { joined = k.joined; saved = s },
      rw (restore_joined_nodes, in_flash) (rw (fresh, k.runs)),
      k.finds,
      k.as_long,
    )
