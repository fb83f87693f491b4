-- ===== src/Matter/Reached.antt =====
-- A new node from its announcement to a Matter command.
use dm_matter_zigbee_bridge.Prelude.{
  ℕ, suc, ◌+◌, ◌<◌, ◌≤◌, true, none, some, List, ◌∷◌, ◌++◌, All, take, ◌≡◌, ◌≢◌, ◌⊎◌, ap, ◌∙◌,
  arith, done,
}
use dm_matter_zigbee_bridge.Zcb.Commands.{on_off}
use dm_matter_zigbee_bridge.Nodes.{Node, Saved, FlashOps, Nodes}
use dm_matter_zigbee_bridge.Nodes.Store.Lookup.{stored, IsTable}
use dm_matter_zigbee_bridge.Nodes.Bridged.{bridged_on_off}
use dm_matter_zigbee_bridge.Nodes.Join.{is_free, announce, update_joined_nodes}
use dm_matter_zigbee_bridge.Nodes.Join.Reached.{NoneFree, NoneServes, update_joined_nodes-announce}
use dm_matter_zigbee_bridge.Matter.{Object, Manager}
use dm_matter_zigbee_bridge.Matter.Commands.{
  OnOffCommand, off, on, toggle, other_on_off, on_off_cluster, process_on_off_cluster_command,
  matter_pre_command_received,
}
use dm_matter_zigbee_bridge.Matter.Slots.{Answer, accepted, add_device_endpoint}
use dm_matter_zigbee_bridge.Matter.Slots.Settles.{endpoint_after, TakenFor}
use dm_matter_zigbee_bridge.Matter.Slots.Added.{CanAdd, add_device_endpoint-behind}

-- The mode that a Zigbee node gets for a command.
pub data HasMode : OnOffCommand → ℕ → Type 0 where
  is_off : HasMode off 0
  is_on : HasMode on 1
  is_toggle : HasMode toggle 2

on_off_sent :
    (ep mode : ℕ) (c : OnOffCommand) (ns : List Node) (short : ℕ)
    → HasMode c mode
    → bridged_on_off ep mode ns ≡ some (on_off short mode)
    → matter_pre_command_received ep (on_off_cluster c) true ns ≡ done (some (on_off short mode))
unfolding matter_pre_command_received process_on_off_cluster_command
on_off_sent ep mode off ns short is_off h = ap (λ x. done x) h
on_off_sent ep mode on ns short is_on h = ap (λ x. done x) h
on_off_sent ep mode toggle ns short is_toggle h = ap (λ x. done x) h
on_off_sent ep mode other_on_off ns short has h = elim has [ ]

-- A Zigbee node announces itself while JoinedNodes has a free entry, and AddDeviceEndpoint adds
-- its device for the first time, with a free slot and flash that could be read. If the Matter SDK
-- accepts the endpoint behind the greatest one in flash, that no earlier entry of JoinedNodes
-- serves, AddDeviceEndpoint succeeds after one round, the endpoint is greater than each of the
-- saved ones, and the Matter commands Off, On and Toggle on it are sent to the short address of
-- the node. The flash gives back what was saved last, and has room or the MAC address already.
pub add_device_endpoint-reached {ℓ} :
    {F : Type ℓ} (ops : FlashOps F) (answer : ℕ → ℕ → Answer) (k dev i e : ℕ) (o : Object)
    (s : Saved) (m : Manager F) (t : Nodes F) (short mac mode : ℕ) (c : OnOffCommand)
    (before : List Node) (n : Node) (after : List Node)
    → m.nodes ≡ announce short mac t
    → CanAdd ops dev i e o s m
    → answer i (e + 1) ≡ accepted
    → ((f : F) (x : Saved) → ops.read (ops.save x f) ≡ some x)
    → ops.read t.flash ≡ some s
    → IsTable s
    → (s.total < 5) ⊎ (stored mac s ≢ none)
    → t.joined ≡ before ++ (n ∷ after)
    → NoneFree before
    → is_free n ≡ true
    → NoneServes (e + 1) before
    → HasMode c mode
    → (u : Manager F) × (add_device_endpoint ops answer (suc k) dev m ≡ done (u, some i))
      × All (λ j. j.ep ≤ e) (take s.total s.nodes)
      × (matter_pre_command_received (e + 1) (on_off_cluster c) true u.nodes.joined
          ≡ done (some (on_off short mode)))
unfolding endpoint_after TakenFor
add_device_endpoint-reached ops answer k dev i e o s m t short mac mode c before n after nodes can
      ok law in_flash table room at none_free free unserved has =
    let (ns, q, runs, reached, saved, found) =
      update_joined_nodes-announce ops t s short mac (e + 1) mode before n after law in_flash table
        room at none_free free (omega arith) unserved in
    let (u, adds, live, slot, nodes_are, least) =
      add_device_endpoint-behind ops answer 0 k dev i e o s m ns can tt ok
        (ap (update_joined_nodes ops (e + 1)) nodes ∙ runs) in
    (
      u,
      ap (λ f. add_device_endpoint ops answer (suc f) dev m) fuel_is ∙ adds,
      least,
      on_off_sent (e + 1) mode c u.nodes.joined short has
          (ap (λ x. bridged_on_off (e + 1) mode x.joined) nodes_are ∙ reached),
    )
  where
    fuel_is : k ≡ 0 + k
    fuel_is = omega arith
