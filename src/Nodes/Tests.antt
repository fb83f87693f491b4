-- ===== src/Nodes/Tests.antt =====
-- Runs of the joined nodes, and their theorems at concrete inputs. The flash is the last table saved.
use dm_matter_zigbee_bridge.Prelude.{
  ℕ, Option, none, some, [], ◌∷◌, ◌≡◌, refl, inl, arith, length, take, ◌==◌, if◌then◌else◌, done,
}
use dm_matter_zigbee_bridge.Zcb.Commands.{on_off}
use dm_matter_zigbee_bridge.Nodes.{Node, no_node, init_joined, Saved, FlashOps, Nodes}
use dm_matter_zigbee_bridge.Nodes.Store.{store_joined_node}
use dm_matter_zigbee_bridge.Nodes.Store.Lookup.{node_at, stored, IsTable}
use dm_matter_zigbee_bridge.Nodes.Store.Keeps.{Keeps, store_joined_node-Keeps}
use dm_matter_zigbee_bridge.Nodes.Bridged.{find_matched_node_by_ep, bridged_on_off}
use dm_matter_zigbee_bridge.Nodes.Join.{announce, update_joined_nodes, restore_joined_nodes}
use dm_matter_zigbee_bridge.Nodes.Join.Reached.{update_joined_nodes-announce}
use dm_matter_zigbee_bridge.Nodes.Join.Restart.{typed, restore_joined_nodes-serves}
use dm_matter_zigbee_bridge.Nodes.Leave.{leave}
use dm_matter_zigbee_bridge.Nodes.Leave.Forgets.{cleared, leave-first_stays}
use dm_matter_zigbee_bridge.Nodes.Leave.Removes.{leave-forgets}

abbrev flash_ops : FlashOps (Option Saved)
flash_ops = record { read = λ f. f; save = λ s f. some s }

abbrev lamp : Node
lamp = record { type = 1; ep = 3; short = 0x1111; mac = 0xA1 }

abbrev switch : Node
switch = record { type = 1; ep = 4; short = 0x2222; mac = 0xA2 }

abbrev sensor : Node
sensor = record { type = 1; ep = 5; short = 0x3333; mac = 0xA3 }

abbrev three : Saved
three = record { total = 3; nodes = lamp ∷ switch ∷ sensor ∷ no_node ∷ no_node ∷ [] }

abbrev five : Saved
five = record { total = 5; nodes = lamp ∷ lamp ∷ lamp ∷ switch ∷ sensor ∷ [] }

abbrev running : Nodes (Option Saved)
running = record {
  joined = lamp ∷ switch ∷ sensor ∷ no_node ∷ no_node ∷ [];
  idx = 2;
  saved = three;
  flash = some three;
}

abbrev three_is_table : IsTable three
three_is_table = record { room = refl; bound = omega arith }

abbrev plug : Node
plug = record { type = 1; ep = 6; short = 0x4444; mac = 0xA4 }

store_joined_node-Keeps_example :
    Keeps flash_ops plug three running (store_joined_node flash_ops plug running)
store_joined_node-Keeps_example =
    store_joined_node-Keeps flash_ops plug three running (λ f s. refl) refl three_is_table
      (omega arith) (inl (omega arith))

stored-plug : stored 0xA4 five ≡ none
unfolding node_at
stored-plug = refl

update_joined_nodes-announce_example :
    (u : Nodes (Option Saved)) × (q : Saved) × (update_joined_nodes flash_ops 6
        (announce 0x4444 0xA4 running)
      ≡ done u)
    × (bridged_on_off 6 1 u.joined ≡ some (on_off 0x4444 1))
    × (u.flash ≡ some q)
    × (stored 0xA4 q ≡ some (record { type = 1; ep = 6; short = 0x4444; mac = 0xA4 }))
update_joined_nodes-announce_example =
    update_joined_nodes-announce flash_ops running three 0x4444 0xA4 6 1
      (lamp ∷ switch ∷ sensor ∷ []) no_node (no_node ∷ []) (λ f s. refl) refl three_is_table
      (inl (omega arith)) refl (refl, (refl, (refl, tt))) refl (omega arith)
      (refl, (refl, (refl, tt)))

abbrev started : Nodes (Option Saved)
started = record {
  joined = init_joined;
  idx = 0;
  saved = record { total = 0; nodes = init_joined };
  flash = some three;
}

restore_joined_nodes-serves_example :
    (u : Nodes (Option Saved)) × (restore_joined_nodes flash_ops started
      ≡ done (u, typed (take 3 three.nodes)))
    × (find_matched_node_by_ep 4 u.joined ≡ find_matched_node_by_ep 4 (take 3 three.nodes))
    × (length u.joined ≡ 5)
restore_joined_nodes-serves_example =
    restore_joined_nodes-serves flash_ops started three 4 refl refl three_is_table

leave-first_stays_example :
    (u : Nodes (Option Saved)) × (leave flash_ops 0 0xA1 running ≡ done u)
    × (u.joined ≡ cleared 0xA1 running.joined)
    × (u.flash ≡ running.flash)
    × (stored 0xA1 three ≡ some lamp)
leave-first_stays_example =
    leave-first_stays flash_ops 0 lamp (switch ∷ sensor ∷ no_node ∷ no_node ∷ []) 2 running refl

leave-forgets_example :
    (u : Nodes (Option Saved)) × (q : Saved) × (leave flash_ops 0 0xA2 running ≡ done u)
    × (u.joined ≡ lamp ∷ no_node ∷ sensor ∷ no_node ∷ no_node ∷ [])
    × (u.flash ≡ some q)
    × IsTable q
    × ((m : ℕ) → stored m q ≡ (if 0xA2 == m then none else stored m three))
leave-forgets_example =
    leave-forgets flash_ops 0 lamp [] switch (sensor ∷ []) no_node (no_node ∷ []) (lamp ∷ []) switch
      (sensor ∷ no_node ∷ no_node ∷ []) running (λ f s. refl) refl refl (omega arith, tt)
      (omega arith, tt) refl (omega arith, tt) (omega arith, (omega arith, (omega arith, tt))) refl
