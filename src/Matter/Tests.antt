-- ===== src/Matter/Tests.antt =====
-- The theorems on the Matter side at concrete inputs.
use dm_matter_zigbee_bridge.Prelude.{
  ℕ, zero, suc, length, List, true, false, Option, none, some, [], ◌∷◌, All, take, ◌≡◌, ◌≤◌, ◌↔◌,
  refl, inl, arith, get_elem?, ◌==◌, if◌then◌else◌, done, fault,
}
use dm_matter_zigbee_bridge.Zcb.Commands.{on_off}
use dm_matter_zigbee_bridge.Nodes.{Node, no_node, Saved, FlashOps, Nodes}
use dm_matter_zigbee_bridge.Nodes.Store.Lookup.{IsTable}
use dm_matter_zigbee_bridge.Nodes.Join.{seat, announce, update_joined_nodes}
use dm_matter_zigbee_bridge.Reports.Descriptor.{cleared}
use dm_matter_zigbee_bridge.Matter.{Object, Manager}
use dm_matter_zigbee_bridge.Matter.Commands.{on, on_off_cluster, matter_pre_command_received}
use dm_matter_zigbee_bridge.Matter.Commands.Meaning.{Means}
use dm_matter_zigbee_bridge.Matter.Commands.Exact.{matter_pre_command_received-Means}
use dm_matter_zigbee_bridge.Matter.Slots.{
  Answer, accepted, exists, refused, greatest_ep, free_slot, with_endpoint, add_device_endpoint,
  remove_device,
}
use dm_matter_zigbee_bridge.Matter.Slots.Removed.{IsLive, remove_device-freed}
use dm_matter_zigbee_bridge.Matter.Slots.Settles.{endpoint_after, TakenFor}
use dm_matter_zigbee_bridge.Matter.Slots.Added.{CanAdd, add_device_endpoint-behind}
use dm_matter_zigbee_bridge.Matter.Slots.Leaks.{IsTried, add_device_endpoint-leaks}
use dm_matter_zigbee_bridge.Matter.Monitor.{Monitor, no_post, restore_posted}
use dm_matter_zigbee_bridge.Matter.Monitor.Restores.{Restored, restore_posted-Restored}
use dm_matter_zigbee_bridge.Matter.Attributes.{Readable, external_attribute_read}
use dm_matter_zigbee_bridge.Matter.Attributes.Fits.{FitsIn, external_attribute_read-FitsIn}
use dm_matter_zigbee_bridge.Matter.Reached.{is_on, add_device_endpoint-reached}

abbrev lamp : Node
lamp = record { type = 1; ep = 3; short = 0x1111; mac = 0xA1 }

matter_pre_command_received-Means_example :
    (matter_pre_command_received 3 (on_off_cluster on) true (lamp ∷ [])
      ≡ done (some (on_off 0x1111 1)))
    ↔ Means 3 (on_off_cluster on) true (lamp ∷ []) (on_off 0x1111 1)
matter_pre_command_received-Means_example =
    matter_pre_command_received-Means 3 (on_off_cluster on) true (lamp ∷ []) (on_off 0x1111 1)

abbrev flash_ops : FlashOps (Option Saved)
flash_ops = record { read = λ f. f; save = λ s f. some s }

abbrev one : Saved
one = record { total = 1; nodes = lamp ∷ no_node ∷ no_node ∷ no_node ∷ no_node ∷ [] }

abbrev running : Nodes (Option Saved)
running = record { joined = one.nodes; idx = 0; saved = one; flash = some one }

abbrev plug : Object
plug = record { reachable = false; endpoint = 0; supported = record cleared { on_off = true } }

-- The lamp's object, and the plug that is to be added.
abbrev manager : Manager (Option Saved)
manager = record {
  heap = some (record plug { reachable = true; endpoint = 3 }) ∷ some plug ∷ [];
  slots = some 0 ∷ none ∷ none ∷ [];
  current = 3;
  first = 2;
  nodes = announce 0x2222 0xA2 running;
}

abbrev plug_is_live : IsLive 1 plug manager
plug_is_live = refl

remove_device-freed_example : remove_device 1 manager ≡ fault
remove_device-freed_example = remove_device-freed 1 plug manager plug_is_live refl

manager-CanAdd : CanAdd flash_ops 1 1 3 plug one manager
unfolding greatest_ep free_slot announce seat
manager-CanAdd = record {
  live = refl;
  is_new = refl;
  in_flash = refl;
  greatest = refl;
  small = omega arith;
  free = refl;
}

one-IsTable : IsTable one
one-IsTable = record { room = refl; bound = omega arith }

add_device_endpoint-reached_example :
    (u : Manager (Option Saved)) × (add_device_endpoint flash_ops (λ i e. accepted) 1 1 manager
      ≡ done (u, some 1))
    × All (λ (j : Node). j.ep ≤ 3) (take 1 one.nodes)
    × (matter_pre_command_received 4 (on_off_cluster on) true u.nodes.joined
        ≡ done (some (on_off 0x2222 1)))
add_device_endpoint-reached_example =
    add_device_endpoint-reached flash_ops (λ i e. accepted) 0 1 1 3 plug one manager running 0x2222
      0xA2 1 on (lamp ∷ []) no_node (no_node ∷ no_node ∷ no_node ∷ []) refl manager-CanAdd refl
      (λ f s. refl) refl one-IsTable (inl (omega arith)) refl (refl, tt) refl (refl, tt) is_on

-- The SDK has the endpoint 4 already.
abbrev has_four : ℕ → ℕ → Answer
has_four i e = if e == 4 then exists else accepted

-- The node at `idx` has its endpoint already.
abbrev settled_manager : Manager (Option Saved)
settled_manager = record manager { nodes = running }

known_node : update_joined_nodes flash_ops 5 running ≡ done running
unfolding update_joined_nodes
known_node = refl

settled_manager-CanAdd : CanAdd flash_ops 1 1 3 plug one settled_manager
unfolding greatest_ep free_slot
settled_manager-CanAdd = record {
  live = refl;
  is_new = refl;
  in_flash = refl;
  greatest = refl;
  small = omega arith;
  free = refl;
}

four_taken : TakenFor 1 (has_four 1) 2 4
unfolding TakenFor
four_taken = (refl, tt)

add_device_endpoint-behind_example :
    (u : Manager (Option Saved)) × (add_device_endpoint flash_ops has_four 2 1 settled_manager
      ≡ done (u, some 1))
    × IsLive 1 (record plug { reachable = true; endpoint = endpoint_after 1 2 4 }) u
    × (get_elem? u.slots 1 ≡ some (some 1))
    × (u.nodes ≡ running)
    × All (λ (j : Node). j.ep ≤ 3) (take 1 one.nodes)
unfolding endpoint_after
add_device_endpoint-behind_example =
    add_device_endpoint-behind flash_ops has_four 1 0 1 1 3 plug one settled_manager running
      settled_manager-CanAdd four_taken refl known_node

-- Endpoint 4 exists, and 5 is refused.
abbrev refusing : ℕ → ℕ → Answer
refusing i e = if e == 4 then exists else refused

refused_five : refusing 1 (endpoint_after 1 manager.first 4) ≡ refused
unfolding endpoint_after
refused_five = refl

two_tried : TakenFor 1 (refusing 1) manager.first 4
unfolding TakenFor
two_tried = (refl, tt)

add_device_endpoint-leaks_example :
    (u : Manager (Option Saved)) × (add_device_endpoint flash_ops refusing 2 1 manager
      ≡ done (u, none))
    × (get_elem? u.slots 1 ≡ some (some 1))
    × IsLive 1 (with_endpoint plug (endpoint_after 1 manager.first 4)) u
    × (u.nodes ≡ manager.nodes)
add_device_endpoint-leaks_example =
    add_device_endpoint-leaks flash_ops refusing 1 0 1 1 4 plug manager manager-CanAdd.live refl
      manager-CanAdd.free (IsTried.behind one 3 manager-CanAdd.in_flash manager-CanAdd.greatest)
      two_tried refused_five

-- After a restart, with the lamp in flash.
abbrev restarted : Monitor (Option Saved)
restarted = record {
  manager = record manager { heap = []; slots = none ∷ none ∷ []; nodes = running };
  g_index = 0;
  post = no_post;
}

restore_posted-Restored_example :
    Restored cleared
      (lamp ∷ [])
      []
      (none ∷ none ∷ [])
      restarted
      (restore_posted flash_ops (λ i e. accepted) 1 cleared (lamp ∷ []) restarted)
restore_posted-Restored_example =
    restore_posted-Restored flash_ops (λ i e. accepted) 1 cleared (lamp ∷ []) [] (none ∷ none ∷ [])
      restarted (refl, tt) refl refl (omega arith) (omega arith)

take-bound : (n : ℕ) (xs : List ℕ) → length (take n xs) ≤ n
take-bound zero xs = omega arith
take-bound (suc n) [] = omega arith
take-bound (suc n) (x ∷ xs) = omega (arith, take-bound n xs)

-- A temperature of 21.5 degrees.
abbrev sensor : Readable
sensor = record {
  reachable = true;
  name = 0x5A ∷ 0x54 ∷ [];
  is_on = false;
  measured = 2150;
  min = 0;
  max = 10000;
}

external_attribute_read-FitsIn_example :
    FitsIn 2 (external_attribute_read take (none ∷ some sensor ∷ []) 1 1026 0 2)
external_attribute_read-FitsIn_example =
    external_attribute_read-FitsIn take take-bound (none ∷ some sensor ∷ []) 1 1026 0 2
