-- ===== src/Devices/Tests.antt =====
-- Theorems of the device table at concrete inputs.
use dm_matter_zigbee_bridge.Prelude.{
  ℕ, ◌+◌, ◌%◌, List, [], ◌∷◌, ◌≡◌, ◌≢◌, refl, ◌⊎◌, arith, replicate, some, none, ◌==◌,
  if◌then◌else◌, done, fault,
}
use dm_matter_zigbee_bridge.Devices.{Device, no_device, Attribute, no_attribute}
use dm_matter_zigbee_bridge.Devices.Table.{
  scan_node_id, find_by_node_id, scan_ieee, find_by_ieee, add_new_device, scan_endpoint,
  find_endpoint,
}
use dm_matter_zigbee_bridge.Devices.Table.Finds.{fresh_device, add_new_device-finds}
use dm_matter_zigbee_bridge.Devices.Attributes.{erase_attributes}
use dm_matter_zigbee_bridge.Devices.Attributes.Erases.{NoneOf, erase_attributes-cases}

abbrev lamp : Device
lamp = record no_device { node_id = 0x1111; ieee = 0xA1; state = 2 }

table-unknown : find_by_node_id 0x2222 (lamp ∷ no_device ∷ []) ≡ none
unfolding find_by_node_id scan_node_id
table-unknown = refl

table-unseen : find_by_ieee 0xA2 (lamp ∷ no_device ∷ []) ≡ none
unfolding find_by_ieee scan_ieee
table-unseen = refl

add_new_device-finds_example :
    (es : List Device) × (add_new_device 0x2222 0xA2 (lamp ∷ no_device ∷ [], 1)
      ≡ some (es, (1 + 1) % 65536))
    × ((m : ℕ)
        → find_by_node_id m es ≡ (
            if 0x2222 == m
            then some (fresh_device 0x2222 0xA2)
            else find_by_node_id m (lamp ∷ no_device ∷ [])))
    × ((m : ℕ)
        → find_by_ieee m es ≡ (
            if 0xA2 == m
            then some (fresh_device 0x2222 0xA2)
            else find_by_ieee m (lamp ∷ no_device ∷ [])))
add_new_device-finds_example =
    add_new_device-finds 0x2222 0xA2 1 (lamp ∷ []) no_device [] refl refl (omega arith, tt) refl
      refl table-unknown table-unseen

find_endpoint-lamp : find_endpoint 0x1111 3 (lamp ∷ []) ≡ fault
unfolding find_endpoint find_by_node_id scan_node_id scan_endpoint
find_endpoint-lamp = refl

abbrev model_id : ℕ → Attribute
model_id node = record { node_id = node; endpoint = 1; cluster = 0; id = 5; kind = 0x42 }

erase_attributes-cases_example :
    ((◌≡◌ {A = ℕ} 0x1111 0x2222)
      × (erase_attributes 0x2222 (model_id 0x1111 ∷ model_id 0x2222 ∷ [])
          ≡ done (replicate 2 no_attribute)))
    ⊎ (((◌≢◌ {A = ℕ} 0x1111 0x2222)
          × (erase_attributes 0x2222 (model_id 0x1111 ∷ model_id 0x2222 ∷ []) ≡ fault))
        ⊎ (NoneOf 0x2222 (model_id 0x1111 ∷ model_id 0x2222 ∷ [])
            × (erase_attributes 0x2222 (model_id 0x1111 ∷ model_id 0x2222 ∷ [])
                ≡ done (model_id 0x1111 ∷ model_id 0x2222 ∷ []))))
erase_attributes-cases_example =
    erase_attributes-cases 0x2222 (model_id 0x1111) (model_id 0x2222 ∷ []) (omega arith)
