-- ===== src/Reports/Tests.antt =====
-- Theorems of the reports at concrete inputs.
use dm_matter_zigbee_bridge.Prelude.{
  ℕ, Bool, true, false, ◌⊎◌, ◌<◌, length, replicate, leb, Run, done, none, some, List, [], ◌∷◌, ◌≡◌,
  refl, arith, set, ◌==◌, if◌then◌else◌, fault,
}
use dm_matter_zigbee_bridge.Devices.{Device, no_device}
use dm_matter_zigbee_bridge.Devices.Table.{scan_node_id, find_by_node_id, find_index_by_node_id}
use dm_matter_zigbee_bridge.Reports.{report_value, response_value}
use dm_matter_zigbee_bridge.Reports.Mailbox.{
  Mailbox, bridge_write_attribute, handle_attribute, read_msg,
}
use dm_matter_zigbee_bridge.Reports.Handle.{Bridge, revived, handle_attribute_report}
use dm_matter_zigbee_bridge.Reports.Handle.Values.{int16, report_value-in_order}
use dm_matter_zigbee_bridge.Reports.Handle.Delivered.{
  handle_attribute-dangling, handle_attribute_report-known,
}
use dm_matter_zigbee_bridge.Devices.Table.{find_by_ieee, scan_ieee}
use dm_matter_zigbee_bridge.Reports.Addresses.{network_address_response, ieee_address_response}
use dm_matter_zigbee_bridge.Reports.Addresses.Seats.{response}
use dm_matter_zigbee_bridge.Reports.Addresses.Found.{
  ieee_address_response-finds, network_address_response-loses,
}
use dm_matter_zigbee_bridge.Reports.Timers.{device_timer_init, timer_ids, timer_callback}
use dm_matter_zigbee_bridge.Reports.Timers.Shared.{Untouched, timer_callback-Untouched}
use dm_matter_zigbee_bridge.Prelude.Words.{ntohs, little_endian}
use dm_matter_zigbee_bridge.Devices.{Cluster, max_clusters}
use dm_matter_zigbee_bridge.Reports.Descriptor.{
  Supported, cleared, clusters_of, store_clusters, describe,
}
use dm_matter_zigbee_bridge.Reports.Descriptor.Stored.{kept, overwrite, store_clusters-kept}
use dm_matter_zigbee_bridge.Reports.Descriptor.Flags.{Marked, describe-Marked}

report_value-in_order_example :
    (report_value 0x29 (8 ∷ 102 ∷ 0 ∷ []) ≡ 2150)
    × (response_value 0x29 (8 ∷ 102 ∷ 0 ∷ []) 7 ≡ 2150)
report_value-in_order_example = report_value-in_order int16 2150 7 (0 ∷ []) (omega arith)

abbrev box : Mailbox
box = record { msg_type = 0; msg_data = none; heap = none ∷ [] }

handle_attribute-dangling_example :
    ((handle_attribute true 0x0402 0 2150 box).msg_type ≡ bridge_write_attribute)
    × (read_msg (handle_attribute true 0x0402 0 2150 box) ≡ fault)
handle_attribute-dangling_example = handle_attribute-dangling 0x0402 0 2150 box refl

abbrev sensor : Device
sensor = record no_device { node_id = 0x1234; ieee = 0xA3; state = 3 }

-- A report of the measured temperature from endpoint 1 of node 0x1234.
abbrev report : List ℕ
report =
    9 ∷ 0x12 ∷ 0x34 ∷ 1 ∷ 0x04 ∷ 0x02 ∷ 0 ∷ 0 ∷ 0 ∷ 0x29 ∷ 0 ∷ 2 ∷ 0x08 ∷ 0x66 ∷ 0 ∷ 0 ∷ 0 ∷ 0 ∷ 0
    ∷ 0 ∷ []

abbrev bridge : Bridge
bridge = record {
  devices = no_device ∷ sensor ∷ [];
  timers = 4 ∷ 5 ∷ [];
  running = true ∷ false ∷ [];
  attributes =
      record { node_id = 0x1234; endpoint = 1; cluster = 0x0402; id = 0; kind = 0x29 } ∷ [];
  box = box;
}

sensor-found : find_by_node_id 0x1234 bridge.devices ≡ some sensor
unfolding find_by_node_id scan_node_id
sensor-found = refl

handle_attribute_report-known_example :
    let after = handle_attribute_report true report bridge in
    (after.1 ≡ none)
    × (after.0.timers ≡ set bridge.timers (find_index_by_node_id 0x1234 bridge.devices) 0)
    × (after.0.running ≡ set bridge.running (find_index_by_node_id 0x1234 bridge.devices) true)
    × (after.0.attributes ≡ bridge.attributes)
    × ((m : ℕ)
        → find_by_node_id m after.0.devices
          ≡ (if 0x1234 == m then some (revived sensor) else find_by_node_id m bridge.devices))
handle_attribute_report-known_example =
    handle_attribute_report-known true report bridge sensor sensor-found

-- The sensor answers with the short address 0x5678.
sensor-by_ieee : find_by_ieee 0xA3 bridge.devices ≡ some sensor
unfolding find_by_ieee scan_ieee
sensor-by_ieee = refl

free-node_id : find_by_node_id 0x5678 bridge.devices ≡ none
unfolding find_by_node_id scan_node_id
free-node_id = refl

free-ieee : find_by_ieee 0x5678 bridge.devices ≡ none
unfolding find_by_ieee scan_ieee
free-ieee = refl

ieee_address_response-finds_example :
    let after = ieee_address_response (response 9 0 0xA3 0x5678 (0 ∷ 0 ∷ [])) bridge.devices in
    (find_by_node_id 0x5678 after ≡ some (record sensor { node_id = 0x5678 }))
    × ((m : ℕ)
        → find_by_ieee m after ≡ (
            if 0xA3 == m
            then some (record sensor { node_id = 0x5678 })
            else find_by_ieee m bridge.devices))
ieee_address_response-finds_example =
    ieee_address_response-finds 9 0 0xA3 0x5678 (0 ∷ 0 ∷ []) bridge.devices sensor (omega arith)
      (omega arith) sensor-by_ieee refl free-node_id

network_address_response-loses_example :
    let after = network_address_response (response 9 0 0xA3 0x5678 (0 ∷ 0 ∷ [])) bridge.devices in
    (find_by_node_id 0x5678 after ≡ none)
    × (find_by_ieee 0x5678 after ≡ some (record sensor { ieee = 0x5678 }))
network_address_response-loses_example =
    network_address_response-loses 9 0 0xA3 0x5678 (0 ∷ 0 ∷ []) bridge.devices sensor (omega arith)
      (omega arith) sensor-by_ieee refl free-node_id free-ieee

-- Timer 0 expires; the loop variable is taken to stand at address 1.
timer_callback-Untouched_example :
    (timer_callback (device_timer_init 1) 0 bridge ≡ fault)
    ⊎ ((1 < length bridge.timers)
        × (u : Bridge) × (timer_callback (device_timer_init 1) 0 bridge ≡ done u)
        × Untouched 0 bridge u)
timer_callback-Untouched_example = timer_callback-Untouched 1 0 0 bridge (omega arith) (omega arith)

-- What happens there: timer 0 stops, and device 1 is off-line.
abbrev expired : Run Bridge
expired = timer_callback (device_timer_init 1) 0 bridge

abbrev running_of : Run Bridge → List Bool
running_of (done t) = t.running
running_of _ = []

expired-running : running_of expired ≡ false ∷ false ∷ []
unfolding timer_callback timer_ids
expired-running = refl

-- A dimmable light: basic, identify, groups, on and off, level control.
abbrev light : List ℕ
light =
    7 ∷ 0 ∷ 0x12 ∷ 0x34 ∷ 18 ∷ 1 ∷ 1 ∷ 4 ∷ 1 ∷ 1 ∷ 0 ∷ 5 ∷ 0 ∷ 0 ∷ 0 ∷ 3 ∷ 0 ∷ 4 ∷ 0 ∷ 6 ∷ 0 ∷ 8
    ∷ []

abbrev blank : List Cluster
blank = replicate max_clusters (record { id = 0; attribute_count = 0 })

light-kept : kept (clusters_of light) ≡ 0 ∷ 6 ∷ 8 ∷ []
unfolding kept ntohs little_endian
light-kept = refl

describe-Marked_example :
    (u : Supported) × (type : ℕ) × (describe light blank 1
      ≡ done (
        (overwrite (kept (clusters_of light)) blank, length (kept (clusters_of light))),
        (u, type),
      ))
    × Marked (kept (clusters_of light)) cleared u
describe-Marked_example = describe-Marked light blank 1 refl (rw light-kept (omega arith))

store_clusters-kept_example : store_clusters (3 ∷ 6 ∷ []) (blank, 0) ≡ (
    if leb (length (kept (3 ∷ 6 ∷ []))) (length blank)
    then done (overwrite (kept (3 ∷ 6 ∷ [])) blank, length (kept (3 ∷ 6 ∷ [])))
    else fault)
store_clusters-kept_example = store_clusters-kept (3 ∷ 6 ∷ []) blank
