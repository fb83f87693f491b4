-- ===== src/Devices/Table.antt =====
-- Searching, adding and erasing devices, and the search of an endpoint.
pub mod Finds
use dm_matter_zigbee_bridge.Prelude.{
  ℕ, suc, ◌+◌, ◌%◌, Bool, true, false, Option, none, some, List, [], ◌∷◌, get_elem?, ltb, ◌==◌,
  if◌then◌else◌, Run, done, fault, ◌>>=◌,
}
use dm_matter_zigbee_bridge.Devices.{
  max_devices, Endpoint, Device, no_device, valid_node_id, valid_ieee, valid_endpoint,
}

-- The loop over the table; the source returns a pointer to the entry, or its index.
unfoldable pub scan_node_id : ℕ → List Device → Option Device
scan_node_id id [] = none
scan_node_id id (d ∷ ds) = if d.node_id == id then some d else scan_node_id id ds

unfoldable pub find_by_node_id : ℕ → List Device → Option Device
find_by_node_id id ds = if valid_node_id id then scan_node_id id ds else none

abbrev pub counted : Option ℕ → Option ℕ
counted none = none
counted (some i) = some (suc i)

unfoldable pub scan_index : ℕ → List Device → Option ℕ
scan_index id [] = none
scan_index id (d ∷ ds) =
    let rest = counted (scan_index id ds) in if d.node_id == id then some 0 else rest

-- `uZDM_FindDevTableIndexByNodeId`; 0xFF stands for not found.
unfoldable pub find_index_by_node_id : ℕ → List Device → ℕ
find_index_by_node_id id ds =
    if valid_node_id id then elim (scan_index id ds) [ none ↦ 0xFF | some i ↦ i ] else 0xFF

-- `tZDM_FindDeviceByIndex`, with the read of what it points to.
unfoldable pub find_by_index : ℕ → List Device → Run (Option Device)
find_by_index i ds =
    let entry : Run (Option Device) = elim (get_elem? ds i) [
      | none ↦ fault
      | some d ↦ done (some d)
    ] in
    if ltb max_devices i then done none else entry

unfoldable pub scan_ieee : ℕ → List Device → Option Device
scan_ieee ieee [] = none
scan_ieee ieee (d ∷ ds) = if d.ieee == ieee then some d else scan_ieee ieee ds

unfoldable pub find_by_ieee : ℕ → List Device → Option Device
find_by_ieee ieee ds = if valid_ieee ieee then scan_ieee ieee ds else none

-- E_ZB_DEVICE_STATE_NEW_JOINED.
abbrev pub new_joined : ℕ
new_joined = 1

abbrev pub added_later : Device → Option (List Device) → Option (List Device)
added_later d none = none
added_later d (some ds) = some (d ∷ ds)

-- The loop of `tZDM_AddNewDeviceToDeviceTable`: the first entry without a node identifier is taken.
unfoldable pub take_entry : ℕ → ℕ → List Device → Option (List Device)
take_entry id ieee [] = none
take_entry id ieee (d ∷ ds) =
    let rest = added_later d (take_entry id ieee ds) in
    if d.node_id == 0
    then some (record no_device { node_id = id; ieee = ieee; state = new_joined } ∷ ds)
    else rest

-- The new table and device count, or `none` for the null pointer.
abbrev pub with_count : ℕ → Option (List Device) → Option (List Device × ℕ)
with_count count none = none
with_count count (some ds) = some (ds, (count + 1) % 65536)

unfoldable pub add_new_device : ℕ → ℕ → List Device × ℕ → Option (List Device × ℕ)
add_new_device id ieee t =
    let added = with_count t.1 (take_entry id ieee t.0) in
    if valid_node_id id then if valid_ieee ieee then added else none else none

-- `tZDM_FindEndpointEntryInDeviceTable`: the loop makes up to 15 rounds over the five endpoints.
unfoldable pub scan_endpoint : ℕ → List Endpoint → Run (Option Endpoint)
scan_endpoint ep [] = fault
scan_endpoint ep (e ∷ es) = if e.id == ep then done (some e) else scan_endpoint ep es

unfoldable pub find_endpoint : ℕ → ℕ → List Device → Run (Option Endpoint)
find_endpoint id ep ds =
    let entry : Run (Option Endpoint) = elim (find_by_node_id id ds) [
      | none ↦ fault
      | some d ↦ scan_endpoint ep d.endpoints
    ] in
    if valid_endpoint ep then entry else done none
