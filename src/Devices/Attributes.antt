-- ===== src/Devices/Attributes.antt =====
-- The attribute table, and the erasure of a device with its attributes.
pub mod Erases
use dm_matter_zigbee_bridge.Prelude.{
  ℕ, suc, Bool, true, false, ◌&&◌, Option, none, some, List, [], ◌∷◌, length, replicate, ◌==◌,
  if◌then◌else◌, Run, done, fault, ◌>>=◌,
}
use dm_matter_zigbee_bridge.Devices.{
  Device, no_device, Attribute, no_attribute, valid_node_id, valid_ieee, valid_endpoint,
}

abbrev pub is_attribute : ℕ → ℕ → ℕ → ℕ → Attribute → Bool
is_attribute id ep cluster attribute a =
    a.node_id == id && a.endpoint == ep && a.cluster == cluster && a.id == attribute

unfoldable pub scan_attribute : ℕ → ℕ → ℕ → ℕ → List Attribute → Option Attribute
scan_attribute id ep cluster attribute [] = none
scan_attribute id ep cluster attribute (a ∷ rows) =
    if is_attribute id ep cluster attribute a
    then some a
    else scan_attribute id ep cluster attribute rows

-- `tZDM_FindAttributeEntryByElement`.
unfoldable pub find_attribute : ℕ → ℕ → ℕ → ℕ → List Attribute → Option Attribute
find_attribute id ep cluster attribute rows =
    if valid_node_id id && valid_endpoint ep
    then scan_attribute id ep cluster attribute rows
    else none

abbrev pub keep_attribute : Attribute → List Attribute → Run (List Attribute)
keep_attribute a rows = done (a ∷ rows)

-- The loop of `bZDM_EraseAttributeInfoByNodeId` behind the first entry: `memset` over as many bytes
-- as the whole table has, from a later entry on, leaves the table.
unfoldable pub erase_later : ℕ → List Attribute → Run (List Attribute)
erase_later id [] = done []
erase_later id (a ∷ rows) =
    let rest = erase_later id rows >>= keep_attribute a in if a.node_id == id then fault else rest

-- At the first entry the same `memset` clears the table, and the loop goes on over that.
unfoldable pub erase_attributes : ℕ → List Attribute → Run (List Attribute)
erase_attributes id [] = done []
erase_attributes id (a ∷ rows) =
    let cleared =
      erase_later id (replicate (length rows) no_attribute) >>= keep_attribute no_attribute in
    let kept = erase_later id rows >>= keep_attribute a in if a.node_id == id then cleared else kept

abbrev pub erased_later :
    Device → Bool × List Device × List Attribute → Run (Bool × List Device × List Attribute)
erased_later d r = done (r.0, d ∷ r.1, r.2)

-- The loop of `bZDM_EraseDeviceFromDeviceTable`; the device count stays as it is.
unfoldable pub erase_entry :
    ℕ → List Device → List Attribute → Run (Bool × List Device × List Attribute)
erase_entry ieee [] rows = done (false, [], rows)
erase_entry ieee (d ∷ ds) rows =
    let rest = erase_entry ieee ds rows >>= erased_later d in
    let erased : Run (Bool × List Device × List Attribute) =
      erase_attributes d.node_id rows >>= λ bs. done (true, no_device ∷ ds, bs) in
    if d.ieee == ieee then erased else rest

unfoldable pub erase_device :
    ℕ → List Device → List Attribute → Run (Bool × List Device × List Attribute)
erase_device ieee ds rows =
    let entry = erase_entry ieee ds rows in
    if valid_ieee ieee then entry else done (false, ds, rows)
