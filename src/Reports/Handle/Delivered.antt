-- ===== src/Reports/Handle/Delivered.antt =====
-- What a report changes, and what the Matter side gets.
use dm_matter_zigbee_bridge.Prelude.{
  no_choice, none-some, ℕ, Bool, true, Bool-cases, Option, none, some, List, [], ◌∷◌, ◌++◌, ◌≡◌,
  refl, ap, ◌∙◌, inl, inr, length, get_elem?, get_or, set, ◌==◌, ==→eq, ==→ne, if-behind,
  if◌then◌else◌, fault,
}
use dm_matter_zigbee_bridge.Devices.{Device, Attribute, valid_node_id}
use dm_matter_zigbee_bridge.Devices.Table.{scan_node_id, find_by_node_id, find_index_by_node_id}
use dm_matter_zigbee_bridge.Devices.Table.Finds.{invalid_node_id}
use dm_matter_zigbee_bridge.Devices.Attributes.{find_attribute}
use dm_matter_zigbee_bridge.Reports.Mailbox.{
  AttributeValue, Mailbox, bridge_write_attribute, is_bridged, handle_attribute, read_msg,
}
use dm_matter_zigbee_bridge.Reports.Handle.{
  Bridge, half, revived, revive, with_value, handle_attribute_report,
}

freed :
    (heap : List (Option AttributeValue)) (v : Option AttributeValue)
    → get_elem? (set (heap ++ (v ∷ [])) (length heap) none) (length heap) ≡ some none
freed [] v = refl
freed (x ∷ heap) v = freed heap v

-- For each pair of cluster and attribute that handleAttribute passes on, when malloc succeeds:
-- the mailbox has the message type BRIDGE_WRITE_ATTRIBUTE, and reading what msg_data points to is
-- a use of freed memory.
pub handle_attribute-dangling :
    (cluster attribute value : ℕ) (b : Mailbox)
    → is_bridged cluster attribute ≡ true
    → ((handle_attribute true cluster attribute value b).msg_type ≡ bridge_write_attribute)
      × (read_msg (handle_attribute true cluster attribute value b) ≡ fault)
unfolding handle_attribute read_msg
handle_attribute-dangling cluster attribute value b h = (
  rw h,
  rw h (
      rw (
        read_msg,
        freed b.heap (some (record { cluster = cluster; attribute = attribute; value = value })),
      )),
)

abbrev pub revived_some : Option Device → Option Device
revived_some none = none
revived_some (some d) = some (revived d)

scan_node_id-revive :
    (id m : ℕ) (ds : List Device)
    → scan_node_id m (revive id ds)
      ≡ (if id == m then revived_some (scan_node_id id ds) else scan_node_id m ds)
unfolding scan_node_id revive
scan_node_id-revive id m [] = no_choice (id == m)
scan_node_id-revive id m (d ∷ ds) = elim (Bool-cases (d.node_id == id)) [
  | inl y ↦ elim (Bool-cases (id == m)) [
    | inl z ↦ rw (y, z) (rw (==→eq d.node_id id y, z))
    | inr z ↦ rw (y, z) (rw (==→eq d.node_id id y, z))
  ]
  | inr y ↦
      rw y (
        if-behind d.node_id id m (some d) _ _ _ (==→ne d.node_id id y)
          (scan_node_id-revive id m ds))
]

find_by_node_id-revive :
    (id m : ℕ) (ds : List Device) (d : Device)
    → find_by_node_id id ds ≡ some d
    → find_by_node_id m (revive id ds)
      ≡ (if id == m then some (revived d) else find_by_node_id m ds)
unfolding find_by_node_id
find_by_node_id-revive id m ds d h = elim (Bool-cases (valid_node_id id)) [
  | inr n ↦ absurd (none-some (rw n at h))
  | inl v ↦ elim (Bool-cases (valid_node_id m)) [
    | inl y ↦ rw y (scan_node_id-revive id m ds ∙ rw (found_scan v h))
    | inr y ↦ rw (y, invalid_node_id id m v y)
  ]
]
  where
    found_scan :
        valid_node_id id ≡ true → find_by_node_id id ds ≡ some d → scan_node_id id ds ≡ some d
    found_scan v g = rw v at g

with_value-keeps :
    (memory : Bool) (message : List ℕ) (t : Bridge) (o : Option Attribute)
    → ((with_value memory message t o).devices ≡ t.devices)
      × ((with_value memory message t o).timers ≡ t.timers)
      × ((with_value memory message t o).running ≡ t.running)
      × ((with_value memory message t o).attributes ≡ t.attributes)
with_value-keeps memory message t none = (refl, refl, refl, refl)
with_value-keeps memory message t (some a) = (refl, refl, refl, refl)

-- ZCB_HandleAttributeReport for a node that the device table has: no request is sent, the timer
-- count of the device goes to 0, the attribute table stays as it is, a search by the node
-- identifier finds the device as it was but active if it was off-line, and every other search by
-- a node identifier finds what it found before.
pub handle_attribute_report-known :
    (memory : Bool) (message : List ℕ) (t : Bridge) (d : Device)
    → find_by_node_id (half message 1) t.devices ≡ some d
    → let after = handle_attribute_report memory message t in
      (after.1 ≡ none)
      × (after.0.timers ≡ set t.timers (find_index_by_node_id (half message 1) t.devices) 0)
      × (after.0.running ≡ set t.running (find_index_by_node_id (half message 1) t.devices) true)
      × (after.0.attributes ≡ t.attributes)
      × ((m : ℕ)
          → find_by_node_id m after.0.devices
            ≡ (if half message 1 == m then some (revived d) else find_by_node_id m t.devices))
unfolding handle_attribute_report
handle_attribute_report-known memory message t d h =
    let id = half message 1 in
    let t' = record t {
      devices = revive id t.devices;
      timers = set t.timers (find_index_by_node_id id t.devices) 0;
      running = set t.running (find_index_by_node_id id t.devices) true;
    } in
    let o = find_attribute id (get_or message 3 0) (half message 4) (half message 6) t.attributes in
    let runs : handle_attribute_report memory message t ≡ (with_value memory message t' o, none) =
      rw (handle_attribute_report, h) in
    let (devices, timers, running, attributes) = with_value-keeps memory message t' o in
    (
      ap (λ r. r.1) runs,
      ap (λ r. r.0.timers) runs ∙ timers,
      ap (λ r. r.0.running) runs ∙ running,
      ap (λ r. r.0.attributes) runs ∙ attributes,
      λ m.
          ap (λ r. find_by_node_id m r.0.devices) runs
          ∙ ap (find_by_node_id m) devices
          ∙ find_by_node_id-revive id m t.devices d h,
    )
