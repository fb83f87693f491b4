-- ===== src/Devices/Table/Finds.antt =====
-- What is found in the device table after a device was added.
use dm_matter_zigbee_bridge.Prelude.{
  some-none, ℕ, ◌+◌, ◌%◌, true, false, Bool-cases, Option-cases, Option, none, some, List, [], ◌∷◌,
  ◌++◌, ◌≡◌, ◌≢◌, refl, sym, ◌∙◌, ◌⊎◌, inl, inr, arith, All, ◌==◌, eq→==, ne→==, ==→eq, ==→ne,
  if-behind, if◌then◌else◌, Run, done, fault,
}
use dm_matter_zigbee_bridge.Devices.{
  Endpoint, Device, no_device, valid_node_id, valid_ieee, valid_endpoint,
}
use dm_matter_zigbee_bridge.Devices.Table.{
  scan_node_id, find_by_node_id, scan_ieee, find_by_ieee, new_joined, take_entry, add_new_device,
  scan_endpoint, find_endpoint,
}

abbrev pub fresh_device : ℕ → ℕ → Device
fresh_device id ieee = record no_device { node_id = id; ieee = ieee; state = new_joined }

abbrev pub NoneBlank : List Device → Type 0
NoneBlank ds = All (λ (d : Device). d.node_id ≢ 0) ds

take_entry-first :
    (id ieee : ℕ) (before : List Device) (d : Device) (after : List Device)
    → NoneBlank before
    → d.node_id ≡ 0
    → take_entry id ieee (before ++ (d ∷ after)) ≡ some (before ++ (fresh_device id ieee ∷ after))
unfolding take_entry
take_entry-first id ieee [] d after n e = rw (eq→== d.node_id 0 e)
take_entry-first id ieee (b ∷ before) d after n e =
    rw (ne→== b.node_id 0 n.0, take_entry-first id ieee before d after n.1 e)

scan_node_id-fresh :
    (id ieee m : ℕ) (before : List Device) (d : Device) (after : List Device)
    → m ≢ 0
    → d.node_id ≡ 0
    → scan_node_id id (before ++ (d ∷ after)) ≡ none
    → scan_node_id m (before ++ (fresh_device id ieee ∷ after))
      ≡ (if id == m then some (fresh_device id ieee) else scan_node_id m (before ++ (d ∷ after)))
unfolding scan_node_id
scan_node_id-fresh id ieee m [] d after ne e h = rw (ne→== d.node_id m (λ q. ne (sym q ∙ e)))
scan_node_id-fresh id ieee m (b ∷ before) d after ne e h = elim (Bool-cases (b.node_id == id)) [
  | inl y ↦ absurd (some-none (rw y at h))
  | inr y ↦
      (if-behind b.node_id id m (some b) _ _ _ (==→ne b.node_id id y)
        (scan_node_id-fresh id ieee m before d after ne e (rw y at h)))
]

scan_ieee-fresh :
    (id ieee m : ℕ) (before : List Device) (d : Device) (after : List Device)
    → m ≢ 0
    → d.ieee ≡ 0
    → scan_ieee ieee (before ++ (d ∷ after)) ≡ none
    → scan_ieee m (before ++ (fresh_device id ieee ∷ after))
      ≡ (if ieee == m then some (fresh_device id ieee) else scan_ieee m (before ++ (d ∷ after)))
unfolding scan_ieee
scan_ieee-fresh id ieee m [] d after ne e h = rw (ne→== d.ieee m (λ q. ne (sym q ∙ e)))
scan_ieee-fresh id ieee m (b ∷ before) d after ne e h = elim (Bool-cases (b.ieee == ieee)) [
  | inl y ↦ absurd (some-none (rw y at h))
  | inr y ↦
      (if-behind b.ieee ieee m (some b) _ _ _ (==→ne b.ieee ieee y)
        (scan_ieee-fresh id ieee m before d after ne e (rw y at h)))
]

valid_node_id-nonzero : (m : ℕ) → valid_node_id m ≡ true → m ≢ 0
valid_node_id-nonzero m h = ground arith

valid_ieee-nonzero : (m : ℕ) → valid_ieee m ≡ true → m ≢ 0
valid_ieee-nonzero m h = ground arith

-- An invalid identifier is not the new device's.
pub invalid_node_id :
    (id m : ℕ) → valid_node_id id ≡ true → valid_node_id m ≡ false → (id == m) ≡ false
invalid_node_id id m v w = ground arith

invalid_ieee : (a m : ℕ) → valid_ieee a ≡ true → valid_ieee m ≡ false → (a == m) ≡ false
invalid_ieee a m v w = ground arith

find_by_node_id-fresh :
    (id ieee m : ℕ) (before : List Device) (d : Device) (after : List Device)
    → valid_node_id id ≡ true
    → d.node_id ≡ 0
    → find_by_node_id id (before ++ (d ∷ after)) ≡ none
    → find_by_node_id m (before ++ (fresh_device id ieee ∷ after))
      ≡ (if id == m then some (fresh_device id ieee) else find_by_node_id m (before ++ (d ∷ after)))
unfolding find_by_node_id
find_by_node_id-fresh id ieee m before d after v e h = elim (Bool-cases (valid_node_id m)) [
  | inl y ↦
      rw y (scan_node_id-fresh id ieee m before d after (valid_node_id-nonzero m y) e (rw v at h))
  | inr y ↦ rw (y, invalid_node_id id m v y)
]

find_by_ieee-fresh :
    (id ieee m : ℕ) (before : List Device) (d : Device) (after : List Device)
    → valid_ieee ieee ≡ true
    → d.ieee ≡ 0
    → find_by_ieee ieee (before ++ (d ∷ after)) ≡ none
    → find_by_ieee m (before ++ (fresh_device id ieee ∷ after))
      ≡ (if ieee == m then some (fresh_device id ieee) else find_by_ieee m (before ++ (d ∷ after)))
unfolding find_by_ieee
find_by_ieee-fresh id ieee m before d after v e h = elim (Bool-cases (valid_ieee m)) [
  | inl y ↦ rw y (scan_ieee-fresh id ieee m before d after (valid_ieee-nonzero m y) e (rw v at h))
  | inr y ↦ rw (y, invalid_ieee ieee m v y)
]

-- tZDM_AddNewDeviceToDeviceTable with a valid node identifier and a valid IEEE address that the
-- table does not have, and with a free entry, which has no address: the device count goes up by
-- one, a search by the node identifier and one by the IEEE address find the new device, and every
-- other search finds what it found before.
pub add_new_device-finds :
    (id ieee count : ℕ) (before : List Device) (d : Device) (after : List Device)
    → valid_node_id id ≡ true
    → valid_ieee ieee ≡ true
    → NoneBlank before
    → d.node_id ≡ 0
    → d.ieee ≡ 0
    → find_by_node_id id (before ++ (d ∷ after)) ≡ none
    → find_by_ieee ieee (before ++ (d ∷ after)) ≡ none
    → (es : List Device) × (add_new_device id ieee (before ++ (d ∷ after), count)
        ≡ some (es, (count + 1) % 65536))
      × ((m : ℕ)
          → find_by_node_id m es ≡ (
              if id == m
              then some (fresh_device id ieee)
              else find_by_node_id m (before ++ (d ∷ after))))
      × ((m : ℕ)
          → find_by_ieee m es ≡ (
              if ieee == m
              then some (fresh_device id ieee)
              else find_by_ieee m (before ++ (d ∷ after))))
unfolding add_new_device
add_new_device-finds id ieee count before d after v w n e z unknown unseen = (
  before ++ (fresh_device id ieee ∷ after),
  rw (v, w, take_entry-first id ieee before d after n e),
  λ m. find_by_node_id-fresh id ieee m before d after v e unknown,
  λ m. find_by_ieee-fresh id ieee m before d after w z unseen,
)

FoundOrFault : ℕ → Run (Option Endpoint) → Type 0
FoundOrFault ep r = (r ≡ fault) ⊎ ((e : Endpoint) × (r ≡ done (some e)) × (e.id ≡ ep))

scan_endpoint-FoundOrFault : (ep : ℕ) (es : List Endpoint) → FoundOrFault ep (scan_endpoint ep es)
unfolding scan_endpoint FoundOrFault
scan_endpoint-FoundOrFault ep [] = inl refl
scan_endpoint-FoundOrFault ep (e ∷ es) = elim (Bool-cases (e.id == ep)) [
  | inl y ↦ inr (e, rw y, ==→eq e.id ep y)
  | inr y ↦ rw y (scan_endpoint-FoundOrFault ep es)
]

-- tZDM_FindEndpointEntryInDeviceTable never returns NULL for a valid endpoint: it finds an entry
-- with the endpoint, or it goes through a null pointer or behind the endpoints of the device.
pub find_endpoint-never_null :
    (id ep : ℕ) (ds : List Device)
    → valid_endpoint ep ≡ true
    → (find_endpoint id ep ds ≡ fault)
      ⊎ ((e : Endpoint) × (find_endpoint id ep ds ≡ done (some e)) × (e.id ≡ ep))
unfolding find_endpoint FoundOrFault
find_endpoint-never_null id ep ds v = elim (Option-cases (find_by_node_id id ds)) [
  | inl none_there ↦ inl (rw (v, none_there))
  | inr (d, there) ↦ rw (v, there) (scan_endpoint-FoundOrFault ep d.endpoints)
]
