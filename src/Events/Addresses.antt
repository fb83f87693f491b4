-- ===== src/Events/Addresses.antt =====
-- Each IEEE address stands once in the device table, whatever the bridge reports.
pub mod Tables
pub mod Handlers
pub mod Reached
use dm_matter_zigbee_bridge.Prelude.{
  ℕ, zero, suc, Bool, true, false, Bool-cases, Option, none, some, List, [], ◌∷◌, All, map, drop,
  get_or, set, get_elem?, ◌==◌, ==→eq, eq→==, ◌≡◌, ◌≢◌, refl, sym, ap, ◌∙◌, subst, ◌⊎◌, inl, inr,
  if◌then◌else◌, Run, done, fault, ◌>>=◌,
}
use dm_matter_zigbee_bridge.Prelude.Words.{little_endian, ntohd}
use dm_matter_zigbee_bridge.Devices.{Endpoint, Device, no_device, valid_node_id, valid_ieee}
use dm_matter_zigbee_bridge.Devices.Table.{
  new_joined, scan_index, scan_ieee, find_by_ieee, added_later, take_entry, with_count,
  add_new_device,
}
use dm_matter_zigbee_bridge.Nodes.Join.{announce}
use dm_matter_zigbee_bridge.Qualify.{Reply, Work, active, get_cluster, device_at, put_at}
use dm_matter_zigbee_bridge.Qualify.Process.Addresses.{
  ieees, SameIeees, Same, IsAt, device_at-IsAt, put_at-Same, new_device_qualify_process-Same,
}
use dm_matter_zigbee_bridge.Qualify.Phases.Outcome.{Then, Then->>=, Then-if, Any, Then-Any}
use dm_matter_zigbee_bridge.Qualify.Process.{new_device_qualify_process}
use dm_matter_zigbee_bridge.Reports.Handle.{half, revive}
use dm_matter_zigbee_bridge.Reports.Addresses.{ieee_address_response, assign, ieee_of}
use dm_matter_zigbee_bridge.Reports.Timers.{with_off_line}
use dm_matter_zigbee_bridge.Reports.Descriptor.{describe}
use dm_matter_zigbee_bridge.Events.{
  Host, added, qualified, put_table, handle_device_announce, pointer, name_endpoints, named,
  handle_active_end_point_resp, endpoint_of, described, handle_simple_descriptor_response, type_at,
  has_model, model_read, handle_read_attr_resp,
}

-- No address but 0 is there twice.
abbrev pub IsDistinct : List ℕ → Type 0
IsDistinct [] = Unit {0}
IsDistinct (x ∷ xs) = ((x ≡ 0) ⊎ All (λ y. y ≢ x) xs) × IsDistinct xs

abbrev pub HasDistinct : List Device → Type 0
HasDistinct ds = IsDistinct (ieees ds)

-- The address `x` is in no entry.
abbrev Lacks : ℕ → List Device → Type 0
Lacks x ds = All (λ y. y ≢ x) (ieees ds)

scan_ieee-Lacks : (x : ℕ) (ds : List Device) → scan_ieee x ds ≡ none → Lacks x ds
unfolding scan_ieee
scan_ieee-Lacks x [] h = tt
scan_ieee-Lacks x (d ∷ ds) h = elim (Bool-cases (d.ieee == x)) [
  | inl y ↦ absurd (found d (rw y at h))
  | inr n ↦ (λ e. wrong (sym (eq→== d.ieee x e) ∙ n), scan_ieee-Lacks x ds (rw n at h))
]
  where
    found : (e : Device) → some e ≡ none → ⊥
    found e p = cc

    wrong : true ≡ false → ⊥
    wrong p = cc

-- The entries after one is taken.
abbrev WhenTaken : (List Device → Type 0) → Option (List Device) → Type 0
WhenTaken P none = Unit {0}
WhenTaken P (some ds) = P ds

-- Another address that was not there is not there afterwards.
take_entry-Lacks :
    (y id x : ℕ) (ds : List Device) → x ≢ y → Lacks y ds → WhenTaken (Lacks y) (take_entry id x ds)
unfolding take_entry
take_entry-Lacks y id x [] ne h = tt
take_entry-Lacks y id x (d ∷ ds) ne h =
    taken (d.node_id == 0) (take_entry id x ds) (take_entry-Lacks y id x ds ne h.1)
  where
    taken :
        (b : Bool) (o : Option (List Device))
        → WhenTaken (Lacks y) o
        → WhenTaken (Lacks y) (
            if b
            then some (record no_device { node_id = id; ieee = x; state = new_joined } ∷ ds)
            else added_later d o)
    taken true o g = (ne, h.1)
    taken false none g = tt
    taken false (some es) g = (h.0, g)

take_entry-Distinct :
    (id x : ℕ) (ds : List Device)
    → HasDistinct ds
    → Lacks x ds
    → WhenTaken HasDistinct (take_entry id x ds)
unfolding take_entry
take_entry-Distinct id x [] h l = tt
take_entry-Distinct id x (d ∷ ds) h l =
    taken (d.node_id == 0) (take_entry id x ds) (take_entry-Distinct id x ds h.1 l.1)
      (λ ne g. take_entry-Lacks d.ieee id x ds ne g)
  where
    first :
        (es : List Device)
        → ((x ≢ d.ieee) → Lacks d.ieee ds → Lacks d.ieee es)
        → (d.ieee ≡ 0) ⊎ Lacks d.ieee ds
        → (d.ieee ≡ 0) ⊎ Lacks d.ieee es
    first es f (inl z) = inl z
    first es f (inr g) = inr (f (λ e. l.0 (sym e)) g)

    taken :
        (b : Bool) (o : Option (List Device))
        → WhenTaken HasDistinct o
        → ((x ≢ d.ieee) → Lacks d.ieee ds → WhenTaken (Lacks d.ieee) o)
        → WhenTaken HasDistinct (
            if b
            then some (record no_device { node_id = id; ieee = x; state = new_joined } ∷ ds)
            else added_later d o)
    taken true o g f = (inr l.1, h.1)
    taken false none g f = tt
    taken false (some es) g f = (first es f h.0, g)

-- The table and count that are added to.
abbrev WhenAdded : Option (List Device × ℕ) → Type 0
WhenAdded none = Unit {0}
WhenAdded (some t) = HasDistinct t.0

add_new_device-Distinct :
    (id x count : ℕ) (ds : List Device)
    → HasDistinct ds
    → find_by_ieee x ds ≡ none
    → WhenAdded (add_new_device id x (ds, count))
unfolding add_new_device find_by_ieee
add_new_device-Distinct id x count ds h none_found = elim (Bool-cases (valid_ieee x)) [
  | inl y ↦ rw y (
      checked (valid_node_id id) (take_entry id x ds)
        (take_entry-Distinct id x ds h (scan_ieee-Lacks x ds (rw y at none_found))))
  | inr n ↦ rw n (refused (valid_node_id id))
]
  where
    checked :
        (b : Bool) (o : Option (List Device))
        → WhenTaken HasDistinct o
        → WhenAdded (if b then with_count count o else none)
    checked true none g = tt
    checked true (some es) g = g
    checked false o g = tt

    refused : (b : Bool) → WhenAdded (if b then none else none)
    refused true = tt
    refused false = tt

module _ {ℓ} {F : Type ℓ} where
  abbrev pub HostDistinct : Host F → Type 0
  HostDistinct h = HasDistinct h.work.devices

  -- The qualification changes no address.
  pub qualified-Distinct : (k : ℕ) (h : Host F) → HostDistinct h → Then HostDistinct (qualified k h)
  qualified-Distinct k h d =
      Then->>= (Same h.work) HostDistinct (new_device_qualify_process k h.work) _
        (new_device_qualify_process-Same k h.work) (λ w e. subst IsDistinct (sym e) d)

  added-Distinct :
      (h : Host F) (i : Option ℕ) (o : Option (List Device × ℕ))
      → HostDistinct h
      → WhenAdded o
      → Then HostDistinct (added h i o)
  added-Distinct h none none d g = d
  added-Distinct h none (some t) d g = d
  added-Distinct h (some k) none d g = d
  added-Distinct h (some k) (some t) d g = qualified-Distinct k (put_table t h) g

  pub handle_device_announce-Distinct :
      (m : List ℕ) (h : Host F) → HostDistinct h → Then HostDistinct (handle_device_announce m h)
  unfolding handle_device_announce
  handle_device_announce-Distinct m h d = go (find_by_ieee ieee h.work.devices) refl
    where
      ieee : ℕ
      ieee = ntohd (little_endian 8 (drop 2 m))

      h' : Host F
      h' = record h { nodes = announce (half m 0) ieee h.nodes }

      new : Run (Host F)
      new =
          added h' (scan_index 0 h.work.devices)
            (add_new_device (half m 0) ieee (h.work.devices, h.count))

      go :
          (o : Option Device)
          → find_by_ieee ieee h.work.devices ≡ o
          → Then HostDistinct (elim o as (λ x. Run (Host F)) [ none ↦ new | some e ↦ done h' ])
      go (some e) f = d
      go none f =
          added-Distinct h' (scan_index 0 h.work.devices) _ d
            (add_new_device-Distinct (half m 0) ieee h.count h.work.devices d f)

  -- The device at `k` is changed but for its address, and qualified.
  pub put-Distinct :
      (k : ℕ) (h : Host F) (d e : Device)
      → HostDistinct h
      → IsAt k h.work d
      → e.ieee ≡ d.ieee
      → HasDistinct (put_at k e h.work).devices
  put-Distinct k h d e p at same = subst IsDistinct (sym (put_at-Same k h.work d e at same)) p

  -- A handler that reads the entry of a device, and leaves an active one alone.
  pub entry-Distinct :
      (k : ℕ) (h : Host F) (next : Device → Run (Host F))
      → ((d : Device) → IsAt k h.work d → Then HostDistinct (next d))
      → Then HostDistinct (device_at k h.work >>= next)
  entry-Distinct k h next g =
      Then->>= (IsAt k h.work) HostDistinct (device_at k h.work) next (device_at-IsAt k h.work) g
