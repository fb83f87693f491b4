-- ===== src/Matter/Slots.antt =====
-- Adding and removing devices: `AddZcbNode`, `AddDeviceEndpoint`, `RemoveDeviceEndpoint`,
-- `RemoveDevice` and `RemoveAllDevice`. Names, locations and change callbacks are left out.
pub mod Added
pub mod Leaks
pub mod Settles
pub mod Removed
use dm_matter_zigbee_bridge.Prelude.{
  ℕ, zero, suc, ◌+◌, ◌%◌, Bool, true, false, Option, none, some, List, [], ◌∷◌, ◌++◌, length, set,
  get_elem?, ltb, ◌==◌, if◌then◌else◌, Run, done, fault, spin, ◌>>=◌,
}
use dm_matter_zigbee_bridge.Nodes.{Node, Saved, FlashOps, Nodes}
use dm_matter_zigbee_bridge.Nodes.Join.{update_joined_nodes}
use dm_matter_zigbee_bridge.Reports.Descriptor.{Supported}
use dm_matter_zigbee_bridge.Matter.{Object, Manager, object_at, put_object}

-- The result of `emberAfSetDynamicEndpoint`: no error, CHIP_ERROR_ENDPOINT_EXISTS, another error.
pub data Answer : Type 0 where
  accepted exists refused : Answer

-- The greatest endpoint of the first entries.
unfoldable pub greatest_ep : ℕ → List Node → ℕ → Run ℕ
greatest_ep zero ns greatest = done greatest
greatest_ep (suc n) [] greatest = fault
greatest_ep (suc n) (j ∷ ns) greatest =
    greatest_ep n ns (if ltb greatest j.ep then j.ep else greatest)

-- The first slot with a null pointer.
abbrev pub slot_later : Option ℕ → Option ℕ
slot_later none = none
slot_later (some i) = some (suc i)

unfoldable pub free_slot : List (Option ℕ) → Option ℕ
free_slot [] = none
free_slot (none ∷ slots) = some 0
free_slot (some dev ∷ slots) = slot_later (free_slot slots)

-- `++mCurrentEndpointId` with its wrap.
abbrev pub next_endpoint : ℕ → ℕ → ℕ
next_endpoint first current = let e = (current + 1) % 65536 in if ltb e first then first else e

-- The kinds of devices.
pub data Kind : Type 0 where
  color_light dimmable_light on_off_light temp_sensor : Kind

-- What `AddZcbNode` makes; for an occupancy sensor it makes nothing.
unfoldable pub kind_of : Supported → Option Kind
kind_of s =
    if s.color
    then some color_light
    else if s.dimmable
    then some dimmable_light
    else if s.on_off
    then some on_off_light
    else if s.temperature
    then some temp_sensor
    else none

abbrev pub with_endpoint : Object → ℕ → Object
with_endpoint o e = record o { endpoint = e }

-- An object as `new` makes it.
abbrev pub new_object : Supported → Object
new_object s = record { reachable = false; endpoint = 0; supported = s }

-- `RemoveDeviceEndpoint`: the first slot that points to the object is cleared.
abbrev pub is_slot : ℕ → Option ℕ → Bool
is_slot dev none = false
is_slot dev (some d) = d == dev

unfoldable pub clear_slot : ℕ → List (Option ℕ) → List (Option ℕ)
clear_slot dev [] = []
clear_slot dev (s ∷ slots) =
    let rest = clear_slot dev slots in if is_slot dev s then none ∷ slots else s ∷ rest

module _ {ℓ} {F : Type ℓ} where
  -- The inner loop of `AddDeviceEndpoint`; `answer` has the results for the slot by endpoint.
  abbrev pub settled : ℕ → Nodes F → Manager F → Run (Manager F × Option ℕ)
  settled i ns m = done (record m { nodes = ns }, some i)

  abbrev pub settle_answer :
      FlashOps F
      → ℕ
      → ℕ
      → Object
      → Manager F
      → Run (Manager F × Option ℕ)
      → Answer
      → Run (Manager F × Option ℕ)
  settle_answer ops i dev o m again accepted = update_joined_nodes ops m.current m.nodes >>= λ ns.
      settled i ns (put_object dev (record o { reachable = true }) m)
  settle_answer ops i dev o m again exists = again
  settle_answer ops i dev o m again refused = done (m, none)

  unfoldable pub settle :
      FlashOps F → (ℕ → Answer) → ℕ → ℕ → ℕ → Manager F → Run (Manager F × Option ℕ)
  settle ops answer zero i dev m = spin
  settle ops answer (suc fuel) i dev m = object_at dev m >>= λ o.
      let o' = with_endpoint o m.current in
      let m' = put_object dev o' m in
      let again =
        settle ops answer fuel i dev (record m' { current = next_endpoint m.first m.current }) in
      settle_answer ops i dev o' m' again (answer m.current)

  -- The start of `AddDeviceEndpoint`: the endpoint behind those in flash.
  unfoldable pub behind_saved : FlashOps F → Manager F → Run (Manager F)
  behind_saved ops m = elim (ops.read m.nodes.flash) [
    | none ↦ done m
    | some s ↦ greatest_ep s.total s.nodes 0 >>= λ e. done (record m { current = (e + 1) % 65536 })
  ]

  -- The object is put into the slot that is found.
  abbrev pub in_slot :
      FlashOps F → (ℕ → ℕ → Answer) → ℕ → ℕ → Manager F → Option ℕ → Run (Manager F × Option ℕ)
  in_slot ops answer fuel dev m none = done (m, none)
  in_slot ops answer fuel dev m (some i) =
      settle ops (answer i) fuel i dev (record m { slots = set m.slots i (some dev) })

  -- `AddDeviceEndpoint` for the object `dev`: the index of the slot, or `none` for -1.
  unfoldable pub add_device_endpoint :
      FlashOps F → (ℕ → ℕ → Answer) → ℕ → ℕ → Manager F → Run (Manager F × Option ℕ)
  add_device_endpoint ops answer fuel dev m = object_at dev m >>= λ o.
      let added =
        behind_saved ops m >>= λ m'. in_slot ops answer fuel dev m' (free_slot m'.slots) in
      if o.reachable then done (m, none) else added

  -- `AddNewZcbNode`: the object is made, and gets a slot.
  unfoldable pub add_new_zcb_node :
      FlashOps F → (ℕ → ℕ → Answer) → ℕ → Supported → Manager F → Run (Manager F)
  add_new_zcb_node ops answer fuel s m = elim (kind_of s) [
    | none ↦ done m
    | some kind ↦
        add_device_endpoint ops answer fuel (length m.heap)
          (record m { heap = m.heap ++ (some (new_object s) ∷ []) })
        >>= λ r. done r.0
  ]

  -- `delete dev`; to delete an object twice is undefined.
  abbrev pub delete_object : ℕ → Manager F → Run (Manager F)
  delete_object dev m = object_at dev m >>= λ o. done (record m { heap = set m.heap dev none })

  -- One of the four tests of `RemoveDevice`, which each read the object.
  abbrev pub delete_if : (Supported → Bool) → ℕ → Manager F → Run (Manager F)
  delete_if has dev m = object_at dev m >>= λ o.
      let deleted = delete_object dev m in if has o.supported then deleted else done m

  unfoldable pub remove_device : ℕ → Manager F → Run (Manager F)
  remove_device dev m =
      delete_if (λ s. s.on_off) dev (record m { slots = clear_slot dev m.slots })
      >>= delete_if (λ s. s.dimmable) dev
      >>= delete_if (λ s. s.dimmable) dev
      >>= delete_if (λ s. s.temperature) dev

  -- `RemoveAllDevice`.
  unfoldable pub remove_slots : ℕ → ℕ → Manager F → Run (Manager F)
  remove_slots zero i m = done m
  remove_slots (suc n) i m = elim (get_elem? m.slots i) [
    | none ↦ fault
    | some none ↦ remove_slots n (suc i) m
    | some (some dev) ↦ remove_device dev m >>= remove_slots n (suc i)
  ]

  unfoldable pub remove_all_device : Manager F → Run (Manager F)
  remove_all_device m =
      remove_slots (length m.slots) 0 m >>= λ m'. done (record m' { current = m'.first })
