-- ===== src/Matter/Slots/Leaks.antt =====
-- What `AddDeviceEndpoint` leaves when the Matter SDK refuses an endpoint.
use dm_matter_zigbee_bridge.Prelude.{
  ℕ, suc, ◌+◌, ◌%◌, false, none, some, set, ◌≡◌, refl, ap, ◌∙◌, get_elem?, get_elem?-set_self,
  get_elem?-bound, done,
}
use dm_matter_zigbee_bridge.Nodes.{Saved, FlashOps}
use dm_matter_zigbee_bridge.Matter.{Object, Manager, object_at}
use dm_matter_zigbee_bridge.Matter.Slots.{
  Answer, refused, greatest_ep, free_slot, with_endpoint, settle, in_slot, behind_saved,
  add_device_endpoint,
}
use dm_matter_zigbee_bridge.Matter.Slots.Removed.{IsLive}
use dm_matter_zigbee_bridge.Matter.Slots.Settles.{
  endpoint_after, TakenFor, given_up, settle-refused,
}
use dm_matter_zigbee_bridge.Matter.Slots.Added.{free_slot-bound}

module _ {ℓ} {F : Type ℓ} (ops : FlashOps F) where
  -- The endpoint that is tried first: the current one if the flash cannot be read, and otherwise the
  -- one behind the greatest in flash.
  pub data IsTried (m : Manager F) : ℕ → Type ℓ where
    unread : ops.read m.nodes.flash ≡ none → IsTried m m.current
    behind :
        (s : Saved) (e : ℕ)
        → ops.read m.nodes.flash ≡ some s
        → greatest_ep s.total s.nodes 0 ≡ done e
        → IsTried m ((e + 1) % 65536)

  behind_saved-IsTried :
      (c : ℕ) (m : Manager F) → IsTried m c → behind_saved ops m ≡ done (record m { current = c })
  unfolding behind_saved
  behind_saved-IsTried _ m (unread h) = rw (behind_saved, h) refl
  behind_saved-IsTried _ m (behind s e h g) = rw (behind_saved, h) (rw g refl)

  -- The manager as the inner loop finds it.
  abbrev tried_in : ℕ → ℕ → ℕ → Manager F → Manager F
  tried_in dev i c m = record m { current = c; slots = set m.slots i (some dev) }

  begins :
      (answer : ℕ → ℕ → Answer) (fuel dev i c : ℕ) (o : Object) (m : Manager F)
      → IsLive dev o m
      → o.reachable ≡ false
      → free_slot m.slots ≡ some i
      → IsTried m c
      → add_device_endpoint ops answer fuel dev m
        ≡ settle ops (answer i) fuel i dev (tried_in dev i c m)
  unfolding add_device_endpoint
  begins answer fuel dev i c o m live is_new free tried =
      rw (add_device_endpoint, object_at, live)
        (rw (is_new, behind_saved-IsTried c m tried)
          (ap (in_slot ops answer fuel dev (record m { current = c })) free))

  -- AddDeviceEndpoint for a device that is not reachable yet, with a free slot: the endpoint that
  -- is tried first is the current one if the flash cannot be read, and otherwise the one behind
  -- the greatest in flash. When the Matter SDK has the first n endpoints that are tried and
  -- refuses the next with another error than that it exists, AddDeviceEndpoint fails in round n +
  -- 1, but the slot points to the device, which keeps the refused endpoint and is not reachable;
  -- the joined nodes stay as they were.
  pub add_device_endpoint-leaks :
      (answer : ℕ → ℕ → Answer) (n k dev i c : ℕ) (o : Object) (m : Manager F)
      → IsLive dev o m
      → o.reachable ≡ false
      → free_slot m.slots ≡ some i
      → IsTried m c
      → TakenFor n (answer i) m.first c
      → answer i (endpoint_after n m.first c) ≡ refused
      → (u : Manager F) × (add_device_endpoint ops answer (suc (n + k)) dev m ≡ done (u, none))
        × (get_elem? u.slots i ≡ some (some dev))
        × IsLive dev (with_endpoint o (endpoint_after n m.first c)) u
        × (u.nodes ≡ m.nodes)
  add_device_endpoint-leaks answer n k dev i c o m live is_new free tried taken no_ok =
      let m' = tried_in dev i c m in
      (
        given_up ops dev o (endpoint_after n m.first c) m',
        begins answer (suc (n + k)) dev i c o m live is_new free tried
            ∙ settle-refused ops (answer i) n k i dev o m' live taken no_ok,
        get_elem?-set_self m.slots i _ (free_slot-bound m.slots i free),
        get_elem?-set_self m.heap dev _ (get_elem?-bound m.heap dev (some o) live),
        refl,
      )
