-- ===== src/Matter/Slots/Added.antt =====
-- What `AddDeviceEndpoint` leaves.
use dm_matter_zigbee_bridge.Prelude.{
  ℕ, zero, suc, ◌+◌, ◌%◌, ◌<◌, ◌≤◌, true, false, none, some, Option, List, [], ◌∷◌, All, set, take,
  length, ltb, ◌≡◌, refl, ap, ◌∙◌, arith, get_elem?, get_elem?-bound, get_elem?-set_self,
  if◌then◌else◌, done, fault, ◌>>=◌,
}
use dm_matter_zigbee_bridge.Nodes.{Node, Saved, FlashOps, Nodes}
use dm_matter_zigbee_bridge.Nodes.Join.{update_joined_nodes}
use dm_matter_zigbee_bridge.Matter.{Object, Manager, object_at}
use dm_matter_zigbee_bridge.Matter.Slots.{
  Answer, accepted, greatest_ep, free_slot, slot_later, settle, in_slot, behind_saved,
  add_device_endpoint,
}
use dm_matter_zigbee_bridge.Matter.Slots.Removed.{IsLive}
use dm_matter_zigbee_bridge.Matter.Slots.Settles.{endpoint_after, TakenFor, placed, settle-after}

-- The entries that are read have no greater endpoint.
greatest_ep-bound :
    (n : ℕ) (ns : List Node) (g e : ℕ)
    → greatest_ep n ns g ≡ done e
    → (g ≤ e) × All (λ j. j.ep ≤ e) (take n ns)
unfolding greatest_ep
greatest_ep-bound zero ns g e h = (omega (arith, inj h), tt)
  where
    inj : done g ≡ done e → g ≡ e
    inj p = cc
greatest_ep-bound (suc n) [] g e h = absurd (wrong h)
  where
    wrong : fault ≡ done e → ⊥
    wrong p = cc
greatest_ep-bound (suc n) (j ∷ ns) g e h =
    let (b, rest) = greatest_ep-bound n ns (if ltb g j.ep then j.ep else g) e h in
    (ground arith, (ground arith, rest))

pub free_slot-bound :
    (slots : List (Option ℕ)) (i : ℕ) → free_slot slots ≡ some i → i < length slots
unfolding free_slot
free_slot-bound [] i h = absurd (wrong h)
  where
    wrong : none ≡ some i → ⊥
    wrong p = cc
free_slot-bound (none ∷ slots) i h = omega (arith, inj h)
  where
    inj : some 0 ≡ some i → 0 ≡ i
    inj p = cc
free_slot-bound (some d ∷ slots) i h =
    behind (free_slot slots) (λ j e. free_slot-bound slots j e) refl h
  where
    behind :
        (o : Option ℕ)
        → ((j : ℕ) → free_slot slots ≡ some j → j < length slots)
        → free_slot slots ≡ o
        → slot_later o ≡ some i
        → i < length (some d ∷ slots)
    behind none f e q = absurd (wrong q)
      where
        wrong : none ≡ some i → ⊥
        wrong p = cc
    behind (some j) f e q = omega (arith, f j e, inj q)
      where
        inj : some (suc j) ≡ some i → suc j ≡ i
        inj p = cc

module _ {ℓ} {F : Type ℓ} (ops : FlashOps F) where
  -- A device that is added for the first time, with the nodes in flash and a slot for it.
  pub record CanAdd (dev i e : ℕ) (o : Object) (s : Saved) (m : Manager F) : Type ℓ where
    pub live : IsLive dev o m
    pub is_new : o.reachable ≡ false
    pub in_flash : ops.read m.nodes.flash ≡ some s
    pub greatest : greatest_ep s.total s.nodes 0 ≡ done e
    pub small : e < 65535
    pub free : free_slot m.slots ≡ some i

  -- The manager as the inner loop finds it.
  abbrev pub seated : ℕ → ℕ → ℕ → Manager F → Manager F
  seated dev i e m = record m { current = e + 1; slots = set m.slots i (some dev) }

  behind_saved-at :
      (dev i e : ℕ) (o : Object) (s : Saved) (m : Manager F)
      → CanAdd dev i e o s m
      → behind_saved ops m ≡ done (record m { current = e + 1 })
  unfolding behind_saved
  behind_saved-at dev i e o s m can =
      rw (behind_saved, can.in_flash)
        (rw (can.greatest) (ap (λ c. done (record m { current = c })) wraps))
    where
      wraps : (e + 1) % 65536 ≡ e + 1
      wraps = omega (arith, can.small)

  add_device_endpoint-settle :
      (answer : ℕ → ℕ → Answer) (fuel dev i e : ℕ) (o : Object) (s : Saved) (m : Manager F)
      → CanAdd dev i e o s m
      → add_device_endpoint ops answer fuel dev m
        ≡ settle ops (answer i) fuel i dev (seated dev i e m)
  unfolding add_device_endpoint
  add_device_endpoint-settle answer fuel dev i e o s m can =
      rw (add_device_endpoint, object_at, can.live)
        (rw (can.is_new, behind_saved-at dev i e o s m can)
          (ap (in_slot ops answer fuel dev (record m { current = e + 1 })) can.free))

  -- AddDeviceEndpoint for a device that is added for the first time, with a free slot and nodes
  -- in flash whose greatest endpoint is below 65535: when the Matter SDK has the first n
  -- endpoints that are tried, beginning behind the greatest one in flash, and accepts the next,
  -- the inner loop ends with round n + 1, the device gets that endpoint and is reachable, the
  -- first free slot points to it, and the joined nodes are those that UpdateJoinedNodes leaves.
  pub add_device_endpoint-behind :
      (answer : ℕ → ℕ → Answer) (n k dev i e : ℕ) (o : Object) (s : Saved) (m : Manager F)
      (ns : Nodes F)
      → CanAdd dev i e o s m
      → TakenFor n (answer i) m.first (e + 1)
      → answer i (endpoint_after n m.first (e + 1)) ≡ accepted
      → update_joined_nodes ops (endpoint_after n m.first (e + 1)) m.nodes ≡ done ns
      → (u : Manager F) × (add_device_endpoint ops answer (suc (n + k)) dev m ≡ done (u, some i))
        × IsLive dev (record o { reachable = true; endpoint = endpoint_after n m.first (e + 1) }) u
        × (get_elem? u.slots i ≡ some (some dev))
        × (u.nodes ≡ ns)
        × All (λ j. j.ep ≤ e) (take s.total s.nodes)
  add_device_endpoint-behind answer n k dev i e o s m ns can taken ok runs =
      let m' = seated dev i e m in
      let e' = endpoint_after n m.first (e + 1) in
      (
        placed ops dev o e' m' ns,
        add_device_endpoint-settle answer (suc (n + k)) dev i e o s m can
            ∙ settle-after ops (answer i) n k i dev o m' can.live taken ok
            ∙ ap (λ r. r >>= λ x. done (placed ops dev o e' m' x, some i)) runs,
        get_elem?-set_self m.heap dev _ (get_elem?-bound m.heap dev (some o) can.live),
        get_elem?-set_self m.slots i _ (free_slot-bound m.slots i can.free),
        refl,
        (greatest_ep-bound s.total s.nodes 0 e can.greatest).1,
      )
