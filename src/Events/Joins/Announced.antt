-- ===== src/Events/Joins/Announced.antt =====
-- What the handlers of the first two steps rest on: the entry that a new device gets, and the process
-- in the states NEW_JOINED and GET_CLUSTER.
use dm_matter_zigbee_bridge.Prelude.{
  ℕ, zero, suc, ◌+◌, ◌%◌, ◌<◌, true, false, Bool-cases, Option, none, some, List, [], ◌∷◌, ◌++◌,
  set, length, get_elem?, ◌==◌, eq→==, ◌≡◌, refl, sym, ap, ◌∙◌, arith, inl, inr, done,
}
use dm_matter_zigbee_bridge.Zcb.{Call}
use dm_matter_zigbee_bridge.Zcb.Requests.{active_endpoint_request, simple_descriptor_request}
use dm_matter_zigbee_bridge.Devices.{Endpoint, Device, no_device, valid_node_id, valid_ieee}
use dm_matter_zigbee_bridge.Devices.Table.{
  new_joined, counted, scan_index, take_entry, add_new_device,
}
use dm_matter_zigbee_bridge.Qualify.{Reply, answered, Work, active, get_cluster, device_at}
use dm_matter_zigbee_bridge.Qualify.Phases.{join, is_skipped, endpoint_before, ask_descriptor}
use dm_matter_zigbee_bridge.Qualify.Process.{phase, round, rounds, new_device_qualify_process}
use dm_matter_zigbee_bridge.Events.{named}

-- The entry of a device that has just joined.
abbrev pub newcomer : ℕ → ℕ → Device
newcomer id ieee = record no_device { node_id = id; ieee = ieee; state = new_joined }

pub never_none {ℓ} : {A : Type ℓ} (a : A) → some a ≡ none → ⊥
never_none a p = cc

pub some_inj {ℓ} : {A : Type ℓ} (a b : A) → some a ≡ some b → a ≡ b
some_inj a b p = cc

counted-none : (o : Option ℕ) → counted o ≡ none → o ≡ none
counted-none none h = refl
counted-none (some i) h = absurd (never_none (suc i) h)

pub counted-some :
    (o : Option ℕ) (k : ℕ) → counted o ≡ some k → (i : ℕ) × (o ≡ some i) × (suc i ≡ k)
counted-some none k h = absurd (never_none k (sym h))
counted-some (some i) k h = (i, refl, some_inj (suc i) k h)

take_entry-at :
    (id ieee k : ℕ) (ds : List Device)
    → scan_index 0 ds ≡ some k
    → take_entry id ieee ds ≡ some (set ds k (newcomer id ieee))
unfolding scan_index take_entry
take_entry-at id ieee k [] h = absurd (never_none k (sym h))
take_entry-at id ieee k (d ∷ ds) h = elim (Bool-cases (d.node_id == 0)) [
  | inl y ↦ rw y (at_entry 0 (some_inj 0 k (rw y at h)))
  | inr n ↦
      let (i, e, q) = counted-some (scan_index 0 ds) k (rw n at h) in
      rw n (rw (take_entry-at id ieee i ds e) (at_entry (suc i) q))
]
  where
    at_entry :
        (i : ℕ)
        → i ≡ k
        → some (set (d ∷ ds) i (newcomer id ieee)) ≡ some (set (d ∷ ds) k (newcomer id ieee))
    at_entry i q = ap (λ j. some (set (d ∷ ds) j (newcomer id ieee))) q

pub scan_index-bound : (id k : ℕ) (ds : List Device) → scan_index id ds ≡ some k → k < length ds
unfolding scan_index
scan_index-bound id k [] h = absurd (never_none k (sym h))
scan_index-bound id k (d ∷ ds) h = elim (Bool-cases (d.node_id == id)) [
  | inl y ↦ omega (arith, some_inj 0 k (rw y at h))
  | inr n ↦
      let (i, e, q) = counted-some (scan_index id ds) k (rw n at h) in
      omega (arith, scan_index-bound id i ds e, q)
]

pub scan_index-set :
    (id k : ℕ) (ds : List Device) (e : Device)
    → k < length ds
    → scan_index id ds ≡ none
    → e.node_id ≡ id
    → scan_index id (set ds k e) ≡ some k
unfolding scan_index
scan_index-set id k [] e lt h named = absurd (omega arith)
scan_index-set id zero (d ∷ ds) e lt h named = rw (eq→== e.node_id id named) refl
scan_index-set id (suc k) (d ∷ ds) e lt h named = elim (Bool-cases (d.node_id == id)) [
  | inl y ↦ absurd (never_none 0 (rw y at h))
  | inr n ↦
      rw n (rw (scan_index-set id k ds e (omega arith) (counted-none _ (rw n at h)) named) refl)
]

pub add_new_device-at :
    (id ieee k count : ℕ) (ds : List Device)
    → valid_node_id id ≡ true
    → valid_ieee ieee ≡ true
    → scan_index 0 ds ≡ some k
    → add_new_device id ieee (ds, count) ≡ some (set ds k (newcomer id ieee), (count + 1) % 65536)
unfolding add_new_device
add_new_device-at id ieee k count ds v w free =
    rw (add_new_device, v, w) (rw (take_entry-at id ieee k ds free) refl)

-- A round that ends the loop of a device that is not active.
pub ends-process :
    (k : ℕ) (w u : Work) (d : Device)
    → round k w ≡ done (u, false)
    → get_elem? u.devices k ≡ some d
    → (d.state == active) ≡ false
    → new_device_qualify_process k w ≡ done u
unfolding new_device_qualify_process rounds
ends-process k w u d runs at off = rw runs (rw (device_at, at) (rw off refl))

pub round-at :
    (k : ℕ) (w : Work) (d : Device) → get_elem? w.devices k ≡ some d → round k w ≡ phase d.state k w
unfolding round
round-at k w d at = rw (round, device_at, at) refl

-- The requests so far, and the replies to come.
abbrev pub asked : Call → List Reply → Work → Work
asked c rest w = record w { replies = rest; log = w.log ++ (c ∷ []) }

join-asked :
    (k : ℕ) (w : Work) (d : Device) (rest : List Reply)
    → get_elem? w.devices k ≡ some d
    → w.replies ≡ answered ∷ rest
    → join k w ≡ done (asked (active_endpoint_request d.node_id) rest w, false)
unfolding join
join-asked k w d rest at replies = rw (join, device_at, at) (rw replies refl)

-- The process for a device that has just joined and answers the first request.
pub joined-asked :
    (k : ℕ) (w : Work) (d : Device) (rest : List Reply)
    → get_elem? w.devices k ≡ some d
    → d.state ≡ new_joined
    → w.replies ≡ answered ∷ rest
    → new_device_qualify_process k w ≡ done (asked (active_endpoint_request d.node_id) rest w)
unfolding phase
joined-asked k w d rest at state replies =
    ends-process k w _ d
      (round-at k w d at
        ∙ rw (phase, eq→== d.state new_joined state) (join-asked k w d rest at replies))
      at (ap (λ s. s == active) state)

ask_descriptor-asked :
    (k : ℕ) (w : Work) (d : Device) (e : Endpoint) (rest : List Reply)
    → get_elem? w.devices k ≡ some d
    → w.ep_index < 255
    → get_elem? d.endpoints w.ep_index ≡ some e
    → is_skipped e.id ≡ false
    → w.replies ≡ answered ∷ rest
    → ask_descriptor k w
      ≡ done (
          asked
            (simple_descriptor_request d.node_id 1)
            rest
            (record w { ep_index = suc w.ep_index }))
unfolding ask_descriptor
ask_descriptor-asked k w d e rest at small here kept replies =
    rw (ask_descriptor, device_at, at)
      (rw next (rw (endpoint_before, here) (rw (is_skipped, kept) (rw replies refl))))
  where
    next : (w.ep_index + 1) % 256 ≡ suc w.ep_index
    next = omega arith

-- The process for a device whose next endpoint is to be described, when the request is answered.
pub descriptor-asked :
    (k : ℕ) (w : Work) (d : Device) (e : Endpoint) (rest : List Reply)
    → get_elem? w.devices k ≡ some d
    → d.state ≡ get_cluster
    → w.ep_index < 255
    → get_elem? d.endpoints w.ep_index ≡ some e
    → is_skipped e.id ≡ false
    → w.replies ≡ answered ∷ rest
    → new_device_qualify_process k w
      ≡ done (
          asked
            (simple_descriptor_request d.node_id 1)
            rest
            (record w { ep_index = suc w.ep_index }))
unfolding phase
descriptor-asked k w d e rest at state small here kept replies =
    ends-process k w _ d
      (round-at k w d at
        ∙ rw (phase, ap (λ s. s == new_joined) state, ap (λ s. s == get_cluster) state)
            (rw (ask_descriptor-asked k w d e rest at small here kept replies) refl))
      at (ap (λ s. s == active) state)
