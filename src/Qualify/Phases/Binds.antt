-- ===== src/Qualify/Phases/Binds.antt =====
-- What binding the clusters of a device comes to: one request for each cluster that has attributes
-- to be bound, in order, an entry in the attribute table for each of these, and an active device.
use dm_matter_zigbee_bridge.Prelude.{
  ℕ, zero, suc, true, ◌&&◌, some, List, [], ◌∷◌, ◌++◌, append_assoc, append-nil, ◌≡◌, refl, sym, ap,
  ◌∙◌, arith, All, length, ◌<◌, get_elem?, get_elem?-bound, get_elem?-set_self, Run, done,
}
use dm_matter_zigbee_bridge.Zcb.{Call}
use dm_matter_zigbee_bridge.Devices.{Device, Attribute, valid_node_id, valid_endpoint}
use dm_matter_zigbee_bridge.Devices.Adding.Counts.{has_in_device}
use dm_matter_zigbee_bridge.Qualify.{Work, active, device_at, put_at}
use dm_matter_zigbee_bridge.Qualify.Phases.{
  Place, places, bound_attributes, add_attributes, bound, bind_place, bind_places, activate,
  bind_clusters,
}
use dm_matter_zigbee_bridge.Qualify.Phases.Plan.{
  fill_all, fill_places, request_for, requests_for, Grows, Grows-self, CanCount,
  add_attribute-Grows, Grows->>=, CanCount-later, Grows-named,
}

add_attributes-Grows :
    (id ep cluster : ℕ) (added : List ℕ) (w : Work)
    → CanCount id ep cluster w
    → Grows w
        (add_attributes id ep cluster added w)
        (fill_all id ep cluster added w.attributes)
        w.log
unfolding add_attributes fill_all
add_attributes-Grows id ep cluster [] w can = Grows-self w
add_attributes-Grows id ep cluster (a ∷ more) w can =
    let g = add_attribute-Grows id ep cluster a w can in
    let h =
      add_attributes-Grows id ep cluster more g.u (CanCount-later id ep cluster w _ _ _ g can) in
    Grows->>= w _ _ _ _ _ _ g
      (Grows-named g.u _ _ _ _ _ (ap (fill_all id ep cluster more) g.rows_are) g.log_is h)

bound-Grows :
    (mac : ℕ) (p : Place) (added : List ℕ) (w : Work)
    → Grows w
        (done (bound mac p.ep p.cluster added w))
        w.attributes
        (w.log ++ request_for w.own_mac mac p added)
bound-Grows mac p [] w = Grows-named w _ _ _ _ _ refl (sym (append-nil w.log)) (Grows-self w)
bound-Grows mac p (a ∷ more) w = record {
  u = bound mac p.ep p.cluster (a ∷ more) w;
  runs = refl;
  rows_are = refl;
  log_is = refl;
  mac_is = refl;
  same = λ i e c. refl;
  as_long = refl;
}

-- The places whose clusters can be counted, if attributes are added for them.
abbrev pub Bindable : ℕ → Work → Place → Type 0
Bindable id w p =
    ((valid_node_id id && valid_endpoint p.ep) ≡ true)
    × (has_in_device id p.ep p.cluster w.devices ≡ true)

bind_place-Grows :
    (id mac : ℕ) (p : Place) (w : Work)
    → Bindable id w p
    → Grows w
        (bind_place id mac p w)
        (fill_all id p.ep p.cluster (bound_attributes p.device_type p.cluster) w.attributes)
        (w.log ++ request_for w.own_mac mac p (bound_attributes p.device_type p.cluster))
bind_place-Grows id mac p w can =
    let added = bound_attributes p.device_type p.cluster in
    let g = add_attributes-Grows id p.ep p.cluster added w can in
    let h = bound-Grows mac p added g.u in
    Grows->>= w _ _ _ _ _ _ g (
      Grows-named g.u _ _ _ _ _ g.rows_are
        (ap (λ l. l ++ request_for g.u.own_mac mac p added) g.log_is
          ∙ ap (λ m. w.log ++ request_for m mac p added) g.mac_is)
        h)

Bindable-later :
    (id : ℕ) (w : Work) (r : Run Work) (rows : List Attribute) (log : List Call) (ps : List Place)
    → (g : Grows w r rows log) → All (Bindable id w) ps
    → All (Bindable id g.u) ps
Bindable-later id w r rows log [] g a = tt
Bindable-later id w r rows log (p ∷ ps) g (b, rest) =
    ((b.0, g.same id p.ep p.cluster ∙ b.1), Bindable-later id w r rows log ps g rest)

bind_places-Grows :
    (id mac : ℕ) (ps : List Place) (w : Work)
    → All (Bindable id w) ps
    → Grows w
        (bind_places id mac ps w)
        (fill_places id ps w.attributes)
        (w.log ++ requests_for w.own_mac mac ps)
unfolding bind_places fill_places requests_for
bind_places-Grows id mac [] w a =
    Grows-named w _ _ _ _ _ refl (sym (append-nil w.log)) (Grows-self w)
bind_places-Grows id mac (p ∷ ps) w (b, rest) =
    let g = bind_place-Grows id mac p w b in
    let h = bind_places-Grows id mac ps g.u (Bindable-later id w _ _ _ ps g rest) in
    Grows->>= w _ _ _ _ _ _ g (
      Grows-named g.u _ _ _ _ _ (ap (fill_places id ps) g.rows_are)
        (ap (λ l. l ++ requests_for g.u.own_mac mac ps) g.log_is
          ∙ ap
              (λ m.
                (w.log ++ request_for w.own_mac mac p (bound_attributes p.device_type p.cluster))
                ++ requests_for m mac ps)
              g.mac_is
          ∙ append_assoc w.log _ _)
        h)

found_device : (ds : List Device) (k : ℕ) → k < length ds → (d : Device) × (get_elem? ds k ≡ some d)
found_device [] k h = absurd (omega arith)
found_device (d ∷ ds) zero h = (d, refl)
found_device (d ∷ ds) (suc k) h = found_device ds k (omega arith)

bind_clusters-run :
    (k : ℕ) (w : Work) (d : Device) (ps : List Place) (u : Work) (e : Device)
    → get_elem? w.devices k ≡ some d
    → places d.endpoint_count d.endpoints ≡ done ps
    → bind_places d.node_id d.ieee ps w ≡ done u
    → get_elem? u.devices k ≡ some e
    → bind_clusters k w ≡ done (put_at k (record e { state = active }) u)
unfolding bind_clusters
bind_clusters-run k w d ps u e at at_places runs at' =
    rw (bind_clusters, device_at, at) (rw at_places (rw runs (rw (activate, device_at, at'))))

-- The case BIND_CLUSTER of vZDM_NewDeviceQualifyProcess, for a device whose endpoints and
-- clusters can be read and whose node identifier, endpoints and clusters are valid and found in
-- the device table: it makes exactly one bind request for each cluster that has attributes to be
-- bound, in the order of the clusters; each of these attributes gets into the attribute table as
-- long as there is room; and the device is active.
pub bind_clusters-active :
    (k : ℕ) (w : Work) (d : Device) (ps : List Place)
    → get_elem? w.devices k ≡ some d
    → places d.endpoint_count d.endpoints ≡ done ps
    → All (Bindable d.node_id w) ps
    → (u : Work) × (e : Device) × (bind_clusters k w ≡ done u)
      × (u.log ≡ w.log ++ requests_for w.own_mac d.ieee ps)
      × (u.attributes ≡ fill_places d.node_id ps w.attributes)
      × (get_elem? u.devices k ≡ some e)
      × (e.state ≡ active)
unfolding bind_clusters
bind_clusters-active k w d ps at at_places can =
    let g = bind_places-Grows d.node_id d.ieee ps w can in
    let room : k < length g.u.devices =
      omega (arith, get_elem?-bound w.devices k d at, g.as_long) in
    let (d', at') = found_device g.u.devices k room in
    (
      put_at k (record d' { state = active }) g.u,
      record d' { state = active },
      bind_clusters-run k w d ps g.u d' at at_places g.runs at',
      g.log_is,
      g.rows_are,
      get_elem?-set_self g.u.devices k _ room,
      refl,
    )
