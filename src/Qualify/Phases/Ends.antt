-- ===== src/Qualify/Phases/Ends.antt =====
-- No phase runs out of fuel.
use dm_matter_zigbee_bridge.Prelude.{
  ℕ, zero, suc, Bool, true, false, ◌&&◌, Option, none, some, List, [], ◌∷◌, ◌+◌, ◌%◌, get_elem?,
  length, ltb, ◌==◌, if◌then◌else◌, Run, done, fault, spin, ◌>>=◌,
}
use dm_matter_zigbee_bridge.Devices.{
  Cluster, Endpoint, Device, Attribute, valid_node_id, valid_endpoint,
}
use dm_matter_zigbee_bridge.Devices.Adding.{
  count_in_clusters, count_in_endpoints, count_attribute, counted_row, take_row, add_new_attribute,
}
use dm_matter_zigbee_bridge.Qualify.{Work, device_at}
use dm_matter_zigbee_bridge.Qualify.Phases.{
  Place, places_of, places, ask_descriptor, endpoint_before, add_attribute, read_place, read_places,
  read_models, add_attributes, bind_place, bind_places, bind_clusters,
}

-- No loop that outran its fuel.
abbrev pub Ends {ℓ} : {A : Type ℓ} → Run A → Type 0
Ends (done a) = Unit {0}
Ends fault = Unit {0}
Ends spin = ⊥

pub Ends->>= {ℓ κ} :
    {A : Type ℓ} {B : Type κ} (m : Run A) (f : A → Run B)
    → Ends m
    → ((a : A) → Ends (f a))
    → Ends (m >>= f)
Ends->>= (done a) f h k = k a
Ends->>= fault f h k = tt
Ends->>= spin f h k = h

pub Ends-if {ℓ} :
    {A : Type ℓ} (b : Bool) (x y : Run A) → Ends x → Ends y → Ends (if b then x else y)
Ends-if true x y p q = p
Ends-if false x y p q = q

count_in_clusters-Ends : (cluster : ℕ) (cs : List Cluster) → Ends (count_in_clusters cluster cs)
unfolding count_in_clusters
count_in_clusters-Ends cluster [] = tt
count_in_clusters-Ends cluster (c ∷ cs) =
    Ends-if (c.id == cluster) _ _ tt (Ends->>= _ _ (count_in_clusters-Ends cluster cs) (λ r. tt))

count_in_endpoints-Ends :
    (ep cluster : ℕ) (es : List Endpoint) → Ends (count_in_endpoints ep cluster es)
unfolding count_in_endpoints
count_in_endpoints-Ends ep cluster [] = tt
count_in_endpoints-Ends ep cluster (e ∷ es) =
    Ends-if (e.id == ep) _ _
      (Ends->>= _ _ (Ends->>= _ _ (count_in_clusters-Ends cluster e.clusters) (λ r. tt)) (λ r. tt))
      (Ends->>= _ _ (count_in_endpoints-Ends ep cluster es) (λ r. tt))

count_attribute-Ends :
    (id ep cluster : ℕ) (ds : List Device) → Ends (count_attribute id ep cluster ds)
unfolding count_attribute
count_attribute-Ends id ep cluster [] = tt
count_attribute-Ends id ep cluster (d ∷ ds) =
    Ends-if (d.node_id == id) _ _
      (Ends->>= _ _ (count_in_endpoints-Ends ep cluster d.endpoints) (λ r. tt))
      (Ends->>= _ _ (count_attribute-Ends id ep cluster ds) (λ r. tt))

add_attribute-Ends :
    (id ep cluster attribute kind : ℕ) (w : Work)
    → Ends (add_attribute id ep cluster attribute kind w)
unfolding add_new_attribute
add_attribute-Ends id ep cluster attribute kind w =
    Ends->>= _ _
      (Ends-if (valid_node_id id && valid_endpoint ep) _ _
        (row (take_row id ep cluster attribute kind w.attributes)) tt)
      (λ r. tt)
  where
    row : (o : Option (List Attribute)) → Ends (counted_row id ep cluster w.devices w.attributes o)
    row none = tt
    row (some rows) = Ends->>= _ _ (count_attribute-Ends id ep cluster w.devices) (λ r. tt)

places-Ends : (n : ℕ) (es : List Endpoint) → Ends (places n es)
unfolding places
places-Ends zero es = tt
places-Ends (suc n) [] = tt
places-Ends (suc n) (e ∷ es) =
    Ends->>= (places_of e) _ (Ends-if (ltb (length e.clusters) e.cluster_count) _ _ tt tt)
      (λ ps. Ends->>= _ _ (places-Ends n es) (λ r. tt))

pub device_at-Ends : (k : ℕ) (w : Work) → Ends (device_at k w)
device_at-Ends k w = found (get_elem? w.devices k)
  where
    found :
        (o : Option Device) → Ends (elim o as (λ x. Run Device) [ none ↦ fault | some d ↦ done d ])
    found none = tt
    found (some d) = tt

read_places-Ends : (id : ℕ) (ps : List Place) (w : Work) → Ends (read_places id ps w)
unfolding read_places
read_places-Ends id [] w = tt
read_places-Ends id (p ∷ ps) w =
    Ends->>= (read_place id p w) _
      (Ends-if (p.cluster == 0) _ _ (Ends->>= _ _ (add_attribute-Ends id p.ep 0 5 0x81 w) (λ r. tt))
        tt)
      (λ u. read_places-Ends id ps u)

add_attributes-Ends :
    (id ep cluster : ℕ) (added : List ℕ) (w : Work) → Ends (add_attributes id ep cluster added w)
unfolding add_attributes
add_attributes-Ends id ep cluster [] w = tt
add_attributes-Ends id ep cluster (a ∷ more) w =
    Ends->>= _ _ (add_attribute-Ends id ep cluster a 0x80 w)
      (λ u. add_attributes-Ends id ep cluster more u)

bind_places-Ends : (id mac : ℕ) (ps : List Place) (w : Work) → Ends (bind_places id mac ps w)
unfolding bind_places
bind_places-Ends id mac [] w = tt
bind_places-Ends id mac (p ∷ ps) w =
    Ends->>= (bind_place id mac p w) _
      (Ends->>= _ _ (add_attributes-Ends id p.ep p.cluster _ w) (λ r. tt))
      (λ u. bind_places-Ends id mac ps u)

pub ask_descriptor-Ends : (k : ℕ) (w : Work) → Ends (ask_descriptor k w)
unfolding ask_descriptor
ask_descriptor-Ends k w =
    Ends->>= _ _ (device_at-Ends k w)
      (λ d. Ends->>= _ _ (before ((w.ep_index + 1) % 256) d.endpoints) (λ e. tt))
  where
    found :
        (o : Option Endpoint)
        → Ends (elim o as (λ x. Run Endpoint) [ none ↦ fault | some e ↦ done e ])
    found none = tt
    found (some e) = tt

    before : (i : ℕ) (es : List Endpoint) → Ends (endpoint_before i es)
    before zero es = tt
    before (suc i) es = found (get_elem? es i)

pub read_models-Ends : (k : ℕ) (w : Work) → Ends (read_models k w)
unfolding read_models
read_models-Ends k w = Ends->>= _ _ (device_at-Ends k w) (λ d.
    Ends->>= _ _ (places-Ends d.endpoint_count d.endpoints) (λ ps. read_places-Ends d.node_id ps w))

pub bind_clusters-Ends : (k : ℕ) (w : Work) → Ends (bind_clusters k w)
unfolding bind_clusters
bind_clusters-Ends k w = Ends->>= _ _ (device_at-Ends k w) (λ d.
    Ends->>= _ _ (places-Ends d.endpoint_count d.endpoints) (λ ps.
      Ends->>= _ _ (bind_places-Ends d.node_id d.ieee ps w)
        (λ u. Ends->>= _ _ (device_at-Ends k u) (λ e. tt))))
