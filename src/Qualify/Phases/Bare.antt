-- ===== src/Qualify/Phases/Bare.antt =====
-- The attribute counts aside, reading the models leaves the devices as they are.
pub mod Found
use dm_matter_zigbee_bridge.Prelude.{
  ℕ, zero, suc, ◌+◌, ◌%◌, Bool, true, false, ◌&&◌, Option, none, some, List, [], ◌∷◌, map,
  get_elem?, ◌==◌, ◌≡◌, refl, sym, ap, ◌∙◌, if◌then◌else◌, Run, done, fault, ◌>>=◌,
}
use dm_matter_zigbee_bridge.Devices.{
  Cluster, Endpoint, Device, Attribute, valid_node_id, valid_endpoint,
}
use dm_matter_zigbee_bridge.Devices.Adding.{
  count_in_clusters, count_in_endpoints, count_attribute, counted_row, take_row, add_new_attribute,
}
use dm_matter_zigbee_bridge.Devices.Adding.Counts.{has_cluster, has_in_endpoint, has_in_device}
use dm_matter_zigbee_bridge.Qualify.{Work}
use dm_matter_zigbee_bridge.Qualify.Phases.{Place, place_of, places_of, places, add_attribute}
use dm_matter_zigbee_bridge.Qualify.Phases.Outcome.{Then, Then->>=, Then-if}

abbrev pub bare_cluster : Cluster → Cluster
bare_cluster c = record c { attribute_count = 0 }

abbrev pub bare_endpoint : Endpoint → Endpoint
bare_endpoint e = record e { clusters = map bare_cluster e.clusters }

abbrev pub bare : Device → Device
bare d = record d { endpoints = map bare_endpoint d.endpoints }

abbrev pub SameClusters : List Cluster → List Cluster → Type 0
SameClusters cs es = map bare_cluster es ≡ map bare_cluster cs

abbrev pub SameEndpoints : List Endpoint → List Endpoint → Type 0
SameEndpoints es fs = map bare_endpoint fs ≡ map bare_endpoint es

abbrev pub SameDevices : List Device → List Device → Type 0
SameDevices ds es = map bare es ≡ map bare ds

count_in_clusters-Same :
    (cluster : ℕ) (cs : List Cluster) → Then (SameClusters cs) (count_in_clusters cluster cs)
unfolding count_in_clusters
count_in_clusters-Same cluster [] = tt
count_in_clusters-Same cluster (c ∷ cs) =
    Then-if (SameClusters (c ∷ cs)) (c.id == cluster) _ _ refl (
      Then->>= (SameClusters cs) (SameClusters (c ∷ cs)) _ _ (count_in_clusters-Same cluster cs)
        (λ es h. ap (◌∷◌ (bare_cluster c)) h))

count_in_endpoints-Same :
    (ep cluster : ℕ) (es : List Endpoint)
    → Then (SameEndpoints es) (count_in_endpoints ep cluster es)
unfolding count_in_endpoints
count_in_endpoints-Same ep cluster [] = tt
count_in_endpoints-Same ep cluster (e ∷ es) =
    Then-if (SameEndpoints (e ∷ es)) (e.id == ep) _ _
      (Then->>= (λ f. bare_endpoint f ≡ bare_endpoint e) (SameEndpoints (e ∷ es)) _ _
        (Then->>= (SameClusters e.clusters) (λ f. bare_endpoint f ≡ bare_endpoint e) _ _
          (count_in_clusters-Same cluster e.clusters)
          (λ cs h. ap (λ m. record e { clusters = m }) h))
        (λ f h. ap (λ g. g ∷ map bare_endpoint es) h))
      (Then->>= (SameEndpoints es) (SameEndpoints (e ∷ es)) _ _
        (count_in_endpoints-Same ep cluster es) (λ fs h. ap (◌∷◌ (bare_endpoint e)) h))

count_attribute-Same :
    (id ep cluster : ℕ) (ds : List Device)
    → Then (SameDevices ds) (count_attribute id ep cluster ds)
unfolding count_attribute
count_attribute-Same id ep cluster [] = tt
count_attribute-Same id ep cluster (d ∷ ds) =
    Then-if (SameDevices (d ∷ ds)) (d.node_id == id) _ _
      (Then->>= (SameEndpoints d.endpoints) (SameDevices (d ∷ ds)) _ _
        (count_in_endpoints-Same ep cluster d.endpoints)
        (λ es h. ap (λ m. record d { endpoints = m } ∷ map bare ds) h))
      (Then->>= (SameDevices ds) (SameDevices (d ∷ ds)) _ _ (count_attribute-Same id ep cluster ds)
        (λ es h. ap (◌∷◌ (bare d)) h))

pub add_attribute-SameDevices :
    (id ep cluster attribute kind : ℕ) (w : Work)
    → Then (λ u. SameDevices w.devices u.devices) (add_attribute id ep cluster attribute kind w)
unfolding add_new_attribute
add_attribute-SameDevices id ep cluster attribute kind w =
    Then->>= Tables (λ u. SameDevices w.devices u.devices) _ _
      (Then-if Tables (valid_node_id id && valid_endpoint ep) _ _
        (row (take_row id ep cluster attribute kind w.attributes)) refl)
      (λ t h. h)
  where
    Tables : List Device × List Attribute → Type 0
    Tables t = SameDevices w.devices t.0

    row :
        (o : Option (List Attribute))
        → Then Tables (counted_row id ep cluster w.devices w.attributes o)
    row none = refl
    row (some rows) =
        Then->>= (SameDevices w.devices) Tables _ _ (count_attribute-Same id ep cluster w.devices)
          (λ es h. h)

-- The searches look at nothing else.
has_cluster-bare :
    (c : ℕ) (cs : List Cluster) → has_cluster c (map bare_cluster cs) ≡ has_cluster c cs
unfolding has_cluster
has_cluster-bare c [] = refl
has_cluster-bare c (x ∷ cs) = rw (has_cluster-bare c cs) refl

has_in_endpoint-bare :
    (p c : ℕ) (es : List Endpoint)
    → has_in_endpoint p c (map bare_endpoint es) ≡ has_in_endpoint p c es
unfolding has_in_endpoint
has_in_endpoint-bare p c [] = refl
has_in_endpoint-bare p c (e ∷ es) =
    rw (has_cluster-bare c e.clusters, has_in_endpoint-bare p c es) refl

has_in_device-bare :
    (i p c : ℕ) (ds : List Device) → has_in_device i p c (map bare ds) ≡ has_in_device i p c ds
unfolding has_in_device
has_in_device-bare i p c [] = refl
has_in_device-bare i p c (d ∷ ds) =
    rw (has_in_endpoint-bare p c d.endpoints, has_in_device-bare i p c ds) refl

pub has_in_device-Same :
    (i p c : ℕ) (ds es : List Device)
    → SameDevices ds es
    → has_in_device i p c es ≡ has_in_device i p c ds
has_in_device-Same i p c ds es h =
    sym (has_in_device-bare i p c es) ∙ ap (has_in_device i p c) h ∙ has_in_device-bare i p c ds
