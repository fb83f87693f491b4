-- ===== src/Events/Joins/One.antt =====
-- A device with one endpoint, from its announcement to its description.
use dm_matter_zigbee_bridge.Prelude.{
  ℕ, zero, suc, ◌≤◌, true, Bool-cases, some, List, [], ◌∷◌, replicate, get_or, set, length, take,
  leb, ◌==◌, eq→==, ◌≡◌, refl, sym, ap, ◌∙◌, arith, inl, inr, done,
}
use dm_matter_zigbee_bridge.Devices.{
  Cluster, Endpoint, no_endpoint, Device, max_endpoints, valid_node_id, valid_endpoint,
}
use dm_matter_zigbee_bridge.Devices.Table.{scan_index, scan_endpoint}
use dm_matter_zigbee_bridge.Qualify.{get_cluster}
use dm_matter_zigbee_bridge.Reports.Descriptor.{
  Supported, cleared, clusters_of, is_readable, classify, describe,
}
use dm_matter_zigbee_bridge.Reports.Descriptor.Stored.{kept, overwrite, store_clusters-kept}
use dm_matter_zigbee_bridge.Events.{pointer, name_endpoints, put_endpoint, endpoint_of}
use dm_matter_zigbee_bridge.Events.Joins.Announced.{newcomer, never_none, some_inj, counted-some}
use dm_matter_zigbee_bridge.Events.Joins.Described.{described_endpoint, described_device}
use dm_matter_zigbee_bridge.Events.Joins.First.{first_endpoint}

pub pointer-valid :
    (id k : ℕ) (ds : List Device)
    → valid_node_id id ≡ true
    → scan_index id ds ≡ some k
    → pointer id ds ≡ some k
unfolding pointer
pointer-valid id k ds v h = rw (pointer, v) h

-- An entry that keeps its node identifier is still the first with it.
pub scan_index-kept :
    (id k : ℕ) (ds : List Device) (e : Device)
    → scan_index id ds ≡ some k
    → e.node_id ≡ id
    → scan_index id (set ds k e) ≡ some k
unfolding scan_index
scan_index-kept id k [] e h named = absurd (never_none k (sym h))
scan_index-kept id zero (d ∷ ds) e h named = rw (eq→== e.node_id id named) refl
scan_index-kept id (suc k) (d ∷ ds) e h named = elim (Bool-cases (d.node_id == id)) [
  | inl y ↦ absurd (zero_suc (some_inj 0 (suc k) (rw y at h)))
  | inr n ↦
      let (i, g, q) = counted-some (scan_index id ds) (suc k) (rw n at h) in
      rw n (rw (scan_index-kept id k ds e (g ∙ ap some (suc_inj q)) named) refl)
]
  where
    zero_suc : 0 ≡ suc k → ⊥
    zero_suc p = cc

    suc_inj : {i : ℕ} → suc i ≡ suc k → i ≡ k
    suc_inj p = omega arith

-- The device once its one endpoint is named, and once that is described.
abbrev pub blanks : List Endpoint
blanks = replicate 4 no_endpoint

abbrev pub no_clusters : List Cluster
no_clusters = no_endpoint.clusters

abbrev pub named_endpoint : ℕ → Endpoint
named_endpoint ep = record no_endpoint { id = ep }

abbrev pub with_one : ℕ → ℕ → ℕ → Device
with_one id ieee ep = record (newcomer id ieee) {
  endpoint_count = 1;
  endpoints = named_endpoint ep ∷ blanks;
  state = get_cluster;
}

pub endpoint_of-one :
    (id ieee ep : ℕ)
    → valid_endpoint ep ≡ true
    → endpoint_of ep (with_one id ieee ep) ≡ done (named_endpoint ep)
unfolding scan_endpoint
endpoint_of-one id ieee ep v = rw (endpoint_of, v) (rw (scan_endpoint, eq→== ep ep refl) refl)

pub name_endpoints-one :
    (n : ℕ) (b : List ℕ)
    → n ≡ 1
    → name_endpoints n b (replicate max_endpoints no_endpoint)
      ≡ done (named_endpoint (get_or b 0 0) ∷ blanks)
unfolding name_endpoints
name_endpoints-one n b one = ap (λ i. name_endpoints i b (replicate max_endpoints no_endpoint)) one

-- What the loops over the clusters make of the endpoint.
abbrev pub stored : List ℕ → ℕ → (List Cluster × ℕ) × (Supported × ℕ)
stored ks type = (
  (overwrite ks no_clusters, length ks),
  classify (take (length ks) (overwrite ks no_clusters)) (cleared, type),
)

pub describe-stored :
    (m : List ℕ) (type : ℕ)
    → is_readable m ≡ true
    → length (kept (clusters_of m)) ≤ 15
    → describe m no_clusters type ≡ done (stored (kept (clusters_of m)) type)
unfolding describe
describe-stored m type readable h =
    rw (describe, readable, store_clusters-kept (clusters_of m) no_clusters)
      (rw (fits (length (kept (clusters_of m))) h) refl)
  where
    fits : (n : ℕ) → n ≤ 15 → leb n 15 ≡ true
    fits n h = ground arith

pub described-first :
    (id ieee ep kind : ℕ) (ks : List ℕ)
    → (described_device ep (with_one id ieee ep) (
        described_endpoint
          (named_endpoint ep)
          kind
          (overwrite ks no_clusters, length ks))).endpoints
      ≡ first_endpoint ep kind ks no_clusters ∷ blanks
unfolding put_endpoint
described-first id ieee ep kind ks = rw (put_endpoint, eq→== ep ep refl) refl
