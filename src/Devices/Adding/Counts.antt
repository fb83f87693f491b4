-- ===== src/Devices/Adding/Counts.antt =====
-- When an attribute can be counted, and that counting keeps what the searches look at.
use dm_matter_zigbee_bridge.Prelude.{
  ℕ, suc, ap, length, ◌+◌, ◌%◌, Bool, true, false, Bool-cases, List, [], ◌∷◌, ◌≡◌, refl, inl, inr,
  arith, ◌==◌, if◌then◌else◌, done,
}
use dm_matter_zigbee_bridge.Devices.{Cluster, Endpoint, Device}
use dm_matter_zigbee_bridge.Devices.Adding.{count_in_clusters, count_in_endpoints, count_attribute}

-- The searches find a cluster.
unfoldable pub has_cluster : ℕ → List Cluster → Bool
has_cluster cluster [] = false
has_cluster cluster (c ∷ cs) = if c.id == cluster then true else has_cluster cluster cs

unfoldable pub has_in_endpoint : ℕ → ℕ → List Endpoint → Bool
has_in_endpoint ep cluster [] = false
has_in_endpoint ep cluster (e ∷ es) =
    if e.id == ep then has_cluster cluster e.clusters else has_in_endpoint ep cluster es

unfoldable pub has_in_device : ℕ → ℕ → ℕ → List Device → Bool
has_in_device id ep cluster [] = false
has_in_device id ep cluster (d ∷ ds) =
    if d.node_id == id
    then has_in_endpoint ep cluster d.endpoints
    else has_in_device id ep cluster ds

-- The counted result, and that every other search finds what it found.
record CountedClusters (cluster : ℕ) (cs : List Cluster) : Type 0 where
  out : List Cluster
  runs : count_in_clusters cluster cs ≡ done out
  same : (c : ℕ) → has_cluster c out ≡ has_cluster c cs

has-cons :
    (m : ℕ) (c d : Cluster) (cs ds : List Cluster)
    → c.id ≡ d.id
    → has_cluster m cs ≡ has_cluster m ds
    → has_cluster m (c ∷ cs) ≡ has_cluster m (d ∷ ds)
unfolding has_cluster
has-cons m c d cs ds e h = ground arith

count_in_clusters-Counted :
    (cluster : ℕ) (cs : List Cluster) → has_cluster cluster cs ≡ true → CountedClusters cluster cs
unfolding has_cluster count_in_clusters
count_in_clusters-Counted cluster [] h = absurd (impossible h)
  where
    impossible : false ≡ true → ⊥
    impossible p = cc
count_in_clusters-Counted cluster (c ∷ cs) h = elim (Bool-cases (c.id == cluster)) [
  | inl y ↦ record {
    out = record c { attribute_count = (c.attribute_count + 1) % 256 } ∷ cs;
    runs = rw y;
    same = λ m.
        has-cons m (record c { attribute_count = (c.attribute_count + 1) % 256 }) c cs cs refl refl;
  }
  | inr n ↦
      let k = count_in_clusters-Counted cluster cs (rw n at h) in
      record {
        out = c ∷ k.out;
        runs = rw n (rw k.runs);
        same = λ m. has-cons m c c k.out cs refl (k.same m);
      }
]

record CountedEndpoints (ep cluster : ℕ) (es : List Endpoint) : Type 0 where
  out : List Endpoint
  runs : count_in_endpoints ep cluster es ≡ done out
  same : (e c : ℕ) → has_in_endpoint e c out ≡ has_in_endpoint e c es

has_in_endpoint-cons :
    (m c : ℕ) (e : Endpoint) (cs : List Cluster) (es fs : List Endpoint)
    → has_cluster c cs ≡ has_cluster c e.clusters
    → has_in_endpoint m c es ≡ has_in_endpoint m c fs
    → has_in_endpoint m c (record e { clusters = cs } ∷ es) ≡ has_in_endpoint m c (e ∷ fs)
unfolding has_in_endpoint
has_in_endpoint-cons m c e cs es fs p q = ground arith

count_in_endpoints-Counted :
    (ep cluster : ℕ) (es : List Endpoint)
    → has_in_endpoint ep cluster es ≡ true
    → CountedEndpoints ep cluster es
unfolding has_in_endpoint count_in_endpoints
count_in_endpoints-Counted ep cluster [] h = absurd (impossible h)
  where
    impossible : false ≡ true → ⊥
    impossible p = cc
count_in_endpoints-Counted ep cluster (e ∷ es) h = elim (Bool-cases (e.id == ep)) [
  | inl y ↦
      let k = count_in_clusters-Counted cluster e.clusters (rw y at h) in
      record {
        out = record e { clusters = k.out } ∷ es;
        runs = rw y (rw k.runs);
        same = λ m c. has_in_endpoint-cons m c e k.out es es (k.same c) refl;
      }
  | inr n ↦
      let k = count_in_endpoints-Counted ep cluster es (rw n at h) in
      record {
        out = e ∷ k.out;
        runs = rw n (rw k.runs);
        same = λ m c. has_in_endpoint-cons m c e e.clusters k.out es refl (k.same m c);
      }
]

pub record CountedDevices (id ep cluster : ℕ) (ds : List Device) : Type 0 where
  pub out : List Device
  pub runs : count_attribute id ep cluster ds ≡ done out
  pub same : (i e c : ℕ) → has_in_device i e c out ≡ has_in_device i e c ds
  pub as_long : length out ≡ length ds

has_in_device-cons :
    (m p c : ℕ) (d : Device) (es : List Endpoint) (ds fs : List Device)
    → has_in_endpoint p c es ≡ has_in_endpoint p c d.endpoints
    → has_in_device m p c ds ≡ has_in_device m p c fs
    → has_in_device m p c (record d { endpoints = es } ∷ ds) ≡ has_in_device m p c (d ∷ fs)
unfolding has_in_device
has_in_device-cons m p c d es ds fs h k = ground arith

pub count_attribute-Counted :
    (id ep cluster : ℕ) (ds : List Device)
    → has_in_device id ep cluster ds ≡ true
    → CountedDevices id ep cluster ds
unfolding has_in_device count_attribute
count_attribute-Counted id ep cluster [] h = absurd (impossible h)
  where
    impossible : false ≡ true → ⊥
    impossible p = cc
count_attribute-Counted id ep cluster (d ∷ ds) h = elim (Bool-cases (d.node_id == id)) [
  | inl y ↦
      let k = count_in_endpoints-Counted ep cluster d.endpoints (rw y at h) in
      record {
        out = record d { endpoints = k.out } ∷ ds;
        runs = rw y (rw k.runs);
        same = λ m p c. has_in_device-cons m p c d k.out ds ds (k.same p c) refl;
        as_long = refl;
      }
  | inr n ↦
      let k = count_attribute-Counted id ep cluster ds (rw n at h) in
      record {
        out = d ∷ k.out;
        runs = rw n (rw k.runs);
        same = λ m p c. has_in_device-cons m p c d d.endpoints k.out ds refl (k.same m p c);
        as_long = ap suc k.as_long;
      }
]
