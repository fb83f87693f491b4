-- ===== src/Events/Joins/First.antt =====
-- The first endpoint of a device once it is described: its places, and that its clusters are found.
use dm_matter_zigbee_bridge.Prelude.{
  ℕ, zero, suc, ◌≤◌, true, false, Bool-cases, ◌&&◌, some, List, [], ◌∷◌, append-nil, All, get_elem?,
  length, take, ltb, map, ◌==◌, eq→==, ◌≡◌, refl, sym, ap, ◌∙◌, arith, inl, inr, done,
}
use dm_matter_zigbee_bridge.Devices.{Cluster, Endpoint, Device, valid_node_id, valid_endpoint}
use dm_matter_zigbee_bridge.Devices.Adding.Counts.{has_cluster, has_in_endpoint, has_in_device}
use dm_matter_zigbee_bridge.Devices.Table.{scan_index}
use dm_matter_zigbee_bridge.Qualify.{Work}
use dm_matter_zigbee_bridge.Qualify.Phases.{Place, place_of, places}
use dm_matter_zigbee_bridge.Qualify.Phases.Binds.{Bindable}
use dm_matter_zigbee_bridge.Qualify.Phases.Reads.{has_basic}
use dm_matter_zigbee_bridge.Reports.Descriptor.Stored.{overwrite}
use dm_matter_zigbee_bridge.Events.Joins.Announced.{never_none, some_inj, counted-some}

length-overwrite :
    (ks : List ℕ) (es : List Cluster) → length ks ≤ length es → length (overwrite ks es) ≡ length es
unfolding overwrite
length-overwrite [] es h = refl
length-overwrite (c ∷ ks) [] h = absurd (omega arith)
length-overwrite (c ∷ ks) (e ∷ es) h = ap suc (length-overwrite ks es (omega arith))

-- The endpoint with the clusters that are kept, and their places.
abbrev pub first_endpoint : ℕ → ℕ → List ℕ → List Cluster → Endpoint
first_endpoint ep kind ks es = record {
  id = ep;
  device_type = kind;
  cluster_count = length ks;
  clusters = overwrite ks es;
}

abbrev pub place_at : ℕ → ℕ → ℕ → Place
place_at ep kind c = record { ep = ep; device_type = kind; cluster = c }

taken-places :
    (e : Endpoint) (ks : List ℕ) (es : List Cluster)
    → length ks ≤ length es
    → map (place_of e) (take (length ks) (overwrite ks es)) ≡ map (place_at e.id e.device_type) ks
unfolding overwrite
taken-places e [] es h = refl
taken-places e (c ∷ ks) [] h = absurd (omega arith)
taken-places e (c ∷ ks) (x ∷ es) h =
    ap (◌∷◌ (place_at e.id e.device_type c)) (taken-places e ks es (omega arith))

pub first-places :
    (ep kind : ℕ) (ks : List ℕ) (es : List Cluster) (more : List Endpoint)
    → length ks ≤ length es
    → places 1 (first_endpoint ep kind ks es ∷ more) ≡ done (map (place_at ep kind) ks)
unfolding places
first-places ep kind ks es more h = rw (not_less) (
    rw (taken-places (first_endpoint ep kind ks es) ks es h)
      (ap (λ ps. done ps) (append-nil (map (place_at ep kind) ks))))
  where
    not_less : ltb (length (overwrite ks es)) (length ks) ≡ false
    not_less = rw (length-overwrite ks es h) (ground arith)

pub places-ep : (ep kind : ℕ) (ks : List ℕ) → All (λ p. p.ep ≡ ep) (map (place_at ep kind) ks)
places-ep ep kind [] = tt
places-ep ep kind (c ∷ ks) = (refl, places-ep ep kind ks)

-- The basic cluster among those that are kept.
pub places-basic :
    (ep kind i : ℕ) (ks : List ℕ)
    → get_elem? ks i ≡ some 0
    → has_basic (map (place_at ep kind) ks) ≡ true
unfolding has_basic
places-basic ep kind i [] h = absurd (never_none 0 (sym h))
places-basic ep kind zero (c ∷ ks) h = rw (eq→== c 0 (some_inj c 0 h)) refl
places-basic ep kind (suc i) (c ∷ ks) h = elim (Bool-cases (c == 0)) [
  | inl y ↦ rw y refl
  | inr n ↦ rw n (places-basic ep kind i ks h)
]

-- A cluster that is kept is found.
HasAll : List ℕ → List Cluster → Type 0
HasAll ks cs = All (λ c. has_cluster c cs ≡ true) ks

HasAll-cons : (x : Cluster) (ks : List ℕ) (cs : List Cluster) → HasAll ks cs → HasAll ks (x ∷ cs)
unfolding HasAll has_cluster
HasAll-cons x [] cs h = tt
HasAll-cons x (k ∷ ks) cs (h, rest) = (step, HasAll-cons x ks cs rest)
  where
    step : has_cluster k (x ∷ cs) ≡ true
    step = ground arith

overwrite-HasAll :
    (ks : List ℕ) (es : List Cluster) → length ks ≤ length es → HasAll ks (overwrite ks es)
unfolding HasAll has_cluster overwrite
overwrite-HasAll [] es h = tt
overwrite-HasAll (c ∷ ks) [] h = absurd (omega arith)
overwrite-HasAll (c ∷ ks) (e ∷ es) h = (
  rw (eq→== c c refl) refl,
  HasAll-cons (record e { id = c }) ks (overwrite ks es) (overwrite-HasAll ks es (omega arith)),
)

-- The search ends at the device with the index.
has_in_device-at :
    (id ep c k : ℕ) (ds : List Device) (d : Device)
    → scan_index id ds ≡ some k
    → get_elem? ds k ≡ some d
    → has_in_device id ep c ds ≡ has_in_endpoint ep c d.endpoints
unfolding scan_index has_in_device
has_in_device-at id ep c k [] d h at = absurd (never_none d (sym at))
has_in_device-at id ep c k (x ∷ ds) d h at = elim (Bool-cases (x.node_id == id)) [
  | inl y ↦ rw y (ap (λ e. has_in_endpoint ep c e.endpoints) (at_zero (some_inj 0 k (rw y at h))))
  | inr n ↦
      let (i, e, q) = counted-some (scan_index id ds) k (rw n at h) in
      rw n (has_in_device-at id ep c i ds d e (ap (λ j. get_elem? (x ∷ ds) j) q ∙ at))
]
  where
    at_zero : 0 ≡ k → x ≡ d
    at_zero q = some_inj x d (ap (get_elem? (x ∷ ds)) q ∙ at)

pub first-Bindable :
    (id ep kind k : ℕ) (w : Work) (d : Device) (ks : List ℕ) (es : List Cluster)
    (more : List Endpoint)
    → (valid_node_id id && valid_endpoint ep) ≡ true
    → length ks ≤ length es
    → scan_index id w.devices ≡ some k
    → get_elem? w.devices k ≡ some d
    → d.endpoints ≡ first_endpoint ep kind ks es ∷ more
    → All (Bindable id w) (map (place_at ep kind) ks)
unfolding HasAll has_in_endpoint
first-Bindable id ep kind k w d ks es more valid h index at first =
    each ks (overwrite-HasAll ks es h)
  where
    found :
        (c : ℕ) → has_cluster c (overwrite ks es) ≡ true → has_in_device id ep c w.devices ≡ true
    found c f =
        has_in_device-at id ep c k w.devices d index at
        ∙ ap (has_in_endpoint ep c) first
        ∙ rw (eq→== ep ep refl) f

    each :
        (cs : List ℕ)
        → HasAll cs (overwrite ks es)
        → All (Bindable id w) (map (place_at ep kind) cs)
    each [] a = tt
    each (c ∷ cs) (a, rest) = ((valid, found c a), each cs rest)
