-- ===== src/Qualify/Phases/Bare/Found.antt =====
-- A device whose attribute counts have changed is found as before, with the same places.
use dm_matter_zigbee_bridge.Prelude.{
  ℕ, zero, suc, none, some, List, [], ◌∷◌, map, take, length, get_elem?, ◌≡◌, refl, sym, ap, ◌∙◌,
}
use dm_matter_zigbee_bridge.Devices.{Cluster, Endpoint, Device}
use dm_matter_zigbee_bridge.Devices.Table.{scan_index}
use dm_matter_zigbee_bridge.Qualify.Phases.{place_of, places_of, places}
use dm_matter_zigbee_bridge.Qualify.Phases.Bare.{
  bare_cluster, bare_endpoint, bare, SameEndpoints, SameDevices,
}

scan_index-bare : (id : ℕ) (ds : List Device) → scan_index id (map bare ds) ≡ scan_index id ds
unfolding scan_index
scan_index-bare id [] = refl
scan_index-bare id (d ∷ ds) = rw (scan_index-bare id ds) refl

pub scan_index-Same :
    (id : ℕ) (ds es : List Device) → SameDevices ds es → scan_index id es ≡ scan_index id ds
scan_index-Same id ds es h =
    sym (scan_index-bare id es) ∙ ap (scan_index id) h ∙ scan_index-bare id ds

length-bare : (cs : List Cluster) → length (map bare_cluster cs) ≡ length cs
length-bare [] = refl
length-bare (c ∷ cs) = ap suc (length-bare cs)

map-bare :
    (e : Endpoint) (n : ℕ) (cs : List Cluster)
    → map (place_of (bare_endpoint e)) (take n (map bare_cluster cs)) ≡ map (place_of e) (take n cs)
map-bare e zero cs = refl
map-bare e (suc n) [] = refl
map-bare e (suc n) (c ∷ cs) = ap (◌∷◌ (place_of e c)) (map-bare e n cs)

places_of-bare : (e : Endpoint) → places_of (bare_endpoint e) ≡ places_of e
places_of-bare e = rw (length-bare e.clusters, map-bare e e.cluster_count e.clusters) refl

places-bare : (n : ℕ) (es : List Endpoint) → places n (map bare_endpoint es) ≡ places n es
unfolding places
places-bare zero es = refl
places-bare (suc n) [] = refl
places-bare (suc n) (e ∷ es) = rw (places_of-bare e, places-bare n es) refl

pub places-Same : (n : ℕ) (es fs : List Endpoint) → SameEndpoints es fs → places n fs ≡ places n es
places-Same n es fs h = sym (places-bare n fs) ∙ ap (places n) h ∙ places-bare n es

-- The device at the same place.
pub SameDevices-at :
    (ds es : List Device) (k : ℕ) (d : Device)
    → SameDevices ds es
    → get_elem? ds k ≡ some d
    → (e : Device) × (get_elem? es k ≡ some e) × (bare e ≡ bare d)
SameDevices-at [] es k d same at = absurd (none_some at)
  where
    none_some : none ≡ some d → ⊥
    none_some p = cc
SameDevices-at (x ∷ ds) [] k d same at = absurd (nil_cons same)
  where
    nil_cons : [] ≡ bare x ∷ map bare ds → ⊥
    nil_cons p = cc
SameDevices-at (x ∷ ds) (y ∷ es) zero d same at = (y, refl, head same ∙ ap bare (some_inj at))
  where
    head : (bare y ∷ map bare es) ≡ (bare x ∷ map bare ds) → bare y ≡ bare x
    head p = cc

    some_inj : some x ≡ some d → x ≡ d
    some_inj p = cc
SameDevices-at (x ∷ ds) (y ∷ es) (suc k) d same at = SameDevices-at ds es k d (tail same) at
  where
    tail : (bare y ∷ map bare es) ≡ (bare x ∷ map bare ds) → map bare es ≡ map bare ds
    tail p = cc
