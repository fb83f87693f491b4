-- ===== src/Reports/Descriptor.antt =====
-- The part of `ZCB_HandleSimpleDescriptorResponse` that fills the clusters of the endpoint, and the
-- bits of `uSupportedClusters`.
pub mod Stored
pub mod Flags
use dm_matter_zigbee_bridge.Prelude.{
  ℕ, zero, suc, ◌+◌, ◌*◌, Bool, true, false, ◌&&◌, ◌||◌, length, leb, Option, none, some, List, [],
  ◌∷◌, take, drop, get_elem?, get_or, set, ◌==◌, if◌then◌else◌, Run, done, fault, ◌>>=◌,
}
use dm_matter_zigbee_bridge.Prelude.Words.{little_endian, ntohs}
use dm_matter_zigbee_bridge.Devices.{Cluster}

-- `sClusterBitmap`.
pub record Supported : Type 0 where
  pub on_off : Bool
  pub dimmable : Bool
  pub color : Bool
  pub illuminance : Bool
  pub temperature : Bool
  pub occupancy : Bool

-- `ClearClusterBitmap`.
abbrev pub cleared : Supported
cleared = record {
  on_off = false;
  dimmable = false;
  color = false;
  illuminance = false;
  temperature = false;
  occupancy = false;
}

-- The first elements of `au16Clusters`, swapped.
abbrev pub cluster_words : ℕ → List ℕ → List ℕ
cluster_words zero b = []
cluster_words (suc n) b = ntohs (little_endian 2 b) ∷ cluster_words n (drop 2 b)

-- `au16Clusters` has 15 elements, and the message ends behind the last of them that it counts.
abbrev pub is_readable : List ℕ → Bool
is_readable m = leb (get_or m 11 0) 15 && leb (12 + 2 * get_or m 11 0) (length m)

-- The clusters of the message `m`, if they can be read.
abbrev pub clusters_of : List ℕ → List ℕ
clusters_of m = cluster_words (get_or m 11 0) (drop 12 m)

-- Groups, scenes, identify, touchlink commissioning, and no cluster.
abbrev pub is_left_out : ℕ → Bool
is_left_out c = c == 4 || c == 5 || c == 3 || c == 0x1000 || c == 0xFFFF

-- `devEp->sZDCluster[actualClusCnt++].u16ClusterId = tempClusterId`.
abbrev pub store_cluster : ℕ → List Cluster × ℕ → Run (List Cluster × ℕ)
store_cluster c s = elim (get_elem? s.0 s.1) [
  | none ↦ fault
  | some e ↦ done (set s.0 s.1 (record e { id = c }), suc s.1)
]

-- The loop over the clusters of the message, with `sZDCluster` and `actualClusCnt`.
unfoldable pub store_clusters : List ℕ → List Cluster × ℕ → Run (List Cluster × ℕ)
store_clusters [] s = done s
store_clusters (c ∷ cs) s =
    (if is_left_out c then done s else store_cluster c s) >>= λ t. store_clusters cs t

-- One round of the second loop, with the bitmap and the type of the joined node.
abbrev pub mark : ℕ → Supported × ℕ → Supported × ℕ
mark c (s, type) =
    if c == 6
    then (record s { on_off = true }, type)
    else if c == 8
    then (record s { dimmable = true }, 2)
    else if c == 0x0300
    then (record s { color = true }, 3)
    else if c == 0x0400
    then (record s { illuminance = true }, type)
    else if c == 0x0402
    then (record s { temperature = true }, type)
    else if c == 0x0406
    then (record s { occupancy = true }, type)
    else (s, type)

unfoldable pub classify : List Cluster → Supported × ℕ → Supported × ℕ
classify [] s = s
classify (e ∷ es) s = classify es (mark e.id s)

-- Both loops, the first of which reads an element of `au16Clusters` in each round: the clusters and their count, the bitmap, and the type of the joined node.
unfoldable pub describe : List ℕ → List Cluster → ℕ → Run ((List Cluster × ℕ) × (Supported × ℕ))
describe m clusters type =
    let read = store_clusters (clusters_of m) (clusters, 0) >>= λ s.
    done (s, classify (take s.1 s.0) (cleared, type)) in
    if is_readable m then read else fault
