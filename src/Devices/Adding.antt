-- ===== src/Devices/Adding.antt =====
-- `tZDM_AddNewAttributeToAttributeTable` and `tZDM_FindClusterEntryInDeviceTable`, by which it counts
-- the attributes of a cluster.
pub mod Counts
use dm_matter_zigbee_bridge.Prelude.{
  ℕ, suc, ◌+◌, ◌%◌, Bool, ◌&&◌, Option, none, some, List, [], ◌∷◌, ◌==◌, if◌then◌else◌, Run, done,
  fault, ◌>>=◌,
}
use dm_matter_zigbee_bridge.Devices.{
  Cluster, Endpoint, Device, Attribute, valid_node_id, valid_endpoint,
}

abbrev pub keep_cluster : Cluster → List Cluster → Run (List Cluster)
keep_cluster c cs = done (c ∷ cs)

-- The search in the clusters of an endpoint, and `u8AttributeCount ++` on what it finds; behind the
-- last entry it has found a null pointer.
unfoldable pub count_in_clusters : ℕ → List Cluster → Run (List Cluster)
count_in_clusters cluster [] = fault
count_in_clusters cluster (c ∷ cs) =
    let rest = count_in_clusters cluster cs >>= keep_cluster c in
    if c.id == cluster
    then done (record c { attribute_count = (c.attribute_count + 1) % 256 } ∷ cs)
    else rest

abbrev pub with_clusters : Endpoint → List Cluster → Run Endpoint
with_clusters e cs = done (record e { clusters = cs })

abbrev pub keep_endpoint : Endpoint → List Endpoint → Run (List Endpoint)
keep_endpoint e es = done (e ∷ es)

abbrev pub put_endpoint : List Endpoint → Endpoint → Run (List Endpoint)
put_endpoint es e = done (e ∷ es)

-- The same in the first endpoint with the identifier, as `tZDM_FindEndpointEntryInDeviceTable` finds it.
unfoldable pub count_in_endpoints : ℕ → ℕ → List Endpoint → Run (List Endpoint)
count_in_endpoints ep cluster [] = fault
count_in_endpoints ep cluster (e ∷ es) =
    let here = count_in_clusters cluster e.clusters >>= with_clusters e >>= put_endpoint es in
    let rest = count_in_endpoints ep cluster es >>= keep_endpoint e in
    if e.id == ep then here else rest

abbrev pub put_device : List Device → Device → List Endpoint → Run (List Device)
put_device ds d es = done (record d { endpoints = es } ∷ ds)

abbrev pub keep_device : Device → List Device → Run (List Device)
keep_device d ds = done (d ∷ ds)

-- The same in the first device with the node identifier; without one, a null pointer is read.
unfoldable pub count_attribute : ℕ → ℕ → ℕ → List Device → Run (List Device)
count_attribute id ep cluster [] = fault
count_attribute id ep cluster (d ∷ ds) =
    let here = count_in_endpoints ep cluster d.endpoints >>= put_device ds d in
    let rest = count_attribute id ep cluster ds >>= keep_device d in
    if d.node_id == id then here else rest

abbrev pub row_later : Attribute → Option (List Attribute) → Option (List Attribute)
row_later a none = none
row_later a (some rows) = some (a ∷ rows)

-- The loop over the attribute table: the first entry without a node identifier is taken.
unfoldable pub take_row : ℕ → ℕ → ℕ → ℕ → ℕ → List Attribute → Option (List Attribute)
take_row id ep cluster attribute kind [] = none
take_row id ep cluster attribute kind (a ∷ rows) =
    let rest = row_later a (take_row id ep cluster attribute kind rows) in
    if a.node_id == 0
    then some (
        record a { node_id = id; endpoint = ep; cluster = cluster; id = attribute; kind = kind }
        ∷ rows)
    else rest

abbrev pub counted_row :
    ℕ
    → ℕ
    → ℕ
    → List Device
    → List Attribute
    → Option (List Attribute)
    → Run (List Device × List Attribute)
counted_row id ep cluster ds rows none = done (ds, rows)
counted_row id ep cluster ds rows (some added) =
    count_attribute id ep cluster ds >>= λ es. done (es, added)

-- Both tables afterwards; the null pointer that a caller may get back is used by none of them.
unfoldable pub add_new_attribute :
    ℕ → ℕ → ℕ → ℕ → ℕ → List Device × List Attribute → Run (List Device × List Attribute)
add_new_attribute id ep cluster attribute kind t =
    let added = counted_row id ep cluster t.0 t.1 (take_row id ep cluster attribute kind t.1) in
    if valid_node_id id && valid_endpoint ep then added else done t
