-- ===== src/Qualify/Phases.antt =====
-- The cases of the `switch` on the state of the device.
pub mod Plan
pub mod Binds
pub mod Ends
pub mod Outcome
pub mod Bare
pub mod Reads
use dm_matter_zigbee_bridge.Prelude.{
  ℕ, zero, suc, ◌+◌, ◌-◌, ◌%◌, Bool, true, false, ◌||◌, Option, none, some, List, [], ◌∷◌, ◌++◌,
  map, get_elem?, ltb, length, take, ◌==◌, if◌then◌else◌, Run, done, fault, ◌>>=◌,
}
use dm_matter_zigbee_bridge.Zcb.{Call, sends}
use dm_matter_zigbee_bridge.Zcb.Requests.{
  active_endpoint_request, simple_descriptor_request, read_attribute_request, bind_fields,
}
use dm_matter_zigbee_bridge.Devices.{Cluster, Endpoint, Device, Attribute}
use dm_matter_zigbee_bridge.Devices.Adding.{add_new_attribute}
use dm_matter_zigbee_bridge.Qualify.{
  Reply, unsent, unanswered, answered, Work, active, get_cluster, logged, reply_of, exchange,
  device_at, put_at,
}

-- E_ZB_DEVICE_STATE_NEW_JOINED. `k` is the device's entry. One round of the loop asks for the active endpoints; the flag says that
-- the round is the second, and the result that the process goes on with its next state.
abbrev pub given_up : ℕ → Device → Bool → Work → Work
given_up k d false w = w
given_up k d true w = put_at k (record d { endpoint_count = 1; state = get_cluster }) w

abbrev pub join_reply : ℕ → Device → Bool → Work → Reply → Work × Bool
join_reply k d second w answered = (w, false)
join_reply k d second w unsent = (given_up k d second w, true)
join_reply k d second w unanswered = (given_up k d second w, true)

abbrev pub join_round : ℕ → Device → Bool → Work → Work × Bool
join_round k d second w =
    join_reply k d second (exchange (active_endpoint_request d.node_id) w) (reply_of w.replies)

abbrev pub second_round : ℕ → Device → Work × Bool → Work × Bool
second_round k d (w, true) = join_round k d true w
second_round k d (w, false) = (w, false)

unfoldable pub join : ℕ → Work → Run (Work × Bool)
join k w = device_at k w >>= λ d. done (second_round k d (join_round k d false w))

-- E_ZB_DEVICE_STATE_GET_CLUSTER.
abbrev pub is_skipped : ℕ → Bool
is_skipped ep = ep == 0xF2 || ep == 0

abbrev pub descriptor_rounds : ℕ → ℕ → Work → Work
descriptor_rounds zero id w = w
descriptor_rounds (suc n) id w =
    let asked = exchange (simple_descriptor_request id 1) w in
    let again = descriptor_rounds n id asked in
    elim (reply_of w.replies) [ answered ↦ asked | _ ↦ again ]

-- `sZDEndpoint[epArrayIndex - 1]` with an index that may be -1.
abbrev pub endpoint_before : ℕ → List Endpoint → Run Endpoint
endpoint_before zero es = fault
endpoint_before (suc i) es = elim (get_elem? es i) [ none ↦ fault | some e ↦ done e ]

unfoldable pub ask_descriptor : ℕ → Work → Run Work
ask_descriptor k w = do
  d ← device_at k w
  let i = (w.ep_index + 1) % 256
  e ← endpoint_before i d.endpoints
  let next = record w { ep_index = i }
  done (if is_skipped e.id then next else descriptor_rounds 2 d.node_id next)

-- The clusters that the two other loops go over, each with its endpoint's identifier and device type.
-- The loops change only attribute counts, so that the clusters are read once here.
pub record Place : Type 0 where
  pub ep : ℕ
  pub device_type : ℕ
  pub cluster : ℕ

abbrev pub place_of : Endpoint → Cluster → Place
place_of e c = record { ep = e.id; device_type = e.device_type; cluster = c.id }

abbrev pub places_of : Endpoint → Run (List Place)
places_of e =
    if ltb (length e.clusters) e.cluster_count
    then fault
    else done (map (place_of e) (take e.cluster_count e.clusters))

abbrev pub before_places : List Place → List Place → Run (List Place)
before_places ps qs = done (ps ++ qs)

unfoldable pub places : ℕ → List Endpoint → Run (List Place)
places zero es = done []
places (suc n) [] = fault
places (suc n) (e ∷ es) = places_of e >>= λ ps. places n es >>= before_places ps

abbrev pub with_tables : Work → List Device × List Attribute → Run Work
with_tables w t = done (record w { devices = t.0; attributes = t.1 })

abbrev pub add_attribute : ℕ → ℕ → ℕ → ℕ → ℕ → Work → Run Work
add_attribute id ep cluster attribute kind w =
    add_new_attribute id ep cluster attribute kind (w.devices, w.attributes) >>= with_tables w

-- E_ZB_DEVICE_STATE_READ_ATTRIBUTE: the model identifier is read from each basic cluster.
abbrev pub read_model : ℕ → ℕ → Call
read_model id ep = read_attribute_request 2 id 1 ep 0 0x1037 1 (5 ∷ [])

abbrev pub read_rounds : ℕ → ℕ → ℕ → Work → Work
read_rounds zero id ep w = w
read_rounds (suc n) id ep w =
    let asked = exchange (read_model id ep) w in
    let again = read_rounds n id ep asked in
    elim (reply_of w.replies) [ answered ↦ asked | _ ↦ again ]

abbrev pub read_place : ℕ → Place → Work → Run Work
read_place id p w =
    let basic : Run Work =
      add_attribute id p.ep 0 5 0x81 w >>= λ w'. done (read_rounds 2 id p.ep w') in
    if p.cluster == 0 then basic else done w

unfoldable pub read_places : ℕ → List Place → Work → Run Work
read_places id [] w = done w
read_places id (p ∷ ps) w = read_place id p w >>= λ w'. read_places id ps w'

unfoldable pub read_models : ℕ → Work → Run Work
read_models k w = do
  d ← device_at k w
  ps ← places d.endpoint_count d.endpoints
  read_places d.node_id ps w

-- E_ZB_DEVICE_STATE_BIND_CLUSTER: the attributes that are added for a cluster. Each cluster that has
-- some is bound.
unfoldable pub bound_attributes : ℕ → ℕ → List ℕ
bound_attributes device_type cluster =
    if cluster == 0x0006 || cluster == 0x0008
    then 0 ∷ []
    else if cluster == 0x0300
    then if device_type == 0x010C
      then 7 ∷ []
      else if device_type == 0x010D
      then 7 ∷ 3 ∷ 4 ∷ []
      else []
    else if cluster == 0x0402 || cluster == 0x0405 || cluster == 0x0400 || cluster == 0x0406
    then 0 ∷ []
    else []

unfoldable pub add_attributes : ℕ → ℕ → ℕ → List ℕ → Work → Run Work
add_attributes id ep cluster [] w = done w
add_attributes id ep cluster (a ∷ more) w =
    add_attribute id ep cluster a 0x80 w >>= λ w'. add_attributes id ep cluster more w'

abbrev pub bind_request : ℕ → ℕ → ℕ → ℕ → Call
bind_request own_mac mac ep cluster = sends 0x0030 (bind_fields own_mac mac ep cluster)

abbrev pub bound : ℕ → ℕ → ℕ → List ℕ → Work → Work
bound mac ep cluster [] w = w
bound mac ep cluster (a ∷ more) w = logged (bind_request w.own_mac mac ep cluster) w

abbrev pub bind_place : ℕ → ℕ → Place → Work → Run Work
bind_place id mac p w =
    let added = bound_attributes p.device_type p.cluster in
    add_attributes id p.ep p.cluster added w >>= λ w'. done (bound mac p.ep p.cluster added w')

unfoldable pub bind_places : ℕ → ℕ → List Place → Work → Run Work
bind_places id mac [] w = done w
bind_places id mac (p ∷ ps) w = bind_place id mac p w >>= λ w'. bind_places id mac ps w'

abbrev pub activate : ℕ → Work → Run Work
activate k w = device_at k w >>= λ d. done (put_at k (record d { state = active }) w)

unfoldable pub bind_clusters : ℕ → Work → Run Work
bind_clusters k w = do
  d ← device_at k w
  ps ← places d.endpoint_count d.endpoints
  w' ← bind_places d.node_id d.ieee ps w
  activate k w'
