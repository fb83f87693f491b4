-- ===== src/Events.antt =====
-- The callbacks of zigbee_bridge/rt/rw61x/ZCB/zcb.c by which a new device is qualified, with all that
-- they change: the announcement, the active endpoints, the simple descriptor, the attribute read.
pub mod Addresses
pub mod Joins
mod Tests
use dm_matter_zigbee_bridge.Prelude.{
  ℕ, zero, suc, ◌+◌, ◌*◌, Bool, true, false, not, ◌&&◌, Option, none, some, List, [], ◌∷◌,
  get_elem?, get_or, set, drop, ◌==◌, if◌then◌else◌, Run, done, fault, ◌>>=◌,
}
use dm_matter_zigbee_bridge.Prelude.Words.{little_endian, ntohd}
use dm_matter_zigbee_bridge.Devices.{
  Cluster, Endpoint, Device, Attribute, valid_node_id, valid_endpoint,
}
use dm_matter_zigbee_bridge.Devices.Table.{scan_index, find_by_ieee, add_new_device, scan_endpoint}
use dm_matter_zigbee_bridge.Devices.Attributes.{find_attribute, is_attribute}
use dm_matter_zigbee_bridge.Nodes.{Node, Nodes}
use dm_matter_zigbee_bridge.Nodes.Join.{announce}
use dm_matter_zigbee_bridge.Qualify.{
  Work, active, get_cluster, bind_cluster, read_attribute, device_at, put_at,
}
use dm_matter_zigbee_bridge.Qualify.Process.{new_device_qualify_process}
use dm_matter_zigbee_bridge.Reports.Handle.{half}
use dm_matter_zigbee_bridge.Reports.Descriptor.{Supported, describe}

-- The nodes, the device tables with the requests, `zbNetworkInfo.u16DeviceCount`, the bitmap of
-- `sZcb`, and the type of the message in `ZcbMsg`.
pub record Host {ℓ} (F : Type ℓ) : Type ℓ where
  pub nodes : Nodes F
  pub work : Work
  pub count : ℕ
  pub supported : Supported
  pub posted : ℕ

abbrev pub bridge_add_dev : ℕ
bridge_add_dev = 1

-- `tZDM_FindDeviceByNodeId`: the index of the entry that the result points to.
unfoldable pub pointer : ℕ → List Device → Option ℕ
pointer id ds = if valid_node_id id then scan_index id ds else none

-- `au8EndPointList` is written to as many endpoints.
unfoldable pub name_endpoints : ℕ → List ℕ → List Endpoint → Run (List Endpoint)
name_endpoints zero b es = done es
name_endpoints (suc n) b [] = fault
name_endpoints (suc n) b (e ∷ es) =
    name_endpoints n (drop 1 b) es >>= λ r. done (record e { id = get_or b 0 0 } ∷ r)

-- The first endpoint with the identifier is replaced.
unfoldable pub put_endpoint : ℕ → Endpoint → List Endpoint → List Endpoint
put_endpoint ep new [] = []
put_endpoint ep new (e ∷ es) =
    let rest = put_endpoint ep new es in if e.id == ep then new ∷ es else e ∷ rest

abbrev pub first_id : List Endpoint → ℕ
first_id [] = 0
first_id (e ∷ es) = e.id

-- `sAttribute->u8DataType`, for the entry that `tZDM_FindAttributeEntryByElement` finds.
unfoldable pub put_kind : ℕ → ℕ → ℕ → ℕ → ℕ → List Attribute → List Attribute
put_kind id ep cluster attribute kind [] = []
put_kind id ep cluster attribute kind (a ∷ rows) =
    let rest = put_kind id ep cluster attribute kind rows in
    if is_attribute id ep cluster attribute a then record a { kind = kind } ∷ rows else a ∷ rest

abbrev pub type_at : List Node → ℕ → ℕ
type_at ns i = elim (get_elem? ns i) [ none ↦ 0 | some n ↦ n.type ]

abbrev pub put_type : List Node → ℕ → ℕ → List Node
put_type ns i type = elim (get_elem? ns i) [
  | none ↦ ns
  | some n ↦ set ns i (record n { type = type })
]

-- `tZDM_FindEndpointEntryInDeviceTable`, and the reads through its result.
abbrev pub endpoint_of : ℕ → Device → Run Endpoint
endpoint_of ep d =
    let entry : Run Endpoint =
      scan_endpoint ep d.endpoints >>= λ o. elim o [ none ↦ fault | some e ↦ done e ] in
    if valid_endpoint ep then entry else fault

-- Whether the model identifier has come from a device that is not active yet.
abbrev pub has_model : List ℕ → Device → Bool
has_model m d = not (d.state == active) && half m 4 == 0 && half m 6 == 5

module _ {ℓ} {F : Type ℓ} where
  abbrev pub with_work : Host F → Work → Run (Host F)
  with_work h w = done (record h { work = w })

  -- `vZDM_NewDeviceQualifyProcess` on the device at `k`.
  abbrev pub qualified : ℕ → Host F → Run (Host F)
  qualified k h = new_device_qualify_process k h.work >>= with_work h

  abbrev pub put_table : List Device × ℕ → Host F → Host F
  put_table t h = record h { work = record h.work { devices = t.0 }; count = t.1 }

  -- The new entry is the first that was blank.
  abbrev pub added : Host F → Option ℕ → Option (List Device × ℕ) → Run (Host F)
  added h (some k) (some t) = qualified k (put_table t h)
  added h _ _ = done h

  unfoldable pub handle_device_announce : List ℕ → Host F → Run (Host F)
  handle_device_announce m h =
      let short = half m 0 in
      let ieee = ntohd (little_endian 8 (drop 2 m)) in
      let h' = record h { nodes = announce short ieee h.nodes } in
      let new : Run (Host F) =
        added h' (scan_index 0 h.work.devices)
          (add_new_device short ieee (h.work.devices, h.count)) in
      elim (find_by_ieee ieee h.work.devices) [ none ↦ new | some d ↦ done h' ]

  abbrev pub named : ℕ → Device → ℕ → Host F → List Endpoint → Run (Host F)
  named k d n h es =
      let d' = record d { endpoint_count = n; endpoints = es; state = get_cluster } in
      qualified k (record h { work = put_at k d' h.work })

  unfoldable pub handle_active_end_point_resp : List ℕ → Host F → Run (Host F)
  handle_active_end_point_resp m h = elim (pointer (half m 2) h.work.devices) [
    | none ↦ done h
    | some k ↦ device_at k h.work >>= λ d.
        let n = get_or m 4 0 in
        let next = name_endpoints n (drop 5 m) d.endpoints >>= named k d n h in
        if d.state == active then done h else next
  ]

  abbrev pub described :
      ℕ → Device → ℕ → Endpoint → ℕ → Host F → (List Cluster × ℕ) × (Supported × ℕ) → Run (Host F)
  described k d ep e kind h r =
      let e' = record e { device_type = kind; clusters = r.0.0; cluster_count = r.0.1 } in
      let state = if ep == first_id d.endpoints then read_attribute else get_cluster in
      let d' = record d { endpoints = put_endpoint ep e' d.endpoints; state = state } in
      let t = h.nodes in
      let nodes = record t { joined = put_type t.joined t.idx r.1.1 } in
      qualified k (record h { nodes = nodes; work = put_at k d' h.work; supported = r.1.0 })
      >>= λ u. done (record u { posted = bridge_add_dev })

  unfoldable pub handle_simple_descriptor_response : List ℕ → Host F → Run (Host F)
  handle_simple_descriptor_response m h = elim (pointer (half m 2) h.work.devices) [
    | none ↦ fault
    | some k ↦ device_at k h.work >>= λ d.
        let ep = get_or m 5 0 in
        let next = endpoint_of ep d >>= λ e.
        describe m e.clusters (type_at h.nodes.joined h.nodes.idx)
        >>= described k d ep e (half m 8) h in
        if d.state == active then done h else next
  ]

  abbrev pub model_read : List ℕ → Host F → Run (Host F)
  model_read m h = elim (pointer (half m 1) h.work.devices) [
    | none ↦ fault
    | some k ↦ device_at k h.work >>= λ d.
        let next =
          qualified k (record h { work = put_at k (record d { state = bind_cluster }) h.work }) in
        if has_model m d then next else done h
  ]

  -- `ZCB_HandleReadAttrResp` but for the value of the attribute.
  unfoldable pub handle_read_attr_resp : List ℕ → Host F → Run (Host F)
  handle_read_attr_resp m h =
      let w = h.work in
      let ep = get_or m 3 0 in
      let rows = put_kind (half m 1) ep (half m 4) (half m 6) (get_or m 9 0) w.attributes in
      elim (find_attribute (half m 1) ep (half m 4) (half m 6) w.attributes) [
        | none ↦ done h
        | some a ↦ model_read m (record h { work = record w { attributes = rows } })
      ]
