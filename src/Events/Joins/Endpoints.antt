-- ===== src/Events/Joins/Endpoints.antt =====
-- The first two steps: an unknown device announces itself, and its active endpoints come.
use dm_matter_zigbee_bridge.Prelude.{
  ℕ, suc, ◌+◌, ◌%◌, ◌<◌, true, false, none, some, List, ◌∷◌, drop, get_or, set, get_elem?,
  get_elem?-bound, get_elem?-set_self, ◌==◌, ◌≡◌, refl, ap, done, ◌>>=◌,
}
use dm_matter_zigbee_bridge.Prelude.Words.{little_endian, ntohd}
use dm_matter_zigbee_bridge.Zcb.Requests.{active_endpoint_request, simple_descriptor_request}
use dm_matter_zigbee_bridge.Devices.{Endpoint, Device, valid_node_id, valid_ieee}
use dm_matter_zigbee_bridge.Devices.Table.{scan_index, find_by_ieee}
use dm_matter_zigbee_bridge.Nodes.Join.{announce}
use dm_matter_zigbee_bridge.Qualify.{Reply, answered, active, get_cluster, device_at, put_at}
use dm_matter_zigbee_bridge.Qualify.Phases.{is_skipped}
use dm_matter_zigbee_bridge.Reports.Handle.{half}
use dm_matter_zigbee_bridge.Events.{
  Host, with_work, added, handle_device_announce, pointer, name_endpoints,
  handle_active_end_point_resp,
}
use dm_matter_zigbee_bridge.Events.Joins.Announced.{
  newcomer, asked, scan_index-bound, add_new_device-at, joined-asked, descriptor-asked,
}

-- The address in an announcement.
abbrev pub announced_ieee : List ℕ → ℕ
announced_ieee m = ntohd (little_endian 8 (drop 2 m))

module _ {ℓ} {F : Type ℓ} where
  -- The device has the entry `k`, is counted, and has been asked for its active endpoints.
  abbrev pub welcomed : ℕ → ℕ → ℕ → List Reply → Host F → Host F
  welcomed id ieee k rest h = record h {
    nodes = announce id ieee h.nodes;
    count = (h.count + 1) % 65536;
    work =
        asked (active_endpoint_request id) rest
          (record h.work { devices = set h.work.devices k (newcomer id ieee) });
  }

  -- What an announcement of an unknown device finds.
  pub record IsNew (id ieee k : ℕ) (h : Host F) : Type ℓ where
    pub id_valid : valid_node_id id ≡ true
    pub ieee_valid : valid_ieee ieee ≡ true
    pub unknown : find_by_ieee ieee h.work.devices ≡ none
    pub free : scan_index 0 h.work.devices ≡ some k

  added-asked :
      (id ieee k : ℕ) (h : Host F) (rest : List Reply)
      → scan_index 0 h.work.devices ≡ some k
      → h.work.replies ≡ answered ∷ rest
      → added
          (record h { nodes = announce id ieee h.nodes })
          (some k)
          (some (set h.work.devices k (newcomer id ieee), (h.count + 1) % 65536))
        ≡ done (welcomed id ieee k rest h)
  added-asked id ieee k h rest free replies =
      let w = record h.work { devices = set h.work.devices k (newcomer id ieee) } in
      let h' = record h {
        nodes = announce id ieee h.nodes;
        work = w;
        count = (h.count + 1) % 65536;
      } in
      let at : get_elem? w.devices k ≡ some (newcomer id ieee) =
        get_elem?-set_self h.work.devices k _ (scan_index-bound 0 k h.work.devices free) in
      ap (λ r. r >>= with_work h') (joined-asked k w (newcomer id ieee) rest at refl replies)

  pub handle_device_announce-asks :
      (k : ℕ) (m : List ℕ) (h : Host F) (rest : List Reply)
      → IsNew (half m 0) (announced_ieee m) k h
      → h.work.replies ≡ answered ∷ rest
      → handle_device_announce m h ≡ done (welcomed (half m 0) (announced_ieee m) k rest h)
  unfolding handle_device_announce
  handle_device_announce-asks k m h rest new replies =
      let id = half m 0 in
      let ieee = announced_ieee m in
      rw (handle_device_announce, new.unknown, new.free)
        (rw
          (add_new_device-at id ieee k h.count h.work.devices new.id_valid new.ieee_valid new.free)
          (added-asked id ieee k h rest new.free replies))

  -- The endpoints are stored, and the first is to be described.
  abbrev pub with_endpoints : ℕ → Device → ℕ → List Endpoint → List Reply → Host F → Host F
  with_endpoints k d n es rest h =
      let d' = record d { endpoint_count = n; endpoints = es; state = get_cluster } in
      record h {
        work =
            asked (simple_descriptor_request d.node_id 1) rest
              (record (put_at k d' h.work) { ep_index = suc h.work.ep_index });
      }

  pub handle_active_end_point_resp-asks :
      (id k : ℕ) (m : List ℕ) (h : Host F) (d : Device) (es : List Endpoint) (e : Endpoint)
      (rest : List Reply)
      → half m 2 ≡ id
      → pointer id h.work.devices ≡ some k
      → get_elem? h.work.devices k ≡ some d
      → (d.state == active) ≡ false
      → name_endpoints (get_or m 4 0) (drop 5 m) d.endpoints ≡ done es
      → h.work.ep_index < 255
      → get_elem? es h.work.ep_index ≡ some e
      → is_skipped e.id ≡ false
      → h.work.replies ≡ answered ∷ rest
      → handle_active_end_point_resp m h ≡ done (with_endpoints k d (get_or m 4 0) es rest h)
  unfolding handle_active_end_point_resp
  handle_active_end_point_resp-asks id k m h d es e rest from points at off names small here kept
        replies =
      let d' = record d { endpoint_count = get_or m 4 0; endpoints = es; state = get_cluster } in
      let w = put_at k d' h.work in
      let at' : get_elem? w.devices k ≡ some d' =
        get_elem?-set_self h.work.devices k d' (get_elem?-bound h.work.devices k d at) in
      rw (handle_active_end_point_resp, from, points)
        (rw (device_at, at)
          (rw (off, names)
            (ap (λ r. r >>= with_work (record h { work = w }))
              (descriptor-asked k w d' e rest at' refl small here kept replies))))
