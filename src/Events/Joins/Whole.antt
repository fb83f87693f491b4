-- ===== src/Events/Joins/Whole.antt =====
-- All four steps: a device with one endpoint that announces itself becomes active.
use dm_matter_zigbee_bridge.Prelude.{
  ℕ, ◌≤◌, ◌<◌, true, false, ◌&&◌, none, some, List, ◌∷◌, All, drop, get_or, get_elem?,
  get_elem?-bound, get_elem?-set_self, length, map, ◌==◌, eq→==, ◌≡◌, refl, sym, ap, ◌∙◌, subst,
  arith, inr, Run, done, ◌>>=◌,
}
use dm_matter_zigbee_bridge.Devices.{Cluster, Device, Attribute, valid_node_id, valid_endpoint}
use dm_matter_zigbee_bridge.Devices.Attributes.{find_attribute}
use dm_matter_zigbee_bridge.Devices.Table.{scan_index}
use dm_matter_zigbee_bridge.Qualify.{Reply, answered, Work, active, put_at}
use dm_matter_zigbee_bridge.Qualify.Phases.{Place, is_skipped, places}
use dm_matter_zigbee_bridge.Qualify.Phases.Bare.Found.{scan_index-Same, places-Same, SameDevices-at}
use dm_matter_zigbee_bridge.Qualify.Phases.Binds.{Bindable}
use dm_matter_zigbee_bridge.Qualify.Phases.Reads.{Finds, HasRoom, Bindable-Same}
use dm_matter_zigbee_bridge.Reports.Handle.{half}
use dm_matter_zigbee_bridge.Reports.Descriptor.{Supported, clusters_of, is_readable}
use dm_matter_zigbee_bridge.Reports.Descriptor.Stored.{kept}
use dm_matter_zigbee_bridge.Events.{
  Host, type_at, handle_device_announce, handle_active_end_point_resp,
  handle_simple_descriptor_response, handle_read_attr_resp,
}
use dm_matter_zigbee_bridge.Events.Joins.Announced.{newcomer, scan_index-bound, scan_index-set}
use dm_matter_zigbee_bridge.Events.Joins.Endpoints.{
  announced_ieee, IsNew, welcomed, handle_device_announce-asks, with_endpoints,
  handle_active_end_point_resp-asks,
}
use dm_matter_zigbee_bridge.Events.Joins.Described.{
  described_endpoint, described_device, Described, handle_simple_descriptor_response-Described,
}
use dm_matter_zigbee_bridge.Events.Joins.First.{
  first_endpoint, place_at, first-places, places-ep, places-basic, first-Bindable,
}
use dm_matter_zigbee_bridge.Events.Joins.Active.{IsModel, handle_read_attr_resp-active}
use dm_matter_zigbee_bridge.Events.Joins.One.{
  pointer-valid, scan_index-kept, endpoint_of-one, name_endpoints-one, describe-stored,
  described-first, blanks, no_clusters, named_endpoint, with_one, stored,
}

-- The identifiers that the messages bring: the device's addresses, its endpoint, and its clusters.
abbrev pub id_of : List ℕ → ℕ
id_of m = half m 0

abbrev pub endpoint_in : List ℕ → ℕ
endpoint_in m = get_or (drop 5 m) 0 0

-- What the device reports, and that nothing is in its way; `m1` to `m4` are its messages.
pub record Joining {ℓ} {F : Type ℓ} (k i : ℕ) (m1 m2 m3 m4 : List ℕ) (rest : List Reply)
    (h : Host F) : Type ℓ where
  pub is_new : IsNew (half m1 0) (announced_ieee m1) k h
  pub short_free : scan_index (half m1 0) h.work.devices ≡ none
  pub replies : h.work.replies ≡ answered ∷ answered ∷ rest
  pub index_reset : h.work.ep_index ≡ 0
  pub endpoints_from : half m2 2 ≡ half m1 0
  pub one_endpoint : get_or m2 4 0 ≡ 1
  pub ep_valid : valid_endpoint (endpoint_in m2) ≡ true
  pub ep_used : is_skipped (endpoint_in m2) ≡ false
  pub descriptor_from : (half m3 2 ≡ half m1 0) × (get_or m3 5 0 ≡ endpoint_in m2)
  pub clusters_readable : is_readable m3 ≡ true
  pub clusters_fit : length (kept (clusters_of m3)) ≤ 15
  pub has_basic : get_elem? (kept (clusters_of m3)) i ≡ some 0
  pub room : HasRoom (half m1 0) (endpoint_in m2) h.work.attributes
  pub model_from : IsModel (half m1 0) (endpoint_in m2) m4

-- What the last handler leaves: an active device at `k`, and a reset index.
pub record Joined {ℓ} {F : Type ℓ} (k : ℕ) (r : Run (Host F)) : Type ℓ where
  pub u : Host F
  pub e : Device
  pub runs : r ≡ done u
  pub at : get_elem? u.work.devices k ≡ some e
  pub is_active : e.state ≡ active
  pub index_is : u.work.ep_index ≡ 0

module _ {ℓ} {F : Type ℓ} (k i : ℕ) (m1 m2 m3 m4 : List ℕ) (rest : List Reply) (h : Host F) where
  abbrev id : ℕ
  id = half m1 0

  abbrev ep : ℕ
  ep = endpoint_in m2

  abbrev d1 : Device
  d1 = newcomer id (announced_ieee m1)

  abbrev d2 : Device
  d2 = with_one id (announced_ieee m1) ep

  abbrev h1 : Host F
  h1 = welcomed id (announced_ieee m1) k (answered ∷ rest) h

  abbrev h2 : Host F
  h2 = with_endpoints k d1 1 (named_endpoint ep ∷ blanks) rest h1

  bound : Joining k i m1 m2 m3 m4 rest h → k < length h.work.devices
  bound j = scan_index-bound 0 k h.work.devices j.is_new.free

  at1 : Joining k i m1 m2 m3 m4 rest h → get_elem? h1.work.devices k ≡ some d1
  at1 j = get_elem?-set_self h.work.devices k d1 (bound j)

  index1 : Joining k i m1 m2 m3 m4 rest h → scan_index id h1.work.devices ≡ some k
  index1 j = scan_index-set id k h.work.devices d1 (bound j) j.short_free refl

  step1 : Joining k i m1 m2 m3 m4 rest h → handle_device_announce m1 h ≡ done h1
  step1 j = handle_device_announce-asks k m1 h (answered ∷ rest) j.is_new j.replies

  at2 : Joining k i m1 m2 m3 m4 rest h → get_elem? h2.work.devices k ≡ some d2
  at2 j = get_elem?-set_self h1.work.devices k d2 (get_elem?-bound h1.work.devices k d1 (at1 j))

  index2 : Joining k i m1 m2 m3 m4 rest h → scan_index id h2.work.devices ≡ some k
  index2 j = scan_index-kept id k h1.work.devices d2 (index1 j) refl

  step2 : Joining k i m1 m2 m3 m4 rest h → handle_active_end_point_resp m2 h1 ≡ done h2
  step2 j =
      handle_active_end_point_resp-asks id k m2 h1 d1 (named_endpoint ep ∷ blanks)
        (named_endpoint ep) rest j.endpoints_from
        (pointer-valid id k h1.work.devices j.is_new.id_valid (index1 j)) (at1 j) refl
        (name_endpoints-one (get_or m2 4 0) (drop 5 m2) j.one_endpoint)
        (rw j.index_reset (omega arith)) (rw j.index_reset refl) j.ep_used refl
      ∙ ap (λ n. done (with_endpoints k d1 n (named_endpoint ep ∷ blanks) rest h1)) j.one_endpoint

  abbrev ks : List ℕ
  ks = kept (clusters_of m3)

  abbrev described_first : (List Cluster × ℕ) × (Supported × ℕ)
  described_first = stored ks (type_at h2.nodes.joined h2.nodes.idx)

  abbrev d3 : Device
  d3 = described_device ep d2 (described_endpoint (named_endpoint ep) (half m3 8) described_first.0)

  abbrev w3 : Work
  w3 = put_at k d3 h2.work

  abbrev ps : List Place
  ps = map (place_at ep (half m3 8)) ks

  both_valid : Joining k i m1 m2 m3 m4 rest h → (valid_node_id id && valid_endpoint ep) ≡ true
  both_valid j = rw (j.is_new.id_valid, j.ep_valid) refl

  at3 : Joining k i m1 m2 m3 m4 rest h → get_elem? w3.devices k ≡ some d3
  at3 j = get_elem?-set_self h2.work.devices k d3 (get_elem?-bound h2.work.devices k d2 (at2 j))

  index3 : Joining k i m1 m2 m3 m4 rest h → scan_index id w3.devices ≡ some k
  index3 j = scan_index-kept id k h2.work.devices d3 (index2 j) refl

  first3 : d3.endpoints ≡ first_endpoint ep (half m3 8) ks no_clusters ∷ blanks
  first3 = described-first id (announced_ieee m1) ep (half m3 8) ks

  places3 : Joining k i m1 m2 m3 m4 rest h → places 1 d3.endpoints ≡ done ps
  places3 j =
      ap (places 1) first3 ∙ first-places ep (half m3 8) ks no_clusters blanks j.clusters_fit

  can3 : Joining k i m1 m2 m3 m4 rest h → All (Bindable id w3) ps
  can3 j =
      first-Bindable id ep (half m3 8) k w3 d3 ks no_clusters blanks (both_valid j) j.clusters_fit
        (index3 j) (at3 j) first3

  step3 :
      Joining k i m1 m2 m3 m4 rest h
      → Described id ep k h2 d3 (handle_simple_descriptor_response m3 h2)
  step3 j =
      handle_simple_descriptor_response-Described id ep (half m3 8) k m3 h2 d2 (named_endpoint ep)
        described_first ps (j.descriptor_from.0, j.descriptor_from.1, refl)
        (pointer-valid id k h2.work.devices j.is_new.id_valid (index2 j)) (at2 j) refl
        (endpoint_of-one id (announced_ieee m1) ep j.ep_valid)
        (describe-stored m3 (type_at h2.nodes.joined h2.nodes.idx) j.clusters_readable
          j.clusters_fit)
        (eq→== ep ep refl) (places3 j) (places-ep ep (half m3 8) ks) (can3 j)
        (inr (j.room, places-basic ep (half m3 8) i ks j.has_basic))

  attribute_found :
      (rows : List Attribute)
      → (valid_node_id id && valid_endpoint ep) ≡ true
      → (f : Finds id ep rows) → find_attribute id ep 0 5 rows ≡ some f.0
  unfolding find_attribute
  attribute_found rows v f = rw (find_attribute, v) f.1

  step4 :
      (j : Joining k i m1 m2 m3 m4 rest h)
      → (g : Described id ep k h2 d3 (handle_simple_descriptor_response m3 h2))
      → Joined k (handle_read_attr_resp m4 g.u)
  step4 j g =
      let (d4, at4, same4) = SameDevices-at w3.devices g.u.work.devices k d3 g.same (at3 j) in
      let named4 : d4.node_id ≡ id = ap (λ b. b.node_id) same4 in
      let places4 : places d4.endpoint_count d4.endpoints ≡ done ps =
        ap (λ n. places n d4.endpoints) (ap (λ b. b.endpoint_count) same4)
        ∙ places-Same 1 d3.endpoints d4.endpoints (ap (λ b. b.endpoints) same4)
        ∙ places3 j in
      let can4 : All (Bindable d4.node_id g.u.work) ps =
        subst (λ x. All (Bindable x g.u.work) ps) (sym named4)
          (Bindable-Same id w3 g.u.work ps g.same (can3 j)) in
      let (u, e, runs, log_is, rows_are, at, is_active, index_is) =
        handle_read_attr_resp-active id ep k m4 g.u d4 ps g.finds.0 j.model_from
          (attribute_found g.u.work.attributes (both_valid j) g.finds)
          (pointer-valid id k g.u.work.devices j.is_new.id_valid
            (scan_index-Same id w3.devices g.u.work.devices g.same ∙ index3 j))
          at4 named4 (ap (λ b. b.state == active) same4) places4 can4 in
      record {
        u = record g.u { work = u };
        e = e;
        runs = runs;
        at = at;
        is_active = is_active;
        index_is = index_is;
      }

  -- The four handlers, one after the other.
  abbrev pub joining : Run (Host F)
  joining =
      handle_device_announce m1 h
      >>= handle_active_end_point_resp m2
      >>= handle_simple_descriptor_response m3
      >>= handle_read_attr_resp m4

  -- A device with one endpoint that is unknown by both of its addresses announces itself, sends
  -- its active endpoint, a simple descriptor that has all the clusters it counts, at most 15,
  -- with the basic cluster among them, and its model identifier. When both device table and
  -- attribute table have room, the static endpoint index is 0, and the requests for the endpoints
  -- and the descriptor are answered at once, the four handlers run through, the entry of the
  -- device ends in the state ACTIVE, and the static index is 0 again.
  pub joining-Joined : Joining k i m1 m2 m3 m4 rest h → Joined k joining
  joining-Joined j = let g = step3 j in subst (Joined k) (sym (joining-run g)) (step4 j g)
    where
      joining-run :
          (g : Described id ep k h2 d3 (handle_simple_descriptor_response m3 h2))
          → joining ≡ handle_read_attr_resp m4 g.u
      joining-run g =
          ap
            (λ r.
              r
              >>= handle_active_end_point_resp m2
              >>= handle_simple_descriptor_response m3
              >>= handle_read_attr_resp m4)
            (step1 j)
          ∙ ap (λ r. r >>= handle_simple_descriptor_response m3 >>= handle_read_attr_resp m4)
              (step2 j)
          ∙ ap (λ r. r >>= handle_read_attr_resp m4) g.runs
