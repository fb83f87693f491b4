-- ===== src/Events/Joins/Described.antt =====
-- The third step: the simple descriptor of the first endpoint comes.
use dm_matter_zigbee_bridge.Prelude.{
  ℕ, true, false, some, List, All, get_or, set, get_elem?, get_elem?-bound, get_elem?-set_self,
  ◌==◌, ◌≡◌, refl, sym, ap, ◌∙◌, subst, Run, done,
}
use dm_matter_zigbee_bridge.Devices.{Cluster, Endpoint, Device}
use dm_matter_zigbee_bridge.Qualify.{
  Work, new_joined, active, get_cluster, read_attribute, device_at, put_at,
}
use dm_matter_zigbee_bridge.Qualify.Phases.{Place, places, read_places, read_models}
use dm_matter_zigbee_bridge.Qualify.Phases.Bare.{SameDevices}
use dm_matter_zigbee_bridge.Qualify.Phases.Bare.Found.{SameDevices-at}
use dm_matter_zigbee_bridge.Qualify.Phases.Binds.{Bindable}
use dm_matter_zigbee_bridge.Qualify.Phases.Reads.{Finds, IsReady, Reads, read_places-Reads}
use dm_matter_zigbee_bridge.Qualify.Process.{phase, new_device_qualify_process}
use dm_matter_zigbee_bridge.Reports.Handle.{half}
use dm_matter_zigbee_bridge.Reports.Descriptor.{Supported, describe}
use dm_matter_zigbee_bridge.Events.{
  Host, bridge_add_dev, pointer, put_endpoint, first_id, type_at, put_type, described, endpoint_of,
  handle_simple_descriptor_response,
}
use dm_matter_zigbee_bridge.Events.Joins.Announced.{ends-process, round-at}

read_models-run :
    (k : ℕ) (w : Work) (d : Device) (ps : List Place) (u : Work)
    → get_elem? w.devices k ≡ some d
    → places d.endpoint_count d.endpoints ≡ done ps
    → read_places d.node_id ps w ≡ done u
    → read_models k w ≡ done u
unfolding read_models
read_models-run k w d ps u at at_places runs =
    rw (read_models, device_at, at) (rw at_places (rw runs refl))

-- The process for a device in the state READ_ATTRIBUTE.
pub reading-Reads :
    (k ep : ℕ) (w : Work) (d : Device) (ps : List Place)
    → get_elem? w.devices k ≡ some d
    → d.state ≡ read_attribute
    → places d.endpoint_count d.endpoints ≡ done ps
    → All (λ p. p.ep ≡ ep) ps
    → All (Bindable d.node_id w) ps
    → IsReady d.node_id ep ps w.attributes
    → Reads d.node_id ep w (new_device_qualify_process k w)
unfolding phase
reading-Reads k ep w d ps at state at_places eps can ready =
    let g = read_places-Reads d.node_id ep ps w eps can ready in
    let (e, at', same) = SameDevices-at w.devices g.u.devices k d g.same at in
    record {
      u = g.u;
      runs =
          ends-process k w g.u e
            (round-at k w d at
              ∙ rw
                  (
                    phase,
                    ap (λ s. s == new_joined) state,
                    ap (λ s. s == get_cluster) state,
                    ap (λ s. s == read_attribute) state,
                  )
                  (rw (read_models-run k w d ps g.u at at_places g.runs) refl))
            at' (ap (λ s. s == active) (ap (λ b. b.state) same ∙ state));
      same = g.same;
      finds = g.finds;
    }

-- The entry with its endpoint described.
abbrev pub described_endpoint : Endpoint → ℕ → List Cluster × ℕ → Endpoint
described_endpoint e kind s = record e { device_type = kind; clusters = s.0; cluster_count = s.1 }

abbrev pub described_device : ℕ → Device → Endpoint → Device
described_device ep d e = record d {
  endpoints = put_endpoint ep e d.endpoints;
  state = read_attribute;
}

module _ {ℓ} {F : Type ℓ} where
  -- What a simple descriptor leaves.
  pub record Described (id ep k : ℕ) (h : Host F) (d : Device) (r : Run (Host F)) : Type ℓ where
    pub u : Host F
    pub runs : r ≡ done u
    pub same : SameDevices (set h.work.devices k d) u.work.devices
    pub finds : Finds id ep u.work.attributes
    pub posts : u.posted ≡ bridge_add_dev

  -- What the handler makes of the host before the process.
  abbrev pub storing : ℕ → Device → Host F → (List Cluster × ℕ) × (Supported × ℕ) → Host F
  storing k d h r = record h {
    nodes = record h.nodes { joined = put_type h.nodes.joined h.nodes.idx r.1.1 };
    work = put_at k d h.work;
    supported = r.1.0;
  }

  described-Described :
      (k ep : ℕ) (h : Host F) (d : Device) (e : Endpoint) (kind : ℕ)
      (r : (List Cluster × ℕ) × (Supported × ℕ)) (ps : List Place)
      → let d' = described_device ep d (described_endpoint e kind r.0) in
        get_elem? h.work.devices k ≡ some d
        → (ep == first_id d.endpoints) ≡ true
        → places d'.endpoint_count d'.endpoints ≡ done ps
        → All (λ p. p.ep ≡ ep) ps
        → All (Bindable d'.node_id (put_at k d' h.work)) ps
        → IsReady d'.node_id ep ps h.work.attributes
        → Described d.node_id ep k h d' (described k d ep e kind h r)
  described-Described k ep h d e kind r ps at first at_places eps can ready =
      let d' = described_device ep d (described_endpoint e kind r.0) in
      let h' = storing k d' h r in
      let at' : get_elem? (set h.work.devices k d') k ≡ some d' =
        get_elem?-set_self h.work.devices k d' (get_elem?-bound h.work.devices k d at) in
      let g = reading-Reads k ep h'.work d' ps at' refl at_places eps can ready in
      record {
        u = record h' { work = g.u; posted = bridge_add_dev };
        runs = rw first (rw g.runs refl);
        same = g.same;
        finds = g.finds;
        posts = refl;
      }

  pub handle_simple_descriptor_response-Described :
      (id ep kind k : ℕ) (m : List ℕ) (h : Host F) (d : Device) (e : Endpoint)
      (r : (List Cluster × ℕ) × (Supported × ℕ)) (ps : List Place)
      → let d' = described_device ep d (described_endpoint e kind r.0) in
        (half m 2 ≡ id) × (get_or m 5 0 ≡ ep) × (half m 8 ≡ kind)
        → pointer id h.work.devices ≡ some k
        → get_elem? h.work.devices k ≡ some d
        → (d.state == active) ≡ false
        → endpoint_of ep d ≡ done e
        → describe m e.clusters (type_at h.nodes.joined h.nodes.idx) ≡ done r
        → (ep == first_id d.endpoints) ≡ true
        → places d'.endpoint_count d'.endpoints ≡ done ps
        → All (λ p. p.ep ≡ ep) ps
        → All (Bindable d'.node_id (put_at k d' h.work)) ps
        → IsReady d'.node_id ep ps h.work.attributes
        → Described d.node_id ep k h d' (handle_simple_descriptor_response m h)
  unfolding handle_simple_descriptor_response
  handle_simple_descriptor_response-Described id ep kind k m h d e r ps (m1, m2, m3) points at off
        entry desc first at_places eps can ready =
      subst (Described d.node_id ep k h _) (sym (handler-run points at off entry desc))
        (described-Described k ep h d e kind r ps at first at_places eps can ready)
    where
      handler-run :
          pointer id h.work.devices ≡ some k
          → get_elem? h.work.devices k ≡ some d
          → (d.state == active) ≡ false
          → endpoint_of ep d ≡ done e
          → describe m e.clusters (type_at h.nodes.joined h.nodes.idx) ≡ done r
          → handle_simple_descriptor_response m h ≡ described k d ep e kind h r
      handler-run points at off entry desc =
          rw (handle_simple_descriptor_response, m1, points)
            (rw (device_at, at) (rw (off, m2, m3, entry) (rw desc refl)))
