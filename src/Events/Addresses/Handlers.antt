-- ===== src/Events/Addresses/Handlers.antt =====
-- The handlers that qualify a device keep each IEEE address unique.
use dm_matter_zigbee_bridge.Prelude.{
  ℕ, Option, none, some, List, drop, get_or, ◌==◌, refl, if◌then◌else◌, Run, done, fault, ◌>>=◌,
}
use dm_matter_zigbee_bridge.Devices.{Cluster, Endpoint, Device, Attribute}
use dm_matter_zigbee_bridge.Devices.Attributes.{find_attribute}
use dm_matter_zigbee_bridge.Qualify.{active, get_cluster, bind_cluster, device_at, put_at}
use dm_matter_zigbee_bridge.Qualify.Process.Addresses.{IsAt}
use dm_matter_zigbee_bridge.Qualify.Phases.Outcome.{Then, Then->>=, Then-if, Any, Then-Any}
use dm_matter_zigbee_bridge.Reports.Handle.{half}
use dm_matter_zigbee_bridge.Reports.Descriptor.{Supported, describe}
use dm_matter_zigbee_bridge.Events.{
  Host, qualified, pointer, name_endpoints, named, handle_active_end_point_resp, endpoint_of,
  described, handle_simple_descriptor_response, type_at, has_model, model_read,
  handle_read_attr_resp, put_kind,
}
use dm_matter_zigbee_bridge.Events.Addresses.{
  HostDistinct, qualified-Distinct, put-Distinct, entry-Distinct,
}

module _ {ℓ} {F : Type ℓ} where
  pub handle_active_end_point_resp-Distinct :
      (m : List ℕ) (h : Host F)
      → HostDistinct h
      → Then HostDistinct (handle_active_end_point_resp m h)
  unfolding handle_active_end_point_resp
  handle_active_end_point_resp-Distinct m h p = from (pointer (half m 2) h.work.devices)
    where
      next : ℕ → Device → Run (Host F)
      next k d = name_endpoints (get_or m 4 0) (drop 5 m) d.endpoints >>= named k d (get_or m 4 0) h

      next-Distinct : (k : ℕ) (d : Device) → IsAt k h.work d → Then HostDistinct (next k d)
      next-Distinct k d at =
          Then->>= Any HostDistinct (name_endpoints (get_or m 4 0) (drop 5 m) d.endpoints) _
            (Then-Any _)
            (λ es t.
              let e = record d {
                endpoint_count = get_or m 4 0;
                endpoints = es;
                state = get_cluster;
              } in
              qualified-Distinct k (record h { work = put_at k e h.work })
                (put-Distinct k h d e p at refl))

      handle : ℕ → Device → Run (Host F)
      handle k d = if d.state == active then done h else next k d

      from :
          (o : Option ℕ)
          → Then HostDistinct (elim o as (λ x. Run (Host F)) [
            | none ↦ done h
            | some k ↦ device_at k h.work >>= handle k
          ])
      from none = p
      from (some k) =
          entry-Distinct k h (handle k)
            (λ d at. Then-if HostDistinct (d.state == active) _ _ p (next-Distinct k d at))

  pub handle_simple_descriptor_response-Distinct :
      (m : List ℕ) (h : Host F)
      → HostDistinct h
      → Then HostDistinct (handle_simple_descriptor_response m h)
  unfolding handle_simple_descriptor_response
  handle_simple_descriptor_response-Distinct m h p = from (pointer (half m 2) h.work.devices)
    where
      ep : ℕ
      ep = get_or m 5 0

      next : ℕ → Device → Run (Host F)
      next k d = endpoint_of ep d >>= λ e.
          describe m e.clusters (type_at h.nodes.joined h.nodes.idx)
          >>= described k d ep e (half m 8) h

      described-Distinct :
          (k : ℕ) (d : Device) (e : Endpoint) (r : (List Cluster × ℕ) × (Supported × ℕ))
          → IsAt k h.work d
          → Then HostDistinct (described k d ep e (half m 8) h r)
      described-Distinct k d e r at =
          Then->>= HostDistinct HostDistinct _ _
            (qualified-Distinct k _ (put-Distinct k h d _ p at refl)) (λ u g. g)

      next-Distinct : (k : ℕ) (d : Device) → IsAt k h.work d → Then HostDistinct (next k d)
      next-Distinct k d at = Then->>= Any HostDistinct (endpoint_of ep d) _ (Then-Any _) (λ e t.
          Then->>= Any HostDistinct (describe m e.clusters (type_at h.nodes.joined h.nodes.idx)) _
            (Then-Any _) (λ r u. described-Distinct k d e r at))

      handle : ℕ → Device → Run (Host F)
      handle k d = if d.state == active then done h else next k d

      from :
          (o : Option ℕ)
          → Then HostDistinct (elim o as (λ x. Run (Host F)) [
            | none ↦ fault
            | some k ↦ device_at k h.work >>= handle k
          ])
      from none = tt
      from (some k) =
          entry-Distinct k h (handle k)
            (λ d at. Then-if HostDistinct (d.state == active) _ _ p (next-Distinct k d at))

  model_read-Distinct :
      (m : List ℕ) (h : Host F) → HostDistinct h → Then HostDistinct (model_read m h)
  model_read-Distinct m h p = from (pointer (half m 1) h.work.devices)
    where
      next : ℕ → Device → Run (Host F)
      next k d =
          qualified k (record h { work = put_at k (record d { state = bind_cluster }) h.work })

      handle : ℕ → Device → Run (Host F)
      handle k d = if has_model m d then next k d else done h

      from :
          (o : Option ℕ)
          → Then HostDistinct (elim o as (λ x. Run (Host F)) [
            | none ↦ fault
            | some k ↦ device_at k h.work >>= handle k
          ])
      from none = tt
      from (some k) = entry-Distinct k h (handle k) (λ d at.
          let e = record d { state = bind_cluster } in
          Then-if HostDistinct (has_model m d) _ _
            (qualified-Distinct k (record h { work = put_at k e h.work })
              (put-Distinct k h d e p at refl))
            p)

  pub handle_read_attr_resp-Distinct :
      (m : List ℕ) (h : Host F) → HostDistinct h → Then HostDistinct (handle_read_attr_resp m h)
  unfolding handle_read_attr_resp
  handle_read_attr_resp-Distinct m h p =
      from (find_attribute (half m 1) ep (half m 4) (half m 6) h.work.attributes)
    where
      ep : ℕ
      ep = get_or m 3 0

      rows : List Attribute
      rows = put_kind (half m 1) ep (half m 4) (half m 6) (get_or m 9 0) h.work.attributes

      h' : Host F
      h' = record h { work = record h.work { attributes = rows } }

      from :
          (o : Option Attribute)
          → Then HostDistinct
              (elim o as (λ x. Run (Host F)) [ none ↦ done h | some a ↦ model_read m h' ])
      from none = p
      from (some a) = model_read-Distinct m h' p
