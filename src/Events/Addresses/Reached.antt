-- ===== src/Events/Addresses/Reached.antt =====
-- Whatever sequence of events comes, each IEEE address stands once in the device table.
use dm_matter_zigbee_bridge.Prelude.{ℕ, List, ◌≡◌, sym, subst, Run, done, ◌>>=◌}
use dm_matter_zigbee_bridge.Devices.{Device}
use dm_matter_zigbee_bridge.Qualify.{Reply}
use dm_matter_zigbee_bridge.Qualify.Process.Addresses.{SameIeees}
use dm_matter_zigbee_bridge.Qualify.Phases.Outcome.{Then, Then->>=}
use dm_matter_zigbee_bridge.Reports.Handle.{half, revive}
use dm_matter_zigbee_bridge.Reports.Addresses.{ieee_address_response}
use dm_matter_zigbee_bridge.Reports.Timers.{with_off_line}
use dm_matter_zigbee_bridge.Events.{
  Host, handle_device_announce, handle_active_end_point_resp, handle_simple_descriptor_response,
  handle_read_attr_resp,
}
use dm_matter_zigbee_bridge.Events.Addresses.{
  IsDistinct, HostDistinct, handle_device_announce-Distinct,
}
use dm_matter_zigbee_bridge.Events.Addresses.Tables.{
  revive-SameIeees, ieee_address_response-SameIeees, with_off_line-SameIeees,
}
use dm_matter_zigbee_bridge.Events.Addresses.Handlers.{
  handle_active_end_point_resp-Distinct, handle_simple_descriptor_response-Distinct,
  handle_read_attr_resp-Distinct,
}

-- What may happen to the device table: the callbacks that change it, for any message, as far as they
-- do, a timer that runs out, and what becomes of the requests to come.
pub data Event : Type 0 where
  announced endpoints_came descriptor_came attribute_came reported address_came : List ℕ → Event
  expired : ℕ → Event
  answers : List Reply → Event

module _ {ℓ} {F : Type ℓ} where
  abbrev pub with_devices : Host F → List Device → Host F
  with_devices h ds = record h { work = record h.work { devices = ds } }

  abbrev pub handle : Event → Host F → Run (Host F)
  handle (announced m) h = handle_device_announce m h
  handle (endpoints_came m) h = handle_active_end_point_resp m h
  handle (descriptor_came m) h = handle_simple_descriptor_response m h
  handle (attribute_came m) h = handle_read_attr_resp m h
  handle (reported m) h = done (with_devices h (revive (half m 1) h.work.devices))
  handle (address_came m) h = done (with_devices h (ieee_address_response m h.work.devices))
  handle (expired i) h = with_off_line i h.work.devices >>= λ ds. done (with_devices h ds)
  handle (answers rs) h = done (record h { work = record h.work { replies = rs } })

  handle-Distinct : (e : Event) (h : Host F) → HostDistinct h → Then HostDistinct (handle e h)
  handle-Distinct (announced m) h p = handle_device_announce-Distinct m h p
  handle-Distinct (endpoints_came m) h p = handle_active_end_point_resp-Distinct m h p
  handle-Distinct (descriptor_came m) h p = handle_simple_descriptor_response-Distinct m h p
  handle-Distinct (attribute_came m) h p = handle_read_attr_resp-Distinct m h p
  handle-Distinct (reported m) h p =
      subst IsDistinct (sym (revive-SameIeees (half m 1) h.work.devices)) p
  handle-Distinct (address_came m) h p =
      subst IsDistinct (sym (ieee_address_response-SameIeees m h.work.devices)) p
  handle-Distinct (expired i) h p =
      Then->>= (SameIeees h.work.devices) HostDistinct _ _
        (with_off_line-SameIeees i h.work.devices) (λ ds e. subst IsDistinct (sym e) p)
  handle-Distinct (answers rs) h p = p

  -- The hosts that sequences of events lead to.
  pub data Reach (s : Host F) : Host F → Type ℓ where
    here : Reach s s
    next : {t u : Host F} → (e : Event) → Reach s t → handle e t ≡ done u → Reach s u

  Then-done : (P : Host F → Type 0) (r : Run (Host F)) (u : Host F) → Then P r → r ≡ done u → P u
  Then-done P r u h e = subst (Then P) e h

  -- When no IEEE address but 0 stands twice in the device table, none does after any sequence of
  -- announcements, active endpoints, simple descriptors, read responses, reports, IEEE address
  -- responses and expired device timers, with any messages and whatever becomes of the requests.
  pub Reach-Distinct : (s t : Host F) → HostDistinct s → Reach s t → HostDistinct t
  Reach-Distinct s t p here = p
  Reach-Distinct s t p (next e r runs) =
      Then-done HostDistinct _ t (handle-Distinct e _ (Reach-Distinct s _ p r)) runs
