-- ===== src/Events/Joins/Active.antt =====
-- The last step: the model identifier comes.
use dm_matter_zigbee_bridge.Prelude.{
  ℕ, zero, suc, false, some, List, [], ◌∷◌, ◌++◌, All, get_or, set, get_elem?, get_elem?-bound,
  get_elem?-set_self, ◌==◌, ◌≡◌, refl, ap, ◌∙◌, subst, done, ◌>>=◌,
}
use dm_matter_zigbee_bridge.Devices.{Device, Attribute}
use dm_matter_zigbee_bridge.Devices.Adding.Counts.{has_in_device}
use dm_matter_zigbee_bridge.Devices.Attributes.{find_attribute}
use dm_matter_zigbee_bridge.Qualify.{
  Work, new_joined, active, get_cluster, bind_cluster, read_attribute, device_at, put_at,
}
use dm_matter_zigbee_bridge.Qualify.Phases.{Place, places}
use dm_matter_zigbee_bridge.Qualify.Phases.Plan.{fill_places, requests_for}
use dm_matter_zigbee_bridge.Qualify.Phases.Binds.{Bindable, bind_clusters-active}
use dm_matter_zigbee_bridge.Qualify.Process.{phase, round, rounds, new_device_qualify_process}
use dm_matter_zigbee_bridge.Reports.Handle.{half}
use dm_matter_zigbee_bridge.Events.{
  Host, with_work, qualified, pointer, put_kind, has_model, model_read, handle_read_attr_resp,
}

-- An entry with another state is found as before.
has_in_device-state :
    (i p c k s : ℕ) (ds : List Device) (d : Device)
    → get_elem? ds k ≡ some d
    → has_in_device i p c (set ds k (record d { state = s })) ≡ has_in_device i p c ds
unfolding has_in_device
has_in_device-state i p c k s [] d h = refl
has_in_device-state i p c zero s (x ∷ ds) d h =
    subst (λ e. has_in_device i p c (record e { state = s } ∷ ds) ≡ has_in_device i p c (x ∷ ds))
      (some_is h) refl
  where
    some_is : some x ≡ some d → x ≡ d
    some_is q = cc
has_in_device-state i p c (suc k) s (x ∷ ds) d h = rw (has_in_device-state i p c k s ds d h) refl

Bindable-state :
    (id k s : ℕ) (w : Work) (d : Device) (ps : List Place)
    → get_elem? w.devices k ≡ some d
    → All (Bindable id w) ps
    → All (Bindable id (put_at k (record d { state = s }) w)) ps
Bindable-state id k s w d [] at a = tt
Bindable-state id k s w d (p ∷ ps) at (b, rest) = (
  (b.0, has_in_device-state id p.ep p.cluster k s w.devices d at ∙ b.1),
  Bindable-state id k s w d ps at rest,
)

-- The process in the state BIND_CLUSTER.
binding-active :
    (k : ℕ) (w : Work) (d : Device) (ps : List Place)
    → get_elem? w.devices k ≡ some d
    → d.state ≡ bind_cluster
    → places d.endpoint_count d.endpoints ≡ done ps
    → All (Bindable d.node_id w) ps
    → (u : Work) × (e : Device) × (new_device_qualify_process k w ≡ done u)
      × (u.log ≡ w.log ++ requests_for w.own_mac d.ieee ps)
      × (u.attributes ≡ fill_places d.node_id ps w.attributes)
      × (get_elem? u.devices k ≡ some e)
      × (e.state ≡ active)
      × (u.ep_index ≡ 0)
unfolding new_device_qualify_process rounds round phase
binding-active k w d ps at state at_places can =
    let (u, e, runs, log_is, rows_are, at', is_active) =
      bind_clusters-active k w d ps at at_places can in
    (
      record u { ep_index = 0 },
      e,
      rw (round, device_at, at)
          (rw
            (
              phase,
              ap (λ s. s == new_joined) state,
              ap (λ s. s == get_cluster) state,
              ap (λ s. s == read_attribute) state,
              ap (λ s. s == bind_cluster) state,
            )
            (rw runs (rw (device_at, at') (rw is_active)))),
      log_is,
      rows_are,
      at',
      is_active,
      refl,
    )

-- The fields of a response with the model identifier.
abbrev pub IsModel : ℕ → ℕ → List ℕ → Type 0
IsModel id ep m = (half m 1 ≡ id) × (get_or m 3 0 ≡ ep) × (half m 4 ≡ 0) × (half m 6 ≡ 5)

abbrev pub with_kind : ℕ → ℕ → List ℕ → List Attribute → List Attribute
with_kind id ep m rows = put_kind id ep 0 5 (get_or m 9 0) rows

-- The tables with the attribute's type, and the device to be bound.
abbrev pub model_come : ℕ → ℕ → ℕ → List ℕ → Device → Work → Work
model_come id ep k m d w =
    put_at k (record d { state = bind_cluster })
      (record w { attributes = with_kind id ep m w.attributes })

module _ {ℓ} {F : Type ℓ} where
  model_read-run :
      (k : ℕ) (m : List ℕ) (h : Host F) (d : Device)
      → pointer (half m 1) h.work.devices ≡ some k
      → get_elem? h.work.devices k ≡ some d
      → (d.state == active) ≡ false
      → half m 4 ≡ 0
      → half m 6 ≡ 5
      → model_read m h
        ≡ qualified k (record h { work = put_at k (record d { state = bind_cluster }) h.work })
  model_read-run k m h d points at off m3 m4 =
      rw (model_read, points) (rw (device_at, at) (rw (has_model, off, m3, m4) refl))

  handle_read_attr_resp-run :
      (id ep k : ℕ) (m : List ℕ) (h : Host F) (d : Device) (a : Attribute)
      → IsModel id ep m
      → find_attribute id ep 0 5 h.work.attributes ≡ some a
      → pointer id h.work.devices ≡ some k
      → get_elem? h.work.devices k ≡ some d
      → (d.state == active) ≡ false
      → handle_read_attr_resp m h ≡ qualified k (record h { work = model_come id ep k m d h.work })
  unfolding handle_read_attr_resp
  handle_read_attr_resp-run id ep k m h d a (m1, m2, m3, m4) found points at off =
      let g =
        model_read-run k m
          (record h { work = record h.work { attributes = with_kind id ep m h.work.attributes } }) d
          (ap (λ i. pointer i h.work.devices) m1 ∙ points) at off m3 m4 in
      rw (handle_read_attr_resp, m1, m2, m3, m4, found) (rw (m1, m2, m3, m4) g)

  -- A
  pub handle_read_attr_resp-active :
      (id ep k : ℕ) (m : List ℕ) (h : Host F) (d : Device) (ps : List Place) (a : Attribute)
      → IsModel id ep m
      → find_attribute id ep 0 5 h.work.attributes ≡ some a
      → pointer id h.work.devices ≡ some k
      → get_elem? h.work.devices k ≡ some d
      → d.node_id ≡ id
      → (d.state == active) ≡ false
      → places d.endpoint_count d.endpoints ≡ done ps
      → All (Bindable d.node_id h.work) ps
      → (u : Work) × (e : Device) × (handle_read_attr_resp m h ≡ done (record h { work = u }))
        × (u.log ≡ h.work.log ++ requests_for h.work.own_mac d.ieee ps)
        × (u.attributes ≡ fill_places id ps (with_kind id ep m h.work.attributes))
        × (get_elem? u.devices k ≡ some e)
        × (e.state ≡ active)
        × (u.ep_index ≡ 0)
  unfolding handle_read_attr_resp
  handle_read_attr_resp-active id ep k m h d ps a msg found points at named off at_places can =
      let w = record h.work { attributes = with_kind id ep m h.work.attributes } in
      let d' = record d { state = bind_cluster } in
      let at' : get_elem? (set w.devices k d') k ≡ some d' =
        get_elem?-set_self w.devices k d' (get_elem?-bound w.devices k d at) in
      let (u, e, runs, log_is, rows_are, at'', is_active, index_is) =
        binding-active k (put_at k d' w) d' ps at' refl at_places
          (Bindable-state d.node_id k bind_cluster w d ps at can) in
      (
        u,
        e,
        handle_read_attr_resp-run id ep k m h d a msg found points at off
            ∙ ap (λ r. r >>= with_work h) runs,
        log_is,
        rows_are ∙ ap (λ i. fill_places i ps (with_kind id ep m h.work.attributes)) named,
        at'',
        is_active,
        index_is,
      )
