-- ===== src/Matter/Monitor.antt =====
-- The task `ZcbMonitor`, which takes up the messages that zcb.c posts in `ZcbMsg`, and the restoration
-- of devices: `RestoreNodeEndpoint` and `RetrieveJoinedNode`.
pub mod Restores
use dm_matter_zigbee_bridge.Prelude.{
  ℕ, suc, ◌+◌, ◌%◌, Bool, true, false, ◌||◌, Option, none, some, List, [], ◌∷◌, ◌++◌, length, set,
  get_elem?, ltb, ◌==◌, if◌then◌else◌, Run, done, fault, ◌>>=◌,
}
use dm_matter_zigbee_bridge.Nodes.{Node, FlashOps}
use dm_matter_zigbee_bridge.Reports.Descriptor.{Supported, cleared}
use dm_matter_zigbee_bridge.Matter.{Object, Manager, object_at, put_object}
use dm_matter_zigbee_bridge.Matter.Slots.{
  Answer, new_object, add_new_zcb_node, remove_device, remove_all_device,
}

-- `msg_type`, and the fields of `zcb` that are looked at: the clusters, `matterIndex`, `type` and
-- `DynamicEP`.
pub record Post : Type 0 where
  pub kind : ℕ
  pub supported : Supported
  pub matter_index : ℕ
  pub node_type : ℕ
  pub dynamic_ep : ℕ

-- The manager, the global `gIndex`, and the message.
pub record Monitor {ℓ} (F : Type ℓ) : Type ℓ where
  pub manager : Manager F
  pub g_index : ℕ
  pub post : Post

-- The values of `msgType`.
abbrev pub bridge_add_dev : ℕ
bridge_add_dev = 1

abbrev pub bridge_remove_dev : ℕ
bridge_remove_dev = 2

abbrev pub bridge_factory_reset : ℕ
bridge_factory_reset = 3

abbrev pub bridge_write_attribute : ℕ
bridge_write_attribute = 4

abbrev pub bridge_restore_joined_node : ℕ
bridge_restore_joined_node = 5

-- `zcb = {0}` and BRIDGE_UNKNOW.
abbrev pub no_post : Post
no_post = record { kind = 0; supported = cleared; matter_index = 0; node_type = 0; dynamic_ep = 0 }

-- The three kinds of nodes that are restored.
abbrev pub is_restored : ℕ → Bool
is_restored type = type == 1 || type == 2 || type == 3

module _ {ℓ} {F : Type ℓ} where
  abbrev pub in_g_slot : ℕ → Monitor F → Run (Monitor F)
  in_g_slot dev t =
      let slots = set t.manager.slots t.g_index (some dev) in
      if ltb t.g_index (length t.manager.slots)
      then done (record t { manager = record t.manager { slots = slots } })
      else fault

  -- `RestoreNodeEndpoint`; the answer of the SDK is not looked at.
  abbrev pub with_restored : ℕ → ℕ → Object → Monitor F → Run (Monitor F)
  with_restored dev ep o t = done (record t {
    manager = put_object dev (record o { endpoint = ep; reachable = true }) t.manager;
  })

  unfoldable pub restore_node_endpoint : ℕ → ℕ → Monitor F → Run (Monitor F)
  restore_node_endpoint dev ep t = object_at dev t.manager >>= λ o.
      let added = in_g_slot dev t >>= with_restored dev ep o in
      if o.reachable then done t else added

  abbrev pub g_counted : Monitor F → Run (Monitor F)
  g_counted t = done (record t { g_index = (t.g_index + 1) % 256 })

  -- `RetrieveJoinedNode` makes the object; its three cases differ by the class of the device.
  unfoldable pub retrieve_joined_node : Supported → ℕ → ℕ → Monitor F → Run (Monitor F)
  retrieve_joined_node s type ep t =
      let m = record t.manager { heap = t.manager.heap ++ (some (new_object s) ∷ []) } in
      let restored =
        restore_node_endpoint (length t.manager.heap) ep (record t { manager = m }) >>= g_counted in
      if is_restored type then restored else done t

  -- `RemoveDevice(gDevices[ZcbMsg.zcb.matterIndex])`, which reads through a null pointer if the slot
  -- is free.
  abbrev pub remove_at : ℕ → Manager F → Run (Manager F)
  remove_at i m = elim (get_elem? m.slots i) [
    | none ↦ fault
    | some none ↦ fault
    | some (some dev) ↦ remove_device dev m
  ]

  -- `WriteAttributeToDynamicEndpoint` as far as it looks at the slot: the object that is written to.
  unfoldable pub written_to : ℕ → Manager F → Run (Option ℕ)
  written_to i m = elim (get_elem? m.slots i) [ none ↦ fault | some slot ↦ done slot ]

  -- A round is over: the message is taken.
  abbrev pub taken : Monitor F → Run (Monitor F)
  taken t = done (record t { post = no_post })

  abbrev pub with_manager : Monitor F → Manager F → Run (Monitor F)
  with_manager t m = taken (record t { manager = m })

  -- One round of the loop of `ZcbMonitor`, whose `ThisMgr` is taken to be the manager; `start_threads`
  -- passes a null pointer for it.
  unfoldable pub zcb_monitor : FlashOps F → (ℕ → ℕ → Answer) → ℕ → Monitor F → Run (Monitor F)
  zcb_monitor ops answer fuel t =
      let p = t.post in
      if p.kind == bridge_add_dev
      then add_new_zcb_node ops answer fuel p.supported t.manager >>= with_manager t
      else if p.kind == bridge_remove_dev
      then remove_at p.matter_index t.manager >>= with_manager t
      else if p.kind == bridge_factory_reset
      then remove_all_device t.manager >>= with_manager t
      else if p.kind == bridge_write_attribute
      then written_to p.matter_index t.manager >>= (λ w. taken t)
      else if p.kind == bridge_restore_joined_node
      then retrieve_joined_node p.supported p.node_type p.dynamic_ep t >>= taken
      else done t

  -- `RestoreJoinedNodes` posts a message for each stored node with a type, with the other
  -- fields of `sZcb` as they stand, and the monitor takes it before the next comes:
  -- the one waits 500 ticks where the other waits 100.
  abbrev pub posted : Supported → Node → Monitor F → Monitor F
  posted s n t = record t {
    post = record no_post {
      kind = bridge_restore_joined_node;
      supported = s;
      node_type = n.type;
      dynamic_ep = n.ep;
    };
  }

  unfoldable pub restore_posted :
      FlashOps F → (ℕ → ℕ → Answer) → ℕ → Supported → List Node → Monitor F → Run (Monitor F)
  restore_posted ops answer fuel s [] t = done t
  restore_posted ops answer fuel s (n ∷ ns) t =
      let rest = restore_posted ops answer fuel s ns t in
      let next =
        zcb_monitor ops answer fuel (posted s n t) >>= restore_posted ops answer fuel s ns in
      if n.type == 0 then rest else next
