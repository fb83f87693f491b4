-- ===== src/Zcb/Init.antt =====
-- The callbacks that `eZCB_Init` of zigbee_bridge/rt/rw61x/ZCB/zcb.c registers with the serial link.
pub mod Registered
use dm_matter_zigbee_bridge.Prelude.{ℕ, Bool, List, [], ◌∷◌}
use dm_matter_zigbee_bridge.Link.Dispatch.{Listener, add_listener}

-- The functions `ZCB_Handle...` that are registered.
pub data Handler : Type 0 where
  handle_version_response : Handler
  handle_node_cluster_list : Handler
  handle_node_cluster_attribute_list : Handler
  handle_node_command_id_list : Handler
  handle_network_joined : Handler
  handle_device_announce : Handler
  handle_device_leave : Handler
  handle_match_descriptor_response : Handler
  handle_attribute_report : Handler
  handle_simple_descriptor_response : Handler
  handle_default_response : Handler
  handle_read_attr_resp : Handler
  handle_active_end_point_resp : Handler
  handle_log : Handler
  handle_ias_zone_status_change_notify : Handler
  handle_network_address_response : Handler
  handle_ieee_address_response : Handler
  handle_ota_upgrade_end_request : Handler
  handle_get_permit_response : Handler
  handle_restart_provisioned : Handler
  handle_restart_factory_new : Handler

-- The message types and their handlers, in the order of the calls.
abbrev pub registrations : List (ℕ × Handler)
registrations =
    (0x8010, handle_version_response)
    ∷ (0x8003, handle_node_cluster_list)
    ∷ (0x8004, handle_node_cluster_attribute_list)
    ∷ (0x8005, handle_node_command_id_list)
    ∷ (0x8024, handle_network_joined)
    ∷ (0x004D, handle_device_announce)
    ∷ (0x8048, handle_device_leave)
    ∷ (0x8046, handle_match_descriptor_response)
    ∷ (0x8102, handle_attribute_report)
    ∷ (0x8043, handle_simple_descriptor_response)
    ∷ (0x8101, handle_default_response)
    ∷ (0x8100, handle_read_attr_resp)
    ∷ (0x8045, handle_active_end_point_resp)
    ∷ (0x8001, handle_log)
    ∷ (0x8401, handle_ias_zone_status_change_notify)
    ∷ (0x8040, handle_network_address_response)
    ∷ (0x8041, handle_ieee_address_response)
    ∷ (0x8503, handle_ota_upgrade_end_request)
    ∷ (0x8014, handle_get_permit_response)
    ∷ (0x8006, handle_restart_provisioned)
    ∷ (0x8007, handle_restart_factory_new)
    ∷ []

-- The calls of `eSL_AddListener`; `memory` is whether each of them finds memory.
unfoldable pub register :
    Bool → List (ℕ × Handler) → List (Listener Handler) → List (Listener Handler)
register memory [] list = list
register memory ((type, handler) ∷ rest) list =
    register memory rest (add_listener memory type handler 0 list).1

abbrev pub zcb_init : Bool → List (Listener Handler)
zcb_init memory = register memory registrations []
