-- ===== src/Zcb/Requests.antt =====
-- The network, descriptor, attribute and binding requests of cmd.c. A request that is followed by a
-- wait for a second message is a `Call` for its first part; the wait is its caller's argument.
pub mod Steps
use dm_matter_zigbee_bridge.Prelude.{
  ℕ, suc, Bool, true, false, List, [], ◌∷◌, ◌++◌, map, length, take, ltb, ◌==◌, if◌then◌else◌, Run,
  done, fault, ◌>>=◌,
}
use dm_matter_zigbee_bridge.Zcb.Fields.{Field, u8, u16, u32, u64, bytes, encode}
use dm_matter_zigbee_bridge.Zcb.{
  ZcbStatus, ok, comms_failed, Call, refuses, faults, sends, sends_no_wait,
}

abbrev pub max_nb_read_attributes : ℕ
max_nb_read_attributes = 10

abbrev pub permit_joining_fields : ℕ → List Field
permit_joining_fields interval = u16 0xFFFC ∷ u8 interval ∷ u8 0 ∷ []

unfoldable pub set_channel_mask : ℕ → Call
set_channel_mask mask = sends 0x0021 (u32 mask ∷ [])

unfoldable pub set_device_type : ℕ → Call
set_device_type mode = sends 0x0023 (u8 mode ∷ [])

unfoldable pub start_network : Call
start_network = sends 0x0024 []

unfoldable pub reset_device : Call
reset_device = sends 0x0011 []

unfoldable pub mgmt_leave_request : ℕ → ℕ → ℕ → ℕ → Call
mgmt_leave_request addr mac rejoin rm_children =
    sends 0x0047 (u16 addr ∷ u64 mac ∷ u8 rejoin ∷ u8 rm_children ∷ [])

unfoldable pub set_ex_panid : ℕ → Call
set_ex_panid epid = sends 0x0020 (u64 epid ∷ [])

unfoldable pub active_endpoint_request : ℕ → Call
active_endpoint_request addr = sends 0x0045 (u16 addr ∷ [])

unfoldable pub node_descriptor_request : ℕ → Call
node_descriptor_request addr = sends 0x0042 (u16 addr ∷ [])

unfoldable pub simple_descriptor_request : ℕ → ℕ → Call
simple_descriptor_request addr dst_ep = sends 0x0043 (u16 addr ∷ u8 dst_ep ∷ [])

unfoldable pub match_descriptor_request : ℕ → ℕ → ℕ → ℕ → ℕ → ℕ → Call
match_descriptor_request addr profile no_in in_cluster no_out out_cluster =
    sends 0x0046
      (u16 addr ∷ u16 profile ∷ u8 no_in ∷ u16 in_cluster ∷ u8 no_out ∷ u16 out_cluster ∷ [])

unfoldable pub nwk_address_request : ℕ → ℕ → ℕ → ℕ → Call
nwk_address_request addr mac kind index =
    sends 0x0040 (u16 addr ∷ u64 mac ∷ u8 kind ∷ u8 index ∷ [])

unfoldable pub ieee_address_request : ℕ → ℕ → ℕ → ℕ → Call
ieee_address_request addr interest kind index =
    sends 0x0041 (u16 addr ∷ u16 interest ∷ u8 kind ∷ u8 index ∷ [])

-- The number of attributes that `eReadAttributeRequest` sends.
abbrev pub clamped : ℕ → ℕ
clamped n = if ltb max_nb_read_attributes n then max_nb_read_attributes else n

abbrev pub read_attribute_fields : ℕ → ℕ → ℕ → ℕ → ℕ → ℕ → List ℕ → List Field
read_attribute_fields addr_mode addr src_ep dst_ep cluster manu_code attributes =
    (u8 addr_mode
      ∷ u16 addr
      ∷ u8 src_ep
      ∷ u8 dst_ep
      ∷ u16 cluster
      ∷ u8 0
      ∷ u8 0
      ∷ u16 manu_code
      ∷ u8 (length attributes)
      ∷ [])
    ++ map u16 attributes

-- `eReadAttributeRequest`, which reads as many attributes from its array as it sends.
unfoldable pub read_attribute_request : ℕ → ℕ → ℕ → ℕ → ℕ → ℕ → ℕ → List ℕ → Call
read_attribute_request addr_mode addr src_ep dst_ep cluster manu_code count attributes =
    if ltb (length attributes) (clamped count)
    then faults
    else sends 0x0100 (
        read_attribute_fields addr_mode addr src_ep dst_ep cluster manu_code
          (take (clamped count) attributes))

abbrev pub bind_fields : ℕ → ℕ → ℕ → ℕ → List Field
bind_fields own_mac target_mac target_ep cluster =
    u64 target_mac ∷ u8 target_ep ∷ u16 cluster ∷ u8 3 ∷ u64 own_mac ∷ u8 1 ∷ []

unfoldable pub configure_reporting : ℕ → ℕ → ℕ → ℕ → ℕ → ℕ → ℕ → ℕ → ℕ → ℕ → ℕ → Call
configure_reporting addr_mode addr src_ep dst_ep cluster manu_code kind attribute min max change =
    sends 0x0120 (
      u8 7
      ∷ u16 addr
      ∷ u8 src_ep
      ∷ u8 dst_ep
      ∷ u16 cluster
      ∷ u8 0
      ∷ u8 0
      ∷ u16 manu_code
      ∷ u8 1
      ∷ u8 0
      ∷ u8 kind
      ∷ u16 attribute
      ∷ u16 min
      ∷ u16 max
      ∷ u16 0
      ∷ u8 change
      ∷ [])

-- The messages of the requests that do more than send one message and return its status.
abbrev pub permit_query : Call
permit_query = sends 0x0014 []

abbrev pub permit_message : ℕ → Call
permit_message interval = sends 0x0049 (permit_joining_fields interval)

abbrev pub erase_message : Call
erase_message = sends_no_wait 0x0012 []

abbrev pub bind_message : ℕ → ℕ → ℕ → ℕ → Call
bind_message own_mac target_mac target_ep cluster =
    sends 0x0030 (bind_fields own_mac target_mac target_ep cluster)

abbrev pub unbind_message : ℕ → ℕ → ℕ → ℕ → Call
unbind_message own_mac target_mac target_ep cluster =
    sends 0x0031 (bind_fields own_mac target_mac target_ep cluster)

abbrev pub version_query : Call
version_query = sends 0x0010 []

-- The operations of the serial link that the requests with more than one step use: the type and
-- the message for the two senders, the type for `eSL_MessageWait`; each gives a teSL_Status.
pub record LinkOps : Type 0 where
  pub send : ℕ → List ℕ → Run ℕ
  pub send_no_wait : ℕ → List ℕ → Run ℕ
  pub wait : ℕ → Run ℕ

-- The status of the link for a message.
abbrev pub transmit : LinkOps → Call → Run ℕ
transmit link (sends type fields) = link.send type (encode fields)
transmit link (sends_no_wait type fields) = link.send_no_wait type (encode fields)
transmit link (refuses status) = fault
transmit link faults = fault

-- A first step, and a second one only if the first gave E_SL_OK.
abbrev pub and_then : Run ZcbStatus → ℕ → Run ZcbStatus
and_then next code = if code == 0 then next else done comms_failed

abbrev pub waited : ℕ → ZcbStatus
waited code = if code == 0 then ok else comms_failed

module _ (link : LinkOps) where
  -- `eGetPermitJoining` returns 1 if the message is accepted, and 0 if not.
  unfoldable pub get_permit_joining : Run ℕ
  get_permit_joining = transmit link permit_query >>= λ code. done (if code == 0 then 1 else 0)

  -- `eSetPermitJoining`, which asks for the state afterwards and drops the answer.
  unfoldable pub set_permit_joining : ℕ → Run ZcbStatus
  set_permit_joining interval =
      let asked : Run ZcbStatus = get_permit_joining >>= λ answer. done ok in
      transmit link (permit_message interval) >>= and_then asked

  unfoldable pub erase_persistent_data : Run ZcbStatus
  erase_persistent_data =
      let restarted : Run ZcbStatus = link.wait 0x8007 >>= λ code. done (waited code) in
      transmit link erase_message >>= and_then restarted

  -- `eSendBindUnbindCommand`; `own_mac` is `zbNetworkInfo.u64IeeeAddress`.
  unfoldable pub send_bind_unbind : ℕ → ℕ → ℕ → ℕ → Bool → Run ZcbStatus
  send_bind_unbind own_mac target_mac target_ep cluster bind =
      let bound : Run ZcbStatus = link.wait 0x8030 >>= λ code. done (waited code) in
      let unbound : Run ZcbStatus = link.wait 0x8031 >>= λ code. done (waited code) in
      if bind
      then transmit link (bind_message own_mac target_mac target_ep cluster) >>= and_then bound
      else transmit link (unbind_message own_mac target_mac target_ep cluster) >>= and_then unbound

  -- `eZCB_GetCoordinatorVersion`.
  unfoldable pub get_coordinator_version : Run ZcbStatus
  get_coordinator_version =
      let arrived : Run ZcbStatus = link.wait 0x8010 >>= λ code. done (waited code) in
      transmit link version_query >>= and_then arrived
