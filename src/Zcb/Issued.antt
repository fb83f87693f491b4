-- ===== src/Zcb/Issued.antt =====
-- Every message that a call of zcb.c or cmd.c sends by one of the link's two senders, and how long
-- it is.
use dm_matter_zigbee_bridge.Prelude.{
  ltb→le, ℕ, zero, suc, ◌*◌, ◌≤◌, ◌<◌, Bool, true, false, Option, none, some, List, [], ◌∷◌, map,
  ◌≡◌, refl, inl, inr, arith, Bool-cases, length, take, drop, ltb, ◌==◌, if◌then◌else◌,
}
use dm_matter_zigbee_bridge.Zcb.Fields.{u16, sizes}
use dm_matter_zigbee_bridge.Prelude.Words.{ntohl}
use dm_matter_zigbee_bridge.Zcb.{invalid_value, Call, refuses, faults, sends, sends_no_wait}
use dm_matter_zigbee_bridge.Zcb.Commands
use dm_matter_zigbee_bridge.Zcb.Requests
use dm_matter_zigbee_bridge.Zcb.Ota

-- The calls of the two files that are one message and return its status, one constructor each. `enum_bytes` is the compiler's layout of
-- `teOTA_ImageNotifyPayloadType`.
pub data Issued (enum_bytes : ℕ → List ℕ) : Call → Type 0 where
  on_off_toggle : (a b c d e : ℕ) → Issued enum_bytes (Commands.on_off_toggle a b c d e)
  on_off : (a b : ℕ) → Issued enum_bytes (Commands.on_off a b)
  level_control_move :
      (a b c d e f g : ℕ) → Issued enum_bytes (Commands.level_control_move a b c d e f g)
  level_control_move_to_level :
      (a b c : ℕ) → Issued enum_bytes (Commands.level_control_move_to_level a b c)
  level_control_move_step :
      (a b c d e f g h : ℕ) → Issued enum_bytes (Commands.level_control_move_step a b c d e f g h)
  color_control_move_to_color :
      (a b c d : ℕ) → Issued enum_bytes (Commands.color_control_move_to_color a b c d)
  color_control_move_to_temp :
      (a b c : ℕ) → Issued enum_bytes (Commands.color_control_move_to_temp a b c)
  color_control_move_to_hue :
      (a b c d : ℕ) → Issued enum_bytes (Commands.color_control_move_to_hue a b c d)
  color_control_move_to_saturation :
      (a b c : ℕ) → Issued enum_bytes (Commands.color_control_move_to_saturation a b c)
  ias_zone_enroll_response :
      (a b c d e f : ℕ) → Issued enum_bytes (Commands.ias_zone_enroll_response a b c d e f)
  set_channel_mask : (a : ℕ) → Issued enum_bytes (Requests.set_channel_mask a)
  set_device_type : (a : ℕ) → Issued enum_bytes (Requests.set_device_type a)
  start_network : Issued enum_bytes Requests.start_network
  reset_device : Issued enum_bytes Requests.reset_device
  mgmt_leave_request : (a b c d : ℕ) → Issued enum_bytes (Requests.mgmt_leave_request a b c d)
  set_ex_panid : (a : ℕ) → Issued enum_bytes (Requests.set_ex_panid a)
  active_endpoint_request : (a : ℕ) → Issued enum_bytes (Requests.active_endpoint_request a)
  node_descriptor_request : (a : ℕ) → Issued enum_bytes (Requests.node_descriptor_request a)
  simple_descriptor_request : (a b : ℕ) → Issued enum_bytes (Requests.simple_descriptor_request a b)
  match_descriptor_request :
      (a b c d e f : ℕ) → Issued enum_bytes (Requests.match_descriptor_request a b c d e f)
  nwk_address_request : (a b c d : ℕ) → Issued enum_bytes (Requests.nwk_address_request a b c d)
  ieee_address_request : (a b c d : ℕ) → Issued enum_bytes (Requests.ieee_address_request a b c d)
  read_attribute_request :
      (a b c d e f n : ℕ) (attributes : List ℕ)
      → Issued enum_bytes (Requests.read_attribute_request a b c d e f n attributes)
  configure_reporting :
      (a b c d e f g h i j k : ℕ)
      → Issued enum_bytes (Requests.configure_reporting a b c d e f g h i j k)
  ota_load_new_image : (image : Option (List ℕ)) → Issued enum_bytes (Ota.ota_load_new_image image)
  ota_image_block_send :
      (a b c d e f g h i j n : ℕ) (image : List ℕ)
      → Issued enum_bytes (Ota.ota_image_block_send a b c d e f g h i j n image)
  ota_upgrade_end_response :
      (a b c d e f g h i j : ℕ)
      → Issued enum_bytes (Ota.ota_upgrade_end_response a b c d e f g h i j)
  ota_image_notify :
      (a b c d e f g h i : ℕ)
      → Issued enum_bytes (Ota.ota_image_notify enum_bytes a b c d e f g h i)
  ota_send_wait_for_data_params :
      (a b c d e f g h i : ℕ)
      → Issued enum_bytes (Ota.ota_send_wait_for_data_params a b c d e f g h i)

-- What a call sends has a 16-bit type and at most 84 bytes.
unfoldable pub IsShort : Call → Type 0
IsShort (refuses status) = Unit
IsShort faults = Unit
IsShort (sends type fields) = (type < 65536) × (sizes fields ≤ 84)
IsShort (sends_no_wait type fields) = (type < 65536) × (sizes fields ≤ 84)

IsShort-if : (b : Bool) (x y : Call) → IsShort x → IsShort y → IsShort (if b then x else y)
IsShort-if true x y p q = p
IsShort-if false x y p q = q

sizes-map-u16 : (xs : List ℕ) → sizes (map u16 xs) ≡ 2 * length xs
sizes-map-u16 [] = refl
sizes-map-u16 (x ∷ xs) = omega (arith, sizes-map-u16 xs)

length-take_at_most : (n : ℕ) (xs : List ℕ) → length (take n xs) ≤ n
length-take_at_most zero xs = omega arith
length-take_at_most (suc n) [] = omega arith
length-take_at_most (suc n) (x ∷ xs) = omega (arith, length-take_at_most n xs)

clamped-le : (n : ℕ) → Requests.clamped n ≤ 10
clamped-le n = ground arith

read_attribute_request-IsShort :
    (a b c d e f n : ℕ) (attributes : List ℕ)
    → IsShort (Requests.read_attribute_request a b c d e f n attributes)
unfolding IsShort Requests.read_attribute_request
read_attribute_request-IsShort a b c d e f n attributes =
    let sent = take (Requests.clamped n) attributes in
    let count = length-take_at_most (Requests.clamped n) attributes in
    let few = clamped-le n in
    let words = sizes-map-u16 sent in
    IsShort-if (ltb (length attributes) (Requests.clamped n)) faults _ tt (omega arith, omega arith)

on_off_toggle-IsShort : (a b c d e : ℕ) → IsShort (Commands.on_off_toggle a b c d e)
unfolding IsShort Commands.on_off_toggle
on_off_toggle-IsShort a b c d e = IsShort-if (ltb 2 e) _ _ tt (omega arith, omega arith)

on_off-IsShort : (a b : ℕ) → IsShort (Commands.on_off a b)
unfolding IsShort Commands.on_off
on_off-IsShort a b = IsShort-if (ltb 2 b) _ _ tt (omega arith, omega arith)

ota_load_new_image-IsShort : (image : Option (List ℕ)) → IsShort (Ota.ota_load_new_image image)
unfolding IsShort Ota.ota_load_new_image
ota_load_new_image-IsShort none = tt
ota_load_new_image-IsShort (some image) =
    let text = length-take_at_most 32 (drop 20 image) in
    let security = length-take_at_most 1 (drop 56 image) in
    IsShort-if (ltb (length image) 4) faults _ tt (
      IsShort-if (ntohl (Ota.load 4 0 image) == Ota.file_identify) _ (refuses invalid_value)
        (IsShort-if (ltb (length image) Ota.header_size) faults _ tt (omega arith, omega arith)) tt)

ota_image_block_send-IsShort :
    (a b c d e f g h i j n : ℕ) (image : List ℕ)
    → IsShort (Ota.ota_image_block_send a b c d e f g h i j n image)
unfolding IsShort Ota.ota_image_block_send
ota_image_block_send-IsShort a b c d e f g h i j n image =
    let count = length-take_at_most n image in
    elim (Bool-cases (ltb Ota.max_block n)) [
      | inl y ↦ rw y tt
      | inr y ↦ rw y (
          let few = ltb→le Ota.max_block n y in
          IsShort-if (ltb (length image) n) faults _ tt (omega arith, omega arith))
    ]

-- A call that is one message.
pub Issued-IsShort :
    (enum_bytes : ℕ → List ℕ) (c : Call)
    → ((v : ℕ) → length (enum_bytes v) ≤ 4)
    → Issued enum_bytes c
    → IsShort c
unfolding IsShort Commands.level_control_move Commands.level_control_move_to_level
    Commands.level_control_move_step Commands.color_control_move_to_color
    Commands.color_control_move_to_temp Commands.color_control_move_to_hue
    Commands.color_control_move_to_saturation Commands.ias_zone_enroll_response
    Requests.set_channel_mask Requests.set_device_type Requests.start_network Requests.reset_device
    Requests.mgmt_leave_request Requests.set_ex_panid Requests.active_endpoint_request
    Requests.node_descriptor_request Requests.simple_descriptor_request
    Requests.match_descriptor_request Requests.nwk_address_request Requests.ieee_address_request
    Requests.configure_reporting Ota.ota_upgrade_end_response Ota.ota_image_notify
    Ota.ota_send_wait_for_data_params
Issued-IsShort enum_bytes _ small (on_off_toggle a b c d e) = on_off_toggle-IsShort a b c d e
Issued-IsShort enum_bytes _ small (on_off a b) = on_off-IsShort a b
Issued-IsShort enum_bytes _ small (level_control_move a b c d e f g) = (omega arith, omega arith)
Issued-IsShort enum_bytes _ small (level_control_move_to_level a b c) = (omega arith, omega arith)
Issued-IsShort enum_bytes _ small (level_control_move_step a b c d e f g h) =
    (omega arith, omega arith)
Issued-IsShort enum_bytes _ small (color_control_move_to_color a b c d) = (omega arith, omega arith)
Issued-IsShort enum_bytes _ small (color_control_move_to_temp a b c) = (omega arith, omega arith)
Issued-IsShort enum_bytes _ small (color_control_move_to_hue a b c d) = (omega arith, omega arith)
Issued-IsShort enum_bytes _ small (color_control_move_to_saturation a b c) =
    (omega arith, omega arith)
Issued-IsShort enum_bytes _ small (ias_zone_enroll_response a b c d e f) =
    (omega arith, omega arith)
Issued-IsShort enum_bytes _ small (set_channel_mask a) = (omega arith, omega arith)
Issued-IsShort enum_bytes _ small (set_device_type a) = (omega arith, omega arith)
Issued-IsShort enum_bytes _ small start_network = (omega arith, omega arith)
Issued-IsShort enum_bytes _ small reset_device = (omega arith, omega arith)
Issued-IsShort enum_bytes _ small (mgmt_leave_request a b c d) = (omega arith, omega arith)
Issued-IsShort enum_bytes _ small (set_ex_panid a) = (omega arith, omega arith)
Issued-IsShort enum_bytes _ small (active_endpoint_request a) = (omega arith, omega arith)
Issued-IsShort enum_bytes _ small (node_descriptor_request a) = (omega arith, omega arith)
Issued-IsShort enum_bytes _ small (simple_descriptor_request a b) = (omega arith, omega arith)
Issued-IsShort enum_bytes _ small (match_descriptor_request a b c d e f) =
    (omega arith, omega arith)
Issued-IsShort enum_bytes _ small (nwk_address_request a b c d) = (omega arith, omega arith)
Issued-IsShort enum_bytes _ small (ieee_address_request a b c d) = (omega arith, omega arith)
Issued-IsShort enum_bytes _ small (read_attribute_request a b c d e f g h) =
    read_attribute_request-IsShort a b c d e f g h
Issued-IsShort enum_bytes _ small (configure_reporting a b c d e f g h i j k) =
    (omega arith, omega arith)
Issued-IsShort enum_bytes _ small (ota_load_new_image a) = ota_load_new_image-IsShort a
Issued-IsShort enum_bytes _ small (ota_image_block_send a b c d e f g h i j k l) =
    ota_image_block_send-IsShort a b c d e f g h i j k l
Issued-IsShort enum_bytes _ small (ota_upgrade_end_response a b c d e f g h i j) =
    (omega arith, omega arith)
Issued-IsShort enum_bytes _ small (ota_image_notify a b c d e f g h i) =
    let few = small e in (omega arith, omega arith)
Issued-IsShort enum_bytes _ small (ota_send_wait_for_data_params a b c d e f g h i) =
    (omega arith, omega arith)

-- All messages of the two files: of those calls, and of eGetPermitJoining, eSetPermitJoining,
-- eErasePersistentData, eSendBindUnbindCommand and eZCB_GetCoordinatorVersion.
pub data Emitted (enum_bytes : ℕ → List ℕ) : Call → Type 0 where
  issued : (c : Call) → Issued enum_bytes c → Emitted enum_bytes c
  permit_query : Emitted enum_bytes Requests.permit_query
  permit_message : (a : ℕ) → Emitted enum_bytes (Requests.permit_message a)
  erase_message : Emitted enum_bytes Requests.erase_message
  bind_message : (a b c d : ℕ) → Emitted enum_bytes (Requests.bind_message a b c d)
  unbind_message : (a b c d : ℕ) → Emitted enum_bytes (Requests.unbind_message a b c d)
  version_query : Emitted enum_bytes Requests.version_query

-- Each message that a function of zcb.c or cmd.c gives to the serial link, those of
-- eGetPermitJoining, eSetPermitJoining, eErasePersistentData, eSendBindUnbindCommand and
-- eZCB_GetCoordinatorVersion included, has a 16-bit type and at most 84 bytes, when the compiler
-- lays out an enumeration in at most four.
pub Emitted-IsShort :
    (enum_bytes : ℕ → List ℕ) (c : Call)
    → ((v : ℕ) → length (enum_bytes v) ≤ 4)
    → Emitted enum_bytes c
    → IsShort c
unfolding IsShort
Emitted-IsShort enum_bytes _ small (issued c i) = Issued-IsShort enum_bytes c small i
Emitted-IsShort enum_bytes _ small permit_query = (omega arith, omega arith)
Emitted-IsShort enum_bytes _ small (permit_message a) = (omega arith, omega arith)
Emitted-IsShort enum_bytes _ small erase_message = (omega arith, omega arith)
Emitted-IsShort enum_bytes _ small (bind_message a b c d) = (omega arith, omega arith)
Emitted-IsShort enum_bytes _ small (unbind_message a b c d) = (omega arith, omega arith)
Emitted-IsShort enum_bytes _ small version_query = (omega arith, omega arith)
