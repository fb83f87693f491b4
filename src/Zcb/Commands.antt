-- ===== src/Zcb/Commands.antt =====
-- The ZCL commands of zcb.c: on/off, level control, colour control and IAS zone enrolment.
pub mod Zone
use dm_matter_zigbee_bridge.Prelude.{ℕ, List, [], ◌∷◌, ltb, if◌then◌else◌}
use dm_matter_zigbee_bridge.Zcb.Fields.{Field, u8, u16, raw16}
use dm_matter_zigbee_bridge.Zcb.{ZcbStatus, error, Call, refuses, sends}

-- The arguments for the address mode and the endpoints are those of the C functions, in order.
-- `eOnOff`, which sends mode 2 (toggle) whatever mode it is given.
unfoldable pub on_off_toggle : ℕ → ℕ → ℕ → ℕ → ℕ → Call
on_off_toggle addr_mode addr src_ep dst_ep mode =
    if ltb 2 mode
    then refuses error
    else sends 0x0092 (u8 addr_mode ∷ u16 addr ∷ u8 1 ∷ u8 1 ∷ u8 2 ∷ [])

-- `eOn_Off`.
unfoldable pub on_off : ℕ → ℕ → Call
on_off addr mode =
    if ltb 2 mode
    then refuses error
    else sends 0x0092 (u8 2 ∷ u16 addr ∷ u8 1 ∷ u8 1 ∷ u8 mode ∷ [])

unfoldable pub level_control_move : ℕ → ℕ → ℕ → ℕ → ℕ → ℕ → ℕ → Call
level_control_move addr_mode addr src_ep dst_ep on_off mode rate =
    sends 0x0080
      (u8 addr_mode ∷ u16 addr ∷ u8 src_ep ∷ u8 dst_ep ∷ u8 on_off ∷ u8 mode ∷ u8 rate ∷ [])

unfoldable pub level_control_move_to_level : ℕ → ℕ → ℕ → Call
level_control_move_to_level addr level time =
    sends 0x0081 (u8 2 ∷ u16 addr ∷ u8 1 ∷ u8 1 ∷ u8 1 ∷ u8 level ∷ u16 time ∷ [])

unfoldable pub level_control_move_step : ℕ → ℕ → ℕ → ℕ → ℕ → ℕ → ℕ → ℕ → Call
level_control_move_step addr_mode addr src_ep dst_ep on_off mode size time = sends 0x0082 (
    u8 addr_mode ∷ u16 addr ∷ u8 src_ep ∷ u8 dst_ep ∷ u8 on_off ∷ u8 mode ∷ u8 size ∷ u16 time ∷ [])

unfoldable pub color_control_move_to_color : ℕ → ℕ → ℕ → ℕ → Call
color_control_move_to_color addr x y time =
    sends 0x00B7 (u8 2 ∷ u16 addr ∷ u8 1 ∷ u8 1 ∷ u16 x ∷ u16 y ∷ u16 time ∷ [])

unfoldable pub color_control_move_to_temp : ℕ → ℕ → ℕ → Call
color_control_move_to_temp addr temp time =
    sends 0x00C0 (u8 2 ∷ u16 addr ∷ u8 1 ∷ u8 1 ∷ u16 temp ∷ u16 time ∷ [])

unfoldable pub color_control_move_to_hue : ℕ → ℕ → ℕ → ℕ → Call
color_control_move_to_hue addr hue dir time =
    sends 0x00B0 (u8 2 ∷ u16 addr ∷ u8 1 ∷ u8 1 ∷ u8 hue ∷ u8 dir ∷ u16 time ∷ [])

unfoldable pub color_control_move_to_saturation : ℕ → ℕ → ℕ → Call
color_control_move_to_saturation addr sat time =
    sends 0x00B3 (u8 2 ∷ u16 addr ∷ u8 1 ∷ u8 1 ∷ u8 sat ∷ u16 time ∷ [])

-- The zone identifier is a 16-bit field that is not swapped.
unfoldable pub ias_zone_enroll_response : ℕ → ℕ → ℕ → ℕ → ℕ → ℕ → Call
ias_zone_enroll_response addr_mode addr src_ep dst_ep code zone_id =
    sends 0x0400 (u8 addr_mode ∷ u16 addr ∷ u8 src_ep ∷ u8 dst_ep ∷ u8 code ∷ raw16 zone_id ∷ [])
