-- ===== src/Console/Tests.antt =====
-- The command line at concrete inputs.
use dm_matter_zigbee_bridge.Prelude.{ℕ, true, false, some, [], ◌∷◌, List, ◌≡◌, refl, done}
use dm_matter_zigbee_bridge.Zcb.Requests.{mgmt_leave_request, ieee_address_request}
use dm_matter_zigbee_bridge.Zcb.Commands.{level_control_move}
use dm_matter_zigbee_bridge.Console.{
  endpoint_loop, is_a_endpoint, addr_valid, hex_loop, simple_strtoul, skip_spaces, decimal_loop,
  atoi,
}
use dm_matter_zigbee_bridge.Console.Commands.{extended_text, help_text, zb_zdo_leave, zb_zdo_ieereq}
use dm_matter_zigbee_bridge.Console.Level.{short_text, move_text, zb_zcl_level}
use dm_matter_zigbee_bridge.Console.Checked.{on_text, zb_zcl_onoff}

-- "1aF", "0x00158D00", "0", "1", "255" and "18446744073709551617", which is 2 ^ 64 + 1.
abbrev short_address : List ℕ
short_address = 49 ∷ 97 ∷ 70 ∷ []

abbrev long_address : List ℕ
long_address = 48 ∷ 120 ∷ 48 ∷ 48 ∷ 49 ∷ 53 ∷ 56 ∷ 68 ∷ 48 ∷ 48 ∷ []

abbrev nought : List ℕ
nought = 48 ∷ []

abbrev one : List ℕ
one = 49 ∷ []

abbrev three_digits : List ℕ
three_digits = 50 ∷ 53 ∷ 53 ∷ []

abbrev long_one : List ℕ
long_one =
    49 ∷ 56 ∷ 52 ∷ 52 ∷ 54 ∷ 55 ∷ 52 ∷ 52 ∷ 48 ∷ 55 ∷ 51 ∷ 55 ∷ 48 ∷ 57 ∷ 53 ∷ 53 ∷ 49 ∷ 54 ∷ 49
    ∷ 55 ∷ []

leave_line :
    zb_zdo_leave ([] ∷ short_address ∷ long_address ∷ one ∷ nought ∷ [])
    ≡ done (some (mgmt_leave_request 0x1AF 0x158D00 1 0 ∷ []))
unfolding zb_zdo_leave addr_valid simple_strtoul hex_loop atoi skip_spaces decimal_loop
leave_line = refl

leave_line_help : zb_zdo_leave ([] ∷ help_text ∷ []) ≡ done (some [])
unfolding zb_zdo_leave
leave_line_help = refl

ieeereq_line :
    zb_zdo_ieereq ([] ∷ short_address ∷ one ∷ extended_text ∷ three_digits ∷ [])
    ≡ done (some (ieee_address_request 0x1AF 1 1 255 ∷ []))
unfolding zb_zdo_ieereq addr_valid simple_strtoul hex_loop atoi skip_spaces decimal_loop
ieeereq_line = refl

-- The rate "18446" is not refused, and its low eight bits are sent.
great_rate :
    zb_zcl_level (
      []
      ∷ move_text
      ∷ short_text
      ∷ one
      ∷ one
      ∷ one
      ∷ one
      ∷ nought
      ∷ (49 ∷ 56 ∷ 52 ∷ 52 ∷ 54 ∷ [])
      ∷ [])
    ≡ done (some (level_control_move 2 1 1 1 1 0 14 ∷ []))
unfolding zb_zcl_level addr_valid is_a_endpoint endpoint_loop simple_strtoul hex_loop atoi
    skip_spaces decimal_loop
great_rate = refl

endpoint_wraps : is_a_endpoint long_one ≡ true
unfolding is_a_endpoint endpoint_loop
endpoint_wraps = refl

endpoint_refused : is_a_endpoint three_digits ≡ false
unfolding is_a_endpoint endpoint_loop
endpoint_refused = refl

on_line : zb_zcl_onoff ([] ∷ short_text ∷ short_address ∷ one ∷ one ∷ on_text ∷ []) ≡ done (some [])
unfolding zb_zcl_onoff addr_valid is_a_endpoint endpoint_loop
on_line = refl
