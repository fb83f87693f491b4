-- ===== src/Console/Level.antt =====
-- `zb_nwk_form` and `zb_zcl_level` of zigbee_cmd.c. The calls of eLevelControlMoveToLevel are commented
-- out in the source: "movetolevel" checks its arguments and sends nothing.
use dm_matter_zigbee_bridge.Prelude.{
  ℕ, ◌&&◌, Option, none, some, List, [], ◌∷◌, if◌then◌else◌, done, ◌>>=◌,
}
use dm_matter_zigbee_bridge.Zcb.{Call}
use dm_matter_zigbee_bridge.Zcb.Requests.{set_channel_mask, set_ex_panid, start_network}
use dm_matter_zigbee_bridge.Zcb.Commands.{level_control_move, level_control_move_step}
use dm_matter_zigbee_bridge.Console.{
  addr_valid, is_a_endpoint, simple_strtoul, atoi, Number, as_byte, as_half,
}
use dm_matter_zigbee_bridge.Console.Commands.{is_text, Outcome, err, calls, only_help, if_up_to}

-- `(uint32_t) atoi(a) <= 26` holds for no negative number.
abbrev pub form_calls : List ℕ → Number → Outcome
form_calls b channel =
    if addr_valid b 16
    then done (
        some (set_channel_mask channel.size ∷ set_ex_panid (simple_strtoul b) ∷ start_network ∷ []))
    else err

unfoldable pub zb_nwk_form : List (List ℕ) → Outcome
zb_nwk_form (name ∷ a ∷ []) = only_help a err
zb_nwk_form (name ∷ a ∷ b ∷ []) = if_up_to 26 a (form_calls b)
zb_nwk_form [] = err
zb_nwk_form (name ∷ []) = err
zb_nwk_form (name ∷ a ∷ b ∷ c ∷ more) = err

-- "bound", "group" and "short" with E_AM_BOUND, E_AM_GROUP and E_AM_SHORT.
abbrev pub bound_text : List ℕ
bound_text = 98 ∷ 111 ∷ 117 ∷ 110 ∷ 100 ∷ []

abbrev pub group_text : List ℕ
group_text = 103 ∷ 114 ∷ 111 ∷ 117 ∷ 112 ∷ []

abbrev pub short_text : List ℕ
short_text = 115 ∷ 104 ∷ 111 ∷ 114 ∷ 116 ∷ []

abbrev pub addr_mode : List ℕ → Option ℕ
addr_mode m =
    if is_text m bound_text
    then some 0
    else if is_text m group_text
    then some 1
    else if is_text m short_text
    then some 2
    else none

-- "move", "movetolevel" and "step".
abbrev pub move_text : List ℕ
move_text = 109 ∷ 111 ∷ 118 ∷ 101 ∷ []

abbrev pub move_to_level_text : List ℕ
move_to_level_text = 109 ∷ 111 ∷ 118 ∷ 101 ∷ 116 ∷ 111 ∷ 108 ∷ 101 ∷ 118 ∷ 101 ∷ 108 ∷ []

abbrev pub step_text : List ℕ
step_text = 115 ∷ 116 ∷ 101 ∷ 112 ∷ []

-- The first tests of each command, and the numbers of the endpoints when the call is made.
abbrev pub if_reachable : List ℕ → List ℕ → List ℕ → Outcome → Outcome
if_reachable a s d next =
    if addr_valid a 4 && (is_a_endpoint s && is_a_endpoint d) then next else err

abbrev pub between : List ℕ → List ℕ → (ℕ → ℕ → Call) → Outcome
between s d call = atoi s >>= λ src. atoi d >>= λ dst. calls (call (as_byte src) (as_byte dst))

-- The test of the rate, `atoi(x) >= 0 || atoi(x) <= 0xFF`, holds for every number.
abbrev pub level_move : ℕ → List ℕ → List ℕ → List ℕ → List ℕ → List ℕ → List ℕ → Outcome
level_move mode a s d x y z = if_reachable a s d (
    if_up_to 1 x (λ on_off. if_up_to 1 y (λ up. atoi z >>= λ rate. between s d (λ src dst.
      level_control_move mode (simple_strtoul a) src dst (as_byte on_off) (as_byte up)
        (as_byte rate)))))

abbrev pub level_checked : List ℕ → List ℕ → List ℕ → List ℕ → List ℕ → List ℕ → Outcome
level_checked a s d x y z =
    if_reachable a s d
      (if_up_to 1 x (λ on_off. if_up_to 255 y (λ level. if_up_to 65535 z (λ time. done (some [])))))

abbrev pub level_step : ℕ → List ℕ → List ℕ → List ℕ → List ℕ → List ℕ → List ℕ → List ℕ → Outcome
level_step mode a s d x y z t = if_reachable a s d (
    if_up_to 1 x (λ on_off. if_up_to 1 y (λ up. if_up_to 255 z (λ size. if_up_to 65535 t (λ time.
      between s d (λ src dst.
        level_control_move_step mode (simple_strtoul a) src dst (as_byte on_off) (as_byte up)
          (as_byte size) (as_half time)))))))

abbrev pub level_of_six :
    Option ℕ → List ℕ → List ℕ → List ℕ → List ℕ → List ℕ → List ℕ → List ℕ → Outcome
level_of_six none op a s d x y z = err
level_of_six (some mode) op a s d x y z =
    if is_text op move_text
    then level_move mode a s d x y z
    else if is_text op move_to_level_text
    then level_checked a s d x y z
    else err

abbrev pub level_of_seven :
    Option ℕ → List ℕ → List ℕ → List ℕ → List ℕ → List ℕ → List ℕ → List ℕ → List ℕ → Outcome
level_of_seven none op a s d x y z t = err
level_of_seven (some mode) op a s d x y z t =
    if is_text op step_text then level_step mode a s d x y z t else err

unfoldable pub zb_zcl_level : List (List ℕ) → Outcome
zb_zcl_level (name ∷ op ∷ []) = only_help op err
zb_zcl_level (name ∷ op ∷ m ∷ a ∷ s ∷ d ∷ x ∷ y ∷ z ∷ []) =
    level_of_six (addr_mode m) op a s d x y z
zb_zcl_level (name ∷ op ∷ m ∷ a ∷ s ∷ d ∷ x ∷ y ∷ z ∷ t ∷ []) =
    level_of_seven (addr_mode m) op a s d x y z t
zb_zcl_level [] = err
zb_zcl_level (name ∷ []) = err
zb_zcl_level (name ∷ op ∷ m ∷ []) = err
zb_zcl_level (name ∷ op ∷ m ∷ a ∷ []) = err
zb_zcl_level (name ∷ op ∷ m ∷ a ∷ s ∷ []) = err
zb_zcl_level (name ∷ op ∷ m ∷ a ∷ s ∷ d ∷ []) = err
zb_zcl_level (name ∷ op ∷ m ∷ a ∷ s ∷ d ∷ x ∷ []) = err
zb_zcl_level (name ∷ op ∷ m ∷ a ∷ s ∷ d ∷ x ∷ y ∷ []) = err
zb_zcl_level (name ∷ op ∷ m ∷ a ∷ s ∷ d ∷ x ∷ y ∷ z ∷ t ∷ u ∷ more) = err
