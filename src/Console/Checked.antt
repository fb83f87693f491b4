-- ===== src/Console/Checked.antt =====
-- `zb_zcl_onoff` and `zb_zcl_color` of zigbee_cmd.c. Their calls are commented out in the source: what
-- is left are the tests of their arguments.
use dm_matter_zigbee_bridge.Prelude.{ℕ, Option, none, some, List, [], ◌∷◌, if◌then◌else◌, done}
use dm_matter_zigbee_bridge.Console.Commands.{is_text, Outcome, err, only_help, if_up_to}
use dm_matter_zigbee_bridge.Console.Level.{addr_mode, if_reachable}

-- "off", "on" and "toggle".
abbrev pub off_text : List ℕ
off_text = 111 ∷ 102 ∷ 102 ∷ []

abbrev pub on_text : List ℕ
on_text = 111 ∷ 110 ∷ []

abbrev pub toggle_text : List ℕ
toggle_text = 116 ∷ 111 ∷ 103 ∷ 103 ∷ 108 ∷ 101 ∷ []

abbrev pub command_id : List ℕ → Option ℕ
command_id c =
    if is_text c off_text
    then some 0
    else if is_text c on_text
    then some 1
    else if is_text c toggle_text
    then some 2
    else none

abbrev pub nothing_sent : Outcome
nothing_sent = done (some [])

abbrev pub on_off_checked : Option ℕ → Option ℕ → List ℕ → List ℕ → List ℕ → Outcome
on_off_checked none id a s d = err
on_off_checked (some mode) none a s d = err
on_off_checked (some mode) (some id) a s d = if_reachable a s d nothing_sent

unfoldable pub zb_zcl_onoff : List (List ℕ) → Outcome
zb_zcl_onoff (name ∷ m ∷ []) = only_help m err
zb_zcl_onoff (name ∷ m ∷ a ∷ s ∷ d ∷ c ∷ []) = on_off_checked (addr_mode m) (command_id c) a s d
zb_zcl_onoff [] = err
zb_zcl_onoff (name ∷ []) = err
zb_zcl_onoff (name ∷ m ∷ a ∷ []) = err
zb_zcl_onoff (name ∷ m ∷ a ∷ s ∷ []) = err
zb_zcl_onoff (name ∷ m ∷ a ∷ s ∷ d ∷ []) = err
zb_zcl_onoff (name ∷ m ∷ a ∷ s ∷ d ∷ c ∷ e ∷ more) = err

-- "movetotemp", "movetocolor" and "movetohue".
abbrev pub to_temp_text : List ℕ
to_temp_text = 109 ∷ 111 ∷ 118 ∷ 101 ∷ 116 ∷ 111 ∷ 116 ∷ 101 ∷ 109 ∷ 112 ∷ []

abbrev pub to_color_text : List ℕ
to_color_text = 109 ∷ 111 ∷ 118 ∷ 101 ∷ 116 ∷ 111 ∷ 99 ∷ 111 ∷ 108 ∷ 111 ∷ 114 ∷ []

abbrev pub to_hue_text : List ℕ
to_hue_text = 109 ∷ 111 ∷ 118 ∷ 101 ∷ 116 ∷ 111 ∷ 104 ∷ 117 ∷ 101 ∷ []

-- The numbers after the endpoints.
abbrev pub two_numbers : ℕ → List ℕ → List ℕ → Outcome
two_numbers max x y = if_up_to max x (λ n. if_up_to 65535 y (λ time. nothing_sent))

abbrev pub three_numbers : ℕ → List ℕ → List ℕ → List ℕ → Outcome
three_numbers max x y z = if_up_to 255 x (λ n. two_numbers max y z)

abbrev pub color_of_five : Option ℕ → List ℕ → List ℕ → List ℕ → List ℕ → List ℕ → List ℕ → Outcome
color_of_five none op a s d x y = err
color_of_five (some mode) op a s d x y =
    if is_text op to_temp_text then if_reachable a s d (two_numbers 255 x y) else err

abbrev pub color_of_six :
    Option ℕ → List ℕ → List ℕ → List ℕ → List ℕ → List ℕ → List ℕ → List ℕ → Outcome
color_of_six none op a s d x y z = err
color_of_six (some mode) op a s d x y z =
    if is_text op to_color_text
    then if_reachable a s d (three_numbers 255 x y z)
    else if is_text op to_hue_text
    then if_reachable a s d (three_numbers 3 x y z)
    else err

unfoldable pub zb_zcl_color : List (List ℕ) → Outcome
zb_zcl_color (name ∷ op ∷ []) = only_help op err
zb_zcl_color (name ∷ op ∷ m ∷ a ∷ s ∷ d ∷ x ∷ y ∷ []) = color_of_five (addr_mode m) op a s d x y
zb_zcl_color (name ∷ op ∷ m ∷ a ∷ s ∷ d ∷ x ∷ y ∷ z ∷ []) =
    color_of_six (addr_mode m) op a s d x y z
zb_zcl_color [] = err
zb_zcl_color (name ∷ []) = err
zb_zcl_color (name ∷ op ∷ m ∷ []) = err
zb_zcl_color (name ∷ op ∷ m ∷ a ∷ []) = err
zb_zcl_color (name ∷ op ∷ m ∷ a ∷ s ∷ []) = err
zb_zcl_color (name ∷ op ∷ m ∷ a ∷ s ∷ d ∷ []) = err
zb_zcl_color (name ∷ op ∷ m ∷ a ∷ s ∷ d ∷ x ∷ []) = err
zb_zcl_color (name ∷ op ∷ m ∷ a ∷ s ∷ d ∷ x ∷ y ∷ z ∷ t ∷ more) = err
