-- ===== src/Nodes/Bridged.antt =====
-- The commands that the Matter side sends to a node by its dynamic endpoint: `FindMatchedNodeByEP`
-- and the `Bridged...` functions.
use dm_matter_zigbee_bridge.Prelude.{
  ℕ, Bool, not, ◌&&◌, Option, none, some, List, [], ◌∷◌, ◌==◌, if◌then◌else◌,
}
use dm_matter_zigbee_bridge.Zcb.{Call}
use dm_matter_zigbee_bridge.Zcb.Commands.{
  on_off, level_control_move_to_level, color_control_move_to_hue, color_control_move_to_saturation,
  color_control_move_to_temp, color_control_move_to_color,
}
use dm_matter_zigbee_bridge.Nodes.{Node}

abbrev pub serves : ℕ → Node → Bool
serves ep n = not (n.type == 0) && n.ep == ep

-- The first node with a type and the endpoint; the source returns its index, or 0xff.
unfoldable pub find_matched_node_by_ep : ℕ → List Node → Option Node
find_matched_node_by_ep ep [] = none
find_matched_node_by_ep ep (n ∷ ns) = if serves ep n then some n else find_matched_node_by_ep ep ns

abbrev pub call_to : (ℕ → Call) → Option Node → Option Call
call_to command none = none
call_to command (some n) = some (command n.short)

unfoldable pub bridged_on_off : ℕ → ℕ → List Node → Option Call
bridged_on_off ep mode ns = call_to (λ short. on_off short mode) (find_matched_node_by_ep ep ns)

unfoldable pub bridged_level_control : ℕ → ℕ → ℕ → List Node → Option Call
bridged_level_control ep level time ns =
    call_to (λ short. level_control_move_to_level short level time) (find_matched_node_by_ep ep ns)

unfoldable pub bridged_move_to_hue : ℕ → ℕ → ℕ → ℕ → List Node → Option Call
bridged_move_to_hue ep hue dir time ns =
    call_to (λ short. color_control_move_to_hue short hue dir time) (find_matched_node_by_ep ep ns)

unfoldable pub bridged_move_to_saturation : ℕ → ℕ → ℕ → List Node → Option Call
bridged_move_to_saturation ep sat time ns =
    call_to (λ short. color_control_move_to_saturation short sat time)
      (find_matched_node_by_ep ep ns)

unfoldable pub bridged_move_to_color_temperature : ℕ → ℕ → ℕ → List Node → Option Call
bridged_move_to_color_temperature ep temp time ns =
    call_to (λ short. color_control_move_to_temp short temp time) (find_matched_node_by_ep ep ns)

unfoldable pub bridged_move_to_color : ℕ → ℕ → ℕ → ℕ → List Node → Option Call
bridged_move_to_color ep x y time ns =
    call_to (λ short. color_control_move_to_color short x y time) (find_matched_node_by_ep ep ns)
