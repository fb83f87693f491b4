-- ===== src/Matter/Commands/Exact.antt =====
-- Nothing but these commands sends anything.
use dm_matter_zigbee_bridge.Prelude.{
  ℕ, Bool, true, false, none, some, List, ◌≡◌, ◌↔◌, if◌then◌else◌, done, fault,
}
use dm_matter_zigbee_bridge.Zcb.{Call}
use dm_matter_zigbee_bridge.Nodes.{Node}
use dm_matter_zigbee_bridge.Matter.Commands.{
  OnOffCommand, off, on, toggle, other_on_off, LevelCommand, move_to_level, ColorCommand,
  move_to_hue, move_to_saturation, move_to_color, move_to_color_temperature, move, step, stop,
  move_to_level_with_on_off, move_with_on_off, step_with_on_off, stop_with_on_off, other_level,
  move_hue, step_hue, move_saturation, step_saturation, move_to_hue_and_saturation, move_color,
  step_color, enhanced_move_to_hue, enhanced_move_hue, enhanced_step_hue,
  enhanced_move_to_hue_and_saturation, color_loop_set, stop_move_step, move_color_temperature,
  step_color_temperature, other_color, ClusterCommand, on_off_cluster, level_control_cluster,
  color_control_cluster, other_cluster, process_on_off_cluster_command,
  process_level_control_cluster_command, process_color_control_cluster_command,
  matter_pre_command_received,
}
use dm_matter_zigbee_bridge.Matter.Commands.Meaning.{
  Meaning, is_off, is_on, is_toggle, is_level, is_hue, is_saturation, is_color, is_temperature,
  Means, sent-Meaning, silent, Means-sent,
}

-- A call that is sent has a command with a meaning behind it.
abbrev FromMeaning : ClusterCommand → Type 0
FromMeaning c =
    (ep : ℕ) (decodes : Bool) (ns : List Node) (x : Call)
    → matter_pre_command_received ep c decodes ns ≡ done (some x)
    → Means ep c decodes ns x

meant : (c : ClusterCommand) (f : ℕ → Call) → Meaning c f → FromMeaning c
meant c f m ep decodes ns x h = sent-Meaning ep c f decodes ns x m h

on_off-Means : (c : OnOffCommand) → FromMeaning (on_off_cluster c)
unfolding matter_pre_command_received process_on_off_cluster_command
on_off-Means off = meant _ _ is_off
on_off-Means on = meant _ _ is_on
on_off-Means toggle = meant _ _ is_toggle
on_off-Means other_on_off = λ ep decodes ns x h. silent x h

level-Means : (c : LevelCommand) → FromMeaning (level_control_cluster c)
unfolding matter_pre_command_received process_level_control_cluster_command
level-Means (move_to_level level (some time)) = meant _ _ (is_level level time)
level-Means (move_to_level level none) = λ ep decodes ns x h. either decodes x h
  where
    either :
        {A : Type 0} (b : Bool) (x : Call) → (if b then fault else done none) ≡ done (some x) → A
    either true x h = absurd (no_fault h)
      where
        no_fault : fault ≡ done (some x) → ⊥
        no_fault p = cc
    either false x h = silent x h
level-Means move = λ ep decodes ns x h. silent x h
level-Means step = λ ep decodes ns x h. silent x h
level-Means stop = λ ep decodes ns x h. silent x h
level-Means move_to_level_with_on_off = λ ep decodes ns x h. silent x h
level-Means move_with_on_off = λ ep decodes ns x h. silent x h
level-Means step_with_on_off = λ ep decodes ns x h. silent x h
level-Means stop_with_on_off = λ ep decodes ns x h. silent x h
level-Means other_level = λ ep decodes ns x h. silent x h

color-Means : (c : ColorCommand) → FromMeaning (color_control_cluster c)
unfolding matter_pre_command_received process_color_control_cluster_command
color-Means (move_to_hue hue dir time) = meant _ _ (is_hue hue dir time)
color-Means (move_to_saturation sat time) = meant _ _ (is_saturation sat time)
color-Means (move_to_color x y time) = meant _ _ (is_color x y time)
color-Means (move_to_color_temperature temp time) = meant _ _ (is_temperature temp time)
color-Means move_hue = λ ep decodes ns x h. silent x h
color-Means step_hue = λ ep decodes ns x h. silent x h
color-Means move_saturation = λ ep decodes ns x h. silent x h
color-Means step_saturation = λ ep decodes ns x h. silent x h
color-Means move_to_hue_and_saturation = λ ep decodes ns x h. silent x h
color-Means move_color = λ ep decodes ns x h. silent x h
color-Means step_color = λ ep decodes ns x h. silent x h
color-Means enhanced_move_to_hue = λ ep decodes ns x h. silent x h
color-Means enhanced_move_hue = λ ep decodes ns x h. silent x h
color-Means enhanced_step_hue = λ ep decodes ns x h. silent x h
color-Means enhanced_move_to_hue_and_saturation = λ ep decodes ns x h. silent x h
color-Means color_loop_set = λ ep decodes ns x h. silent x h
color-Means stop_move_step = λ ep decodes ns x h. silent x h
color-Means move_color_temperature = λ ep decodes ns x h. silent x h
color-Means step_color_temperature = λ ep decodes ns x h. silent x h
color-Means other_color = λ ep decodes ns x h. silent x h

sent-Means : (c : ClusterCommand) → FromMeaning c
unfolding matter_pre_command_received
sent-Means (on_off_cluster c) = on_off-Means c
sent-Means (level_control_cluster c) = level-Means c
sent-Means (color_control_cluster c) = color-Means c
sent-Means other_cluster = λ ep decodes ns x h. silent x h

-- MatterPreCommandReceivedCallback sends a Zigbee command exactly when the Matter command
-- decodes, a node serves its endpoint, and the command is one of Off, On, Toggle, MoveToLevel
-- with a transition time, MoveToHue, MoveToSaturation, MoveToColor and MoveToColorTemperature;
-- what is sent is the corresponding command for the short address of the first such node.
pub matter_pre_command_received-Means :
    (ep : ℕ) (c : ClusterCommand) (decodes : Bool) (ns : List Node) (x : Call)
    → (matter_pre_command_received ep c decodes ns ≡ done (some x)) ↔ Means ep c decodes ns x
matter_pre_command_received-Means ep c decodes ns x =
    (sent-Means c ep decodes ns x, Means-sent ep c decodes ns x)
