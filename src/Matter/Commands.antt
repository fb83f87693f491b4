-- ===== src/Matter/Commands.antt =====
-- `MatterPreCommandReceivedCallback` and the functions that it calls for a cluster. Each returns
-- CHIP_NO_ERROR whatever happens; what counts is the command that is sent to a Zigbee node.
pub mod Meaning
pub mod Exact
use dm_matter_zigbee_bridge.Prelude.{
  ℕ, Bool, Option, none, some, List, if◌then◌else◌, Run, done, fault,
}
use dm_matter_zigbee_bridge.Zcb.{Call}
use dm_matter_zigbee_bridge.Nodes.{Node}
use dm_matter_zigbee_bridge.Nodes.Bridged.{
  bridged_on_off, bridged_level_control, bridged_move_to_hue, bridged_move_to_saturation,
  bridged_move_to_color, bridged_move_to_color_temperature,
}

-- The commands by their identifiers, with the fields that are looked at.
pub data OnOffCommand : Type 0 where
  off on toggle other_on_off : OnOffCommand

-- `transitionTime` may be null.
pub data LevelCommand : Type 0 where
  move_to_level : ℕ → Option ℕ → LevelCommand
  move step stop move_to_level_with_on_off move_with_on_off step_with_on_off stop_with_on_off :
      LevelCommand
  other_level : LevelCommand

pub data ColorCommand : Type 0 where
  move_to_hue : ℕ → ℕ → ℕ → ColorCommand
  move_hue step_hue : ColorCommand
  move_to_saturation : ℕ → ℕ → ColorCommand
  move_saturation step_saturation move_to_hue_and_saturation : ColorCommand
  move_to_color : ℕ → ℕ → ℕ → ColorCommand
  move_color step_color : ColorCommand
  move_to_color_temperature : ℕ → ℕ → ColorCommand
  enhanced_move_to_hue enhanced_move_hue enhanced_step_hue : ColorCommand
  enhanced_move_to_hue_and_saturation color_loop_set stop_move_step : ColorCommand
  move_color_temperature step_color_temperature other_color : ColorCommand

-- The flag says whether `DataModel::Decode` succeeds.
abbrev pub when_decoded : Bool → Option Call → Option Call
when_decoded decodes sent = if decodes then sent else none

unfoldable pub process_on_off_cluster_command : ℕ → OnOffCommand → Bool → List Node → Option Call
process_on_off_cluster_command ep off decodes ns = when_decoded decodes (bridged_on_off ep 0 ns)
process_on_off_cluster_command ep on decodes ns = when_decoded decodes (bridged_on_off ep 1 ns)
process_on_off_cluster_command ep toggle decodes ns = when_decoded decodes (bridged_on_off ep 2 ns)
process_on_off_cluster_command ep other_on_off decodes ns = none

-- `Value()` of a null time stops the program.
abbrev pub level_sent : ℕ → ℕ → Option ℕ → List Node → Run (Option Call)
level_sent ep level none ns = fault
level_sent ep level (some time) ns = done (bridged_level_control ep level time ns)

unfoldable pub process_level_control_cluster_command :
    ℕ → LevelCommand → Bool → List Node → Run (Option Call)
process_level_control_cluster_command ep (move_to_level level time) decodes ns =
    let sent = level_sent ep level time ns in if decodes then sent else done none
process_level_control_cluster_command ep move decodes ns = done none
process_level_control_cluster_command ep step decodes ns = done none
process_level_control_cluster_command ep stop decodes ns = done none
process_level_control_cluster_command ep move_to_level_with_on_off decodes ns = done none
process_level_control_cluster_command ep move_with_on_off decodes ns = done none
process_level_control_cluster_command ep step_with_on_off decodes ns = done none
process_level_control_cluster_command ep stop_with_on_off decodes ns = done none
process_level_control_cluster_command ep other_level decodes ns = done none

unfoldable pub process_color_control_cluster_command :
    ℕ → ColorCommand → Bool → List Node → Option Call
process_color_control_cluster_command ep (move_to_hue hue dir time) decodes ns =
    when_decoded decodes (bridged_move_to_hue ep hue dir time ns)
process_color_control_cluster_command ep (move_to_saturation sat time) decodes ns =
    when_decoded decodes (bridged_move_to_saturation ep sat time ns)
process_color_control_cluster_command ep (move_to_color x y time) decodes ns =
    when_decoded decodes (bridged_move_to_color ep x y time ns)
process_color_control_cluster_command ep (move_to_color_temperature temp time) decodes ns =
    when_decoded decodes (bridged_move_to_color_temperature ep temp time ns)
process_color_control_cluster_command ep _ decodes ns = none

pub data ClusterCommand : Type 0 where
  on_off_cluster : OnOffCommand → ClusterCommand
  level_control_cluster : LevelCommand → ClusterCommand
  color_control_cluster : ColorCommand → ClusterCommand
  other_cluster : ClusterCommand

unfoldable pub matter_pre_command_received :
    ℕ → ClusterCommand → Bool → List Node → Run (Option Call)
matter_pre_command_received ep (on_off_cluster c) decodes ns =
    done (process_on_off_cluster_command ep c decodes ns)
matter_pre_command_received ep (level_control_cluster c) decodes ns =
    process_level_control_cluster_command ep c decodes ns
matter_pre_command_received ep (color_control_cluster c) decodes ns =
    done (process_color_control_cluster_command ep c decodes ns)
matter_pre_command_received ep other_cluster decodes ns = done none
