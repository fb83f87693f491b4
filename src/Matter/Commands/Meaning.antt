-- ===== src/Matter/Commands/Meaning.antt =====
-- What the commands that are passed on mean for a Zigbee node.
use dm_matter_zigbee_bridge.Prelude.{
  ℕ, Bool, true, false, Option, none, some, List, ◌≡◌, refl, sym, ap, ◌∙◌, done,
}
use dm_matter_zigbee_bridge.Zcb.{Call}
use dm_matter_zigbee_bridge.Zcb.Commands.{
  on_off, level_control_move_to_level, color_control_move_to_hue, color_control_move_to_saturation,
  color_control_move_to_temp, color_control_move_to_color,
}
use dm_matter_zigbee_bridge.Nodes.{Node}
use dm_matter_zigbee_bridge.Nodes.Bridged.{
  call_to, find_matched_node_by_ep, bridged_on_off, bridged_level_control, bridged_move_to_hue,
  bridged_move_to_saturation, bridged_move_to_color, bridged_move_to_color_temperature,
}
use dm_matter_zigbee_bridge.Matter.Commands.{
  when_decoded, off, on, toggle, move_to_level, move_to_hue, move_to_saturation, move_to_color,
  move_to_color_temperature, ClusterCommand, on_off_cluster, level_control_cluster,
  color_control_cluster, process_on_off_cluster_command, process_level_control_cluster_command,
  process_color_control_cluster_command, matter_pre_command_received,
}

-- The Zigbee commands for a node with a short address, by the Matter command.
pub data Meaning : ClusterCommand → (ℕ → Call) → Type 0 where
  is_off : Meaning (on_off_cluster off) (λ short. on_off short 0)
  is_on : Meaning (on_off_cluster on) (λ short. on_off short 1)
  is_toggle : Meaning (on_off_cluster toggle) (λ short. on_off short 2)
  is_level :
      (level time : ℕ)
      → Meaning
          (level_control_cluster (move_to_level level (some time)))
          (λ short. level_control_move_to_level short level time)
  is_hue :
      (hue dir time : ℕ)
      → Meaning
          (color_control_cluster (move_to_hue hue dir time))
          (λ short. color_control_move_to_hue short hue dir time)
  is_saturation :
      (sat time : ℕ)
      → Meaning
          (color_control_cluster (move_to_saturation sat time))
          (λ short. color_control_move_to_saturation short sat time)
  is_color :
      (x y time : ℕ)
      → Meaning
          (color_control_cluster (move_to_color x y time))
          (λ short. color_control_move_to_color short x y time)
  is_temperature :
      (temp time : ℕ)
      → Meaning
          (color_control_cluster (move_to_color_temperature temp time))
          (λ short. color_control_move_to_temp short temp time)

-- The call `x` is the meaning of a command that decodes, for the node that serves the endpoint.
pub record Means (ep : ℕ) (c : ClusterCommand) (decodes : Bool) (ns : List Node) (x : Call)
    : Type 0 where
  pub f : ℕ → Call
  pub n : Node
  pub meaning : Meaning c f
  pub served : find_matched_node_by_ep ep ns ≡ some n
  pub call_is : f n.short ≡ x
  pub decoded : decodes ≡ true

-- The step that all commands with a meaning share.
sends_to : ℕ → (ℕ → Call) → Bool → List Node → Option Call
sends_to ep f decodes ns = when_decoded decodes (call_to f (find_matched_node_by_ep ep ns))

Meaning-sends_to :
    (ep : ℕ) (c : ClusterCommand) (f : ℕ → Call) (decodes : Bool) (ns : List Node)
    → Meaning c f
    → matter_pre_command_received ep c decodes ns ≡ done (sends_to ep f decodes ns)
unfolding matter_pre_command_received process_on_off_cluster_command
    process_level_control_cluster_command process_color_control_cluster_command bridged_on_off
    bridged_level_control bridged_move_to_hue bridged_move_to_saturation bridged_move_to_color
    bridged_move_to_color_temperature sends_to
Meaning-sends_to ep c f decodes ns is_off = refl
Meaning-sends_to ep c f decodes ns is_on = refl
Meaning-sends_to ep c f decodes ns is_toggle = refl
Meaning-sends_to ep c f true ns (is_level level time) = refl
Meaning-sends_to ep c f false ns (is_level level time) = refl
Meaning-sends_to ep c f decodes ns (is_hue hue dir time) = refl
Meaning-sends_to ep c f decodes ns (is_saturation sat time) = refl
Meaning-sends_to ep c f decodes ns (is_color x y time) = refl
Meaning-sends_to ep c f decodes ns (is_temperature temp time) = refl

sends_to-served :
    (ep : ℕ) (f : ℕ → Call) (decodes : Bool) (ns : List Node) (x : Call)
    → sends_to ep f decodes ns ≡ some x
    → (n : Node) × (find_matched_node_by_ep ep ns ≡ some n) × (f n.short ≡ x) × (decodes ≡ true)
unfolding sends_to
sends_to-served ep f false ns x h = absurd (nothing h)
  where
    nothing : none ≡ some x → ⊥
    nothing p = cc
sends_to-served ep f true ns x h = found (find_matched_node_by_ep ep ns) refl h
  where
    found :
        (o : Option Node)
        → find_matched_node_by_ep ep ns ≡ o
        → call_to f o ≡ some x
        → (n : Node) × (find_matched_node_by_ep ep ns ≡ some n) × (f n.short ≡ x) × (true ≡ true)
    found none e p = absurd (nothing p)
      where
        nothing : none ≡ some x → ⊥
        nothing q = cc
    found (some n) e p = (n, e, inj p, refl)
      where
        inj : some (f n.short) ≡ some x → f n.short ≡ x
        inj q = cc

pub sent-Meaning :
    (ep : ℕ) (c : ClusterCommand) (f : ℕ → Call) (decodes : Bool) (ns : List Node) (x : Call)
    → Meaning c f
    → matter_pre_command_received ep c decodes ns ≡ done (some x)
    → Means ep c decodes ns x
sent-Meaning ep c f decodes ns x m h =
    let (n, e, p, d) =
      sends_to-served ep f decodes ns x (inj (sym (Meaning-sends_to ep c f decodes ns m) ∙ h)) in
    record { f = f; n = n; meaning = m; served = e; call_is = p; decoded = d }
  where
    inj : done (sends_to ep f decodes ns) ≡ done (some x) → sends_to ep f decodes ns ≡ some x
    inj q = cc

-- A command without a meaning sends nothing.
pub silent {ℓ} : {A : Type ℓ} (x : Call) → done none ≡ done (some x) → A
silent x h = absurd (nothing h)
  where
    nothing : done none ≡ done (some x) → ⊥
    nothing p = cc

pub Means-sent :
    (ep : ℕ) (c : ClusterCommand) (decodes : Bool) (ns : List Node) (x : Call)
    → Means ep c decodes ns x
    → matter_pre_command_received ep c decodes ns ≡ done (some x)
unfolding sends_to
Means-sent ep c decodes ns x m =
    Meaning-sends_to ep c m.f decodes ns m.meaning
    ∙ rw (m.decoded, m.served) (ap (λ y. done (some y)) m.call_is)
