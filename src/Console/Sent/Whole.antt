-- ===== src/Console/Sent/Whole.antt =====
-- The messages of `zb_nwk_form` and `zb_zcl_level`, and of all these commands together.
use dm_matter_zigbee_bridge.Prelude.{
  ℕ, ◌^◌, ◌<◌, ◌≤◌, true, ◌&&◌, ◌||◌, not, ◌==◌, Option, none, some, List, [], ◌∷◌, ◌≡◌, refl,
  arith, inl, inr, Bool-cases,
}
use dm_matter_zigbee_bridge.Zcb.{Call}
use dm_matter_zigbee_bridge.Zcb.Requests.{set_channel_mask, set_ex_panid, start_network}
use dm_matter_zigbee_bridge.Zcb.Commands.{level_control_move, level_control_move_step}
use dm_matter_zigbee_bridge.Console.{
  addr_valid, is_a_endpoint, simple_strtoul, atoi, Number, is_up_to, as_byte, as_half,
}
use dm_matter_zigbee_bridge.Console.Bounds.{and_left, and_right, leb_le}
use dm_matter_zigbee_bridge.Console.Commands.{
  is_text, Outcome, err, zb_zdo_leave, zb_zdo_activereq, zb_zdo_nodereq, zb_zdo_simplereq,
  zb_zdo_ieereq, zb_zdo_nwkreq,
}
use dm_matter_zigbee_bridge.Console.Level.{
  form_calls, zb_nwk_form, addr_mode, move_text, move_to_level_text, step_text, if_reachable,
  between, level_move, level_checked, level_step, level_of_six, level_of_seven, zb_zcl_level,
}
use dm_matter_zigbee_bridge.Console.Sent.{
  CallFits, OutcomeFits, as_byte-bound, short_bound, long_bound, only_help-Fits, guarded_Fits,
  bound_Fits, if_up_to-Fits, zb_zdo_leave-Fits, zb_zdo_activereq-Fits, zb_zdo_nodereq-Fits,
  zb_zdo_simplereq-Fits, zb_zdo_ieereq-Fits, zb_zdo_nwkreq-Fits,
}

size_bound : (n : Number) (max : ℕ) → is_up_to max n ≡ true → n.size ≤ max
size_bound n max h = leb_le n.size max (and_right (not n.negative || n.size == 0) _ h)

as_half-bound : (n : Number) → as_half n < 256 ^ 2
as_half-bound n = ground arith

zb_nwk_form-Fits : (argv : List (List ℕ)) → OutcomeFits (zb_nwk_form argv)
unfolding zb_nwk_form set_channel_mask set_ex_panid start_network
zb_nwk_form-Fits [] = tt
zb_nwk_form-Fits (name ∷ []) = tt
zb_nwk_form-Fits (name ∷ a ∷ []) = only_help-Fits a err tt
zb_nwk_form-Fits (name ∷ a ∷ b ∷ []) = if_up_to-Fits 26 a (form_calls b) (λ channel small.
    let channel_fits : channel.size < 256 ^ 4 = omega (arith, size_bound channel 26 small) in
    guarded_Fits (addr_valid b 16) _ (λ y. ((channel_fits, tt), ((long_bound b y, tt), (tt, tt)))))
zb_nwk_form-Fits (name ∷ a ∷ b ∷ c ∷ more) = tt

between_Fits :
    (s d : List ℕ) (call : ℕ → ℕ → Call)
    → ((i j : ℕ) → i < 256 → j < 256 → CallFits (call i j))
    → OutcomeFits (between s d call)
between_Fits s d call h = bound_Fits (atoi s) _ (λ src.
    bound_Fits (atoi d) _
      (λ dst. (h (as_byte src) (as_byte dst) (as_byte-bound src) (as_byte-bound dst), tt)))

if_reachable-Fits :
    (a s d : List ℕ) (next : Outcome)
    → (simple_strtoul a < 256 ^ 2 → OutcomeFits next)
    → OutcomeFits (if_reachable a s d next)
if_reachable-Fits a s d next h =
    guarded_Fits (addr_valid a 4 && (is_a_endpoint s && is_a_endpoint d)) next
      (λ y. h (short_bound a (and_left _ _ y)))

addr_mode-bound : (m : List ℕ) (mode : ℕ) → addr_mode m ≡ some mode → mode < 256
addr_mode-bound m mode h = ground arith

level_move-Fits :
    (mode : ℕ) (a s d x y z : List ℕ) → mode < 256 → OutcomeFits (level_move mode a s d x y z)
unfolding level_control_move
level_move-Fits mode a s d x y z small = if_reachable-Fits a s d _ (λ short.
    if_up_to-Fits 1 x _ (λ on_off o. if_up_to-Fits 1 y _ (λ up u. bound_Fits (atoi z) _ (λ rate.
      between_Fits s d
        (λ i j.
          level_control_move mode (simple_strtoul a) i j (as_byte on_off) (as_byte up)
            (as_byte rate))
        (λ i j hi hj. (
          small,
          (short, (hi, (hj, (as_byte-bound on_off, (as_byte-bound up, (as_byte-bound rate, tt)))))),
        ))))))

level_checked-Fits : (a s d x y z : List ℕ) → OutcomeFits (level_checked a s d x y z)
level_checked-Fits a s d x y z = if_reachable-Fits a s d _ (λ short.
    if_up_to-Fits 1 x _
      (λ on_off o. if_up_to-Fits 255 y _ (λ level l. if_up_to-Fits 65535 z _ (λ time t. tt))))

level_step-Fits :
    (mode : ℕ) (a s d x y z t : List ℕ) → mode < 256 → OutcomeFits (level_step mode a s d x y z t)
unfolding level_control_move_step
level_step-Fits mode a s d x y z t small = if_reachable-Fits a s d _ (λ short.
    if_up_to-Fits 1 x _ (λ on_off o. if_up_to-Fits 1 y _ (λ up u. if_up_to-Fits 255 z _ (λ size v.
      if_up_to-Fits 65535 t _ (λ time w.
        between_Fits s d
          (λ i j.
            level_control_move_step mode (simple_strtoul a) i j (as_byte on_off) (as_byte up)
              (as_byte size) (as_half time))
          (λ i j hi hj. (
            small,
            (
              short,
              (
                hi,
                (
                  hj,
                  (
                    as_byte-bound on_off,
                    (as_byte-bound up, (as_byte-bound size, (as_half-bound time, tt))),
                  ),
                ),
              ),
            ),
          )))))))

level_of_six-Fits :
    (mode : Option ℕ) (op a s d x y z : List ℕ)
    → ((k : ℕ) → mode ≡ some k → k < 256)
    → OutcomeFits (level_of_six mode op a s d x y z)
level_of_six-Fits none op a s d x y z small = tt
level_of_six-Fits (some mode) op a s d x y z small = elim (Bool-cases (is_text op move_text)) [
  | inl e ↦ rw e (level_move-Fits mode a s d x y z (small mode refl))
  | inr e ↦
      rw e (guarded_Fits (is_text op move_to_level_text) _ (λ h. level_checked-Fits a s d x y z))
]

level_of_seven-Fits :
    (mode : Option ℕ) (op a s d x y z t : List ℕ)
    → ((k : ℕ) → mode ≡ some k → k < 256)
    → OutcomeFits (level_of_seven mode op a s d x y z t)
level_of_seven-Fits none op a s d x y z t small = tt
level_of_seven-Fits (some mode) op a s d x y z t small =
    guarded_Fits (is_text op step_text) _
      (λ e. level_step-Fits mode a s d x y z t (small mode refl))

zb_zcl_level-Fits : (argv : List (List ℕ)) → OutcomeFits (zb_zcl_level argv)
unfolding zb_zcl_level
zb_zcl_level-Fits [] = tt
zb_zcl_level-Fits (name ∷ []) = tt
zb_zcl_level-Fits (name ∷ op ∷ []) = only_help-Fits op err tt
zb_zcl_level-Fits (name ∷ op ∷ m ∷ []) = tt
zb_zcl_level-Fits (name ∷ op ∷ m ∷ a ∷ []) = tt
zb_zcl_level-Fits (name ∷ op ∷ m ∷ a ∷ s ∷ []) = tt
zb_zcl_level-Fits (name ∷ op ∷ m ∷ a ∷ s ∷ d ∷ []) = tt
zb_zcl_level-Fits (name ∷ op ∷ m ∷ a ∷ s ∷ d ∷ x ∷ []) = tt
zb_zcl_level-Fits (name ∷ op ∷ m ∷ a ∷ s ∷ d ∷ x ∷ y ∷ []) = tt
zb_zcl_level-Fits (name ∷ op ∷ m ∷ a ∷ s ∷ d ∷ x ∷ y ∷ z ∷ []) =
    level_of_six-Fits (addr_mode m) op a s d x y z (addr_mode-bound m)
zb_zcl_level-Fits (name ∷ op ∷ m ∷ a ∷ s ∷ d ∷ x ∷ y ∷ z ∷ t ∷ []) =
    level_of_seven-Fits (addr_mode m) op a s d x y z t (addr_mode-bound m)
zb_zcl_level-Fits (name ∷ op ∷ m ∷ a ∷ s ∷ d ∷ x ∷ y ∷ z ∷ t ∷ u ∷ more) = tt

-- In all messages of these commands, every value fits its field.
pub commands-Fit :
    (argv : List (List ℕ))
    → OutcomeFits (zb_nwk_form argv)
      × OutcomeFits (zb_zcl_level argv)
      × OutcomeFits (zb_zdo_leave argv)
      × OutcomeFits (zb_zdo_activereq argv)
      × OutcomeFits (zb_zdo_nodereq argv)
      × OutcomeFits (zb_zdo_simplereq argv)
      × OutcomeFits (zb_zdo_ieereq argv)
      × OutcomeFits (zb_zdo_nwkreq argv)
commands-Fit argv = (
  zb_nwk_form-Fits argv,
  zb_zcl_level-Fits argv,
  zb_zdo_leave-Fits argv,
  zb_zdo_activereq-Fits argv,
  zb_zdo_nodereq-Fits argv,
  zb_zdo_simplereq-Fits argv,
  zb_zdo_ieereq-Fits argv,
  zb_zdo_nwkreq-Fits argv,
)
