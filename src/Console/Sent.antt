-- ===== src/Console/Sent.antt =====
-- What the commands of zigbee_cmd.c put into their messages.
pub mod Whole
use dm_matter_zigbee_bridge.Prelude.{
  ℕ, ◌+◌, ◌-◌, ◌*◌, ◌%◌, ◌^◌, ◌<◌, ◌≤◌, Bool, true, false, Bool-cases, ◌&&◌, ◌==◌, Option, none,
  some, List, [], ◌∷◌, ◌≡◌, refl, inl, inr, arith, Run, done, fault, spin, ◌>>=◌, All,
  if◌then◌else◌,
}
use dm_matter_zigbee_bridge.Zcb.{Call, refuses, faults, sends, sends_no_wait}
use dm_matter_zigbee_bridge.Zcb.Fields.{Fits}
use dm_matter_zigbee_bridge.Zcb.Requests.{
  mgmt_leave_request, active_endpoint_request, node_descriptor_request, simple_descriptor_request,
  nwk_address_request, ieee_address_request,
}
use dm_matter_zigbee_bridge.Console.{
  addr_valid, is_a_endpoint, simple_strtoul, atoi, Number, is_up_to, as_byte,
}
use dm_matter_zigbee_bridge.Console.Bounds.{simple_strtoul-bound, and_left, and_right}
use dm_matter_zigbee_bridge.Console.Commands.{
  is_text, help_text, Outcome, err, calls, only_help, if_up_to, leave_flags, zb_zdo_leave,
  zb_zdo_activereq, zb_zdo_nodereq, zb_zdo_simplereq, request_type, address_request, zb_zdo_ieereq,
  zb_zdo_nwkreq, single_text, extended_text,
}

-- Each value of each message fits its field.
abbrev pub CallFits : Call → Type 0
CallFits (refuses s) = Unit
CallFits faults = Unit
CallFits (sends t fields) = All Fits fields
CallFits (sends_no_wait t fields) = All Fits fields

abbrev pub OutcomeFits : Outcome → Type 0
OutcomeFits (done none) = Unit
OutcomeFits (done (some made)) = All CallFits made
OutcomeFits fault = Unit
OutcomeFits spin = Unit

as_byte-bound : (n : Number) → as_byte n < 256
as_byte-bound n = ground arith

short_bound : (a : List ℕ) → addr_valid a 4 ≡ true → simple_strtoul a < 256 ^ 2
short_bound a h = omega (arith, simple_strtoul-bound a 4 h)

long_bound : (b : List ℕ) → addr_valid b 16 ≡ true → simple_strtoul b < 256 ^ 8
long_bound b h = omega (arith, simple_strtoul-bound b 16 h)

only_help-Fits :
    (a : List ℕ) (other : Outcome) → OutcomeFits other → OutcomeFits (only_help a other)
only_help-Fits a other h = elim (Bool-cases (is_text a help_text)) [
  | inl y ↦ rw y tt
  | inr n ↦ rw n h
]

-- A test before an outcome may be taken to hold.
guarded_Fits :
    (b : Bool) (o : Outcome) → (b ≡ true → OutcomeFits o) → OutcomeFits (if b then o else err)
guarded_Fits true o h = h refl
guarded_Fits false o h = tt

bound_Fits :
    (r : Run Number) (next : Number → Outcome)
    → ((n : Number) → OutcomeFits (next n))
    → OutcomeFits (r >>= next)
bound_Fits (done n) next h = h n
bound_Fits fault next h = tt
bound_Fits spin next h = tt

if_up_to-Fits :
    (max : ℕ) (a : List ℕ) (next : Number → Outcome)
    → ((n : Number) → is_up_to max n ≡ true → OutcomeFits (next n))
    → OutcomeFits (if_up_to max a next)
if_up_to-Fits max a next h =
    bound_Fits (atoi a) (λ n. if is_up_to max n then next n else err)
      (λ n. guarded_Fits (is_up_to max n) (next n) (h n))

four_fit : {P Q R S : Type 0} → P → Q → R → S → P × (Q × (R × (S × Unit {0})))
four_fit p q r s = (p, (q, (r, (s, tt))))

zb_zdo_leave-Fits : (argv : List (List ℕ)) → OutcomeFits (zb_zdo_leave argv)
unfolding zb_zdo_leave mgmt_leave_request
zb_zdo_leave-Fits [] = tt
zb_zdo_leave-Fits (name ∷ []) = tt
zb_zdo_leave-Fits (name ∷ a ∷ []) = only_help-Fits a err tt
zb_zdo_leave-Fits (name ∷ a ∷ b ∷ []) = tt
zb_zdo_leave-Fits (name ∷ a ∷ b ∷ c ∷ []) = tt
zb_zdo_leave-Fits (name ∷ a ∷ b ∷ c ∷ d ∷ []) =
    guarded_Fits (addr_valid a 4 && addr_valid b 16)
      (leave_flags (simple_strtoul a) (simple_strtoul b) c d)
      (λ y. if_up_to-Fits 1 c _ (λ rejoin r. if_up_to-Fits 1 d _ (λ children k. (
        four_fit (short_bound a (and_left _ _ y)) (long_bound b (and_right (addr_valid a 4) _ y))
            (as_byte-bound rejoin) (as_byte-bound children),
        tt,
      ))))
zb_zdo_leave-Fits (name ∷ a ∷ b ∷ c ∷ d ∷ e ∷ more) = tt

zb_zdo_activereq-Fits : (argv : List (List ℕ)) → OutcomeFits (zb_zdo_activereq argv)
unfolding zb_zdo_activereq active_endpoint_request
zb_zdo_activereq-Fits [] = tt
zb_zdo_activereq-Fits (name ∷ []) = tt
zb_zdo_activereq-Fits (name ∷ a ∷ []) =
    only_help-Fits a _ (guarded_Fits (addr_valid a 4) _ (λ y. ((short_bound a y, tt), tt)))
zb_zdo_activereq-Fits (name ∷ a ∷ b ∷ more) = tt

zb_zdo_nodereq-Fits : (argv : List (List ℕ)) → OutcomeFits (zb_zdo_nodereq argv)
unfolding zb_zdo_nodereq node_descriptor_request
zb_zdo_nodereq-Fits [] = tt
zb_zdo_nodereq-Fits (name ∷ []) = tt
zb_zdo_nodereq-Fits (name ∷ a ∷ []) =
    only_help-Fits a _ (guarded_Fits (addr_valid a 4) _ (λ y. ((short_bound a y, tt), tt)))
zb_zdo_nodereq-Fits (name ∷ a ∷ b ∷ more) = tt

zb_zdo_simplereq-Fits : (argv : List (List ℕ)) → OutcomeFits (zb_zdo_simplereq argv)
unfolding zb_zdo_simplereq simple_descriptor_request
zb_zdo_simplereq-Fits [] = tt
zb_zdo_simplereq-Fits (name ∷ []) = tt
zb_zdo_simplereq-Fits (name ∷ a ∷ []) = only_help-Fits a err tt
zb_zdo_simplereq-Fits (name ∷ a ∷ b ∷ []) = guarded_Fits (addr_valid a 4 && is_a_endpoint b) _ (λ y.
    bound_Fits (atoi b) _ (λ ep. ((short_bound a (and_left _ _ y), (as_byte-bound ep, tt)), tt)))
zb_zdo_simplereq-Fits (name ∷ a ∷ b ∷ c ∷ more) = tt

request_kind : (c : List ℕ) (kind : ℕ) → request_type c ≡ some kind → kind < 256
request_kind c kind h = ground arith

address_request-Fits :
    (digits : ℕ) (request : ℕ → ℕ → ℕ → ℕ → Call) (a b d : List ℕ) (kind : Option ℕ)
    → ((x y k i : ℕ)
        → x < 256 ^ 2
        → y < 16 ^ digits
        → k < 256
        → i < 256
        → CallFits (request x y k i))
    → ((k : ℕ) → kind ≡ some k → k < 256)
    → OutcomeFits (address_request digits request a b d kind)
address_request-Fits digits request a b d none fits small = tt
address_request-Fits digits request a b d (some kind) fits small =
    guarded_Fits (addr_valid a 4 && addr_valid b digits) _ (λ y.
      if_up_to-Fits 255 d _ (λ index small_index. (
        fits (simple_strtoul a) (simple_strtoul b) kind (as_byte index)
            (short_bound a (and_left _ _ y))
            (simple_strtoul-bound b digits (and_right (addr_valid a 4) _ y)) (small kind refl)
            (as_byte-bound index),
        tt,
      )))

zb_zdo_ieereq-Fits : (argv : List (List ℕ)) → OutcomeFits (zb_zdo_ieereq argv)
unfolding zb_zdo_ieereq ieee_address_request
zb_zdo_ieereq-Fits [] = tt
zb_zdo_ieereq-Fits (name ∷ []) = tt
zb_zdo_ieereq-Fits (name ∷ a ∷ []) = only_help-Fits a err tt
zb_zdo_ieereq-Fits (name ∷ a ∷ b ∷ []) = tt
zb_zdo_ieereq-Fits (name ∷ a ∷ b ∷ c ∷ []) = tt
zb_zdo_ieereq-Fits (name ∷ a ∷ b ∷ c ∷ d ∷ []) =
    address_request-Fits 4 ieee_address_request a b d (request_type c)
      (λ x y k i hx hy hk hi. four_fit hx (omega (arith, hy)) hk hi) (request_kind c)
zb_zdo_ieereq-Fits (name ∷ a ∷ b ∷ c ∷ d ∷ e ∷ more) = tt

zb_zdo_nwkreq-Fits : (argv : List (List ℕ)) → OutcomeFits (zb_zdo_nwkreq argv)
unfolding zb_zdo_nwkreq nwk_address_request
zb_zdo_nwkreq-Fits [] = tt
zb_zdo_nwkreq-Fits (name ∷ []) = tt
zb_zdo_nwkreq-Fits (name ∷ a ∷ []) = only_help-Fits a err tt
zb_zdo_nwkreq-Fits (name ∷ a ∷ b ∷ []) = tt
zb_zdo_nwkreq-Fits (name ∷ a ∷ b ∷ c ∷ []) = tt
zb_zdo_nwkreq-Fits (name ∷ a ∷ b ∷ c ∷ d ∷ []) =
    address_request-Fits 16 nwk_address_request a b d (request_type c)
      (λ x y k i hx hy hk hi. four_fit hx (omega (arith, hy)) hk hi) (request_kind c)
zb_zdo_nwkreq-Fits (name ∷ a ∷ b ∷ c ∷ d ∷ e ∷ more) = tt
