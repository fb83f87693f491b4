-- ===== src/Console/Commands.antt =====
-- The commands of zigbee_cmd.c that ask for descriptors and addresses or let a device leave. The
-- arguments are those of `argv`, the command's name first. A command that returns -1 gives none, one that returns 0
-- the calls it made: none of them after `--help`, which only prints. The assertion on a call's status is left out.
use dm_matter_zigbee_bridge.Prelude.{
  ℕ, Bool, true, false, ◌&&◌, ◌==◌, Option, none, some, List, [], ◌∷◌, if◌then◌else◌, Run, done,
  ◌>>=◌,
}
use dm_matter_zigbee_bridge.Zcb.{Call}
use dm_matter_zigbee_bridge.Zcb.Requests.{
  mgmt_leave_request, active_endpoint_request, node_descriptor_request, simple_descriptor_request,
  nwk_address_request, ieee_address_request,
}
use dm_matter_zigbee_bridge.Console.{
  addr_valid, is_a_endpoint, simple_strtoul, atoi, Number, is_up_to, as_byte,
}

-- `strcmp(a, b) == 0`.
abbrev pub is_text : List ℕ → List ℕ → Bool
is_text [] [] = true
is_text [] (d ∷ t) = false
is_text (c ∷ s) [] = false
is_text (c ∷ s) (d ∷ t) = (c == d) && is_text s t

-- "--help", "single" and "extended".
abbrev pub help_text : List ℕ
help_text = 45 ∷ 45 ∷ 104 ∷ 101 ∷ 108 ∷ 112 ∷ []

abbrev pub single_text : List ℕ
single_text = 115 ∷ 105 ∷ 110 ∷ 103 ∷ 108 ∷ 101 ∷ []

abbrev pub extended_text : List ℕ
extended_text = 101 ∷ 120 ∷ 116 ∷ 101 ∷ 110 ∷ 100 ∷ 101 ∷ 100 ∷ []

abbrev pub Outcome : Type 0
Outcome = Run (Option (List Call))

abbrev pub err : Outcome
err = done none

abbrev pub calls : Call → Outcome
calls c = done (some (c ∷ []))

abbrev pub only_help : List ℕ → Outcome → Outcome
only_help a other = if is_text a help_text then done (some []) else other

-- `atoi(a) >= 0 && atoi(a) <= max`, and what follows with the number; another number is an error.
abbrev pub if_up_to : ℕ → List ℕ → (Number → Outcome) → Outcome
if_up_to max a next = atoi a >>= λ n. if is_up_to max n then next n else err

-- The flags are read once their addresses are valid.
abbrev pub leave_flags : ℕ → ℕ → List ℕ → List ℕ → Outcome
leave_flags addr mac c d = if_up_to 1 c (λ rejoin.
    if_up_to 1 d
      (λ children. calls (mgmt_leave_request addr mac (as_byte rejoin) (as_byte children))))

unfoldable pub zb_zdo_leave : List (List ℕ) → Outcome
zb_zdo_leave (name ∷ a ∷ []) = only_help a err
zb_zdo_leave (name ∷ a ∷ b ∷ c ∷ d ∷ []) =
    if addr_valid a 4 && addr_valid b 16
    then leave_flags (simple_strtoul a) (simple_strtoul b) c d
    else err
zb_zdo_leave [] = err
zb_zdo_leave (name ∷ []) = err
zb_zdo_leave (name ∷ a ∷ b ∷ []) = err
zb_zdo_leave (name ∷ a ∷ b ∷ c ∷ []) = err
zb_zdo_leave (name ∷ a ∷ b ∷ c ∷ d ∷ e ∷ more) = err

-- The requests for descriptors ignore any other number of arguments.
unfoldable pub zb_zdo_activereq : List (List ℕ) → Outcome
zb_zdo_activereq (name ∷ a ∷ []) =
    only_help a (if addr_valid a 4 then calls (active_endpoint_request (simple_strtoul a)) else err)
zb_zdo_activereq [] = done (some [])
zb_zdo_activereq (name ∷ []) = done (some [])
zb_zdo_activereq (name ∷ a ∷ b ∷ more) = done (some [])

unfoldable pub zb_zdo_nodereq : List (List ℕ) → Outcome
zb_zdo_nodereq (name ∷ a ∷ []) =
    only_help a (if addr_valid a 4 then calls (node_descriptor_request (simple_strtoul a)) else err)
zb_zdo_nodereq [] = done (some [])
zb_zdo_nodereq (name ∷ []) = done (some [])
zb_zdo_nodereq (name ∷ a ∷ b ∷ more) = done (some [])

unfoldable pub zb_zdo_simplereq : List (List ℕ) → Outcome
zb_zdo_simplereq (name ∷ a ∷ []) = only_help a err
zb_zdo_simplereq (name ∷ a ∷ b ∷ []) =
    if addr_valid a 4 && is_a_endpoint b
    then (atoi b >>= λ ep. calls (simple_descriptor_request (simple_strtoul a) (as_byte ep)))
    else err
zb_zdo_simplereq [] = done (some [])
zb_zdo_simplereq (name ∷ []) = done (some [])
zb_zdo_simplereq (name ∷ a ∷ b ∷ c ∷ more) = done (some [])

-- E_RT_SINGLE is 0 and E_RT_EXTENDED 1.
abbrev pub request_type : List ℕ → Option ℕ
request_type c =
    if is_text c single_text then some 0 else if is_text c extended_text then some 1 else none

-- `digits` is 4 for `zb_zdo_ieereq` and 16 for `zb_zdo_nwkreq`.
abbrev pub address_request :
    ℕ → (ℕ → ℕ → ℕ → ℕ → Call) → List ℕ → List ℕ → List ℕ → Option ℕ → Outcome
address_request digits request a b d none = err
address_request digits request a b d (some kind) =
    if addr_valid a 4 && addr_valid b digits
    then (if_up_to 255 d
        (λ index. calls (request (simple_strtoul a) (simple_strtoul b) kind (as_byte index))))
    else err

unfoldable pub zb_zdo_ieereq : List (List ℕ) → Outcome
zb_zdo_ieereq (name ∷ a ∷ []) = only_help a err
zb_zdo_ieereq (name ∷ a ∷ b ∷ c ∷ d ∷ []) =
    address_request 4 ieee_address_request a b d (request_type c)
zb_zdo_ieereq [] = err
zb_zdo_ieereq (name ∷ []) = err
zb_zdo_ieereq (name ∷ a ∷ b ∷ []) = err
zb_zdo_ieereq (name ∷ a ∷ b ∷ c ∷ []) = err
zb_zdo_ieereq (name ∷ a ∷ b ∷ c ∷ d ∷ e ∷ more) = err

unfoldable pub zb_zdo_nwkreq : List (List ℕ) → Outcome
zb_zdo_nwkreq (name ∷ a ∷ []) = only_help a err
zb_zdo_nwkreq (name ∷ a ∷ b ∷ c ∷ d ∷ []) =
    address_request 16 nwk_address_request a b d (request_type c)
zb_zdo_nwkreq [] = err
zb_zdo_nwkreq (name ∷ []) = err
zb_zdo_nwkreq (name ∷ a ∷ b ∷ []) = err
zb_zdo_nwkreq (name ∷ a ∷ b ∷ c ∷ []) = err
zb_zdo_nwkreq (name ∷ a ∷ b ∷ c ∷ d ∷ e ∷ more) = err
