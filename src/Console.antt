-- ===== src/Console.antt =====
-- The command line of the bridge, zigbee_bridge/rt/rw61x/ZCB/zigbee_cmd.c: reading addresses,
-- endpoints and numbers. A string is the list of its characters, without the final 0.
pub mod Bounds
pub mod Commands
pub mod Level
pub mod Checked
pub mod Sent
pub mod Typed
mod Tests
use dm_matter_zigbee_bridge.Prelude.{
  ℕ, ◌+◌, ◌-◌, ◌*◌, ◌%◌, ◌^◌, bit_or, Bool, true, false, not, ◌&&◌, ◌||◌, Option, none, some, List,
  [], ◌∷◌, length, ltb, leb, ◌==◌, if◌then◌else◌, Run, done, fault, ◌>>=◌,
}

-- `isdigit`, `isxdigit` and TOLOWER.
abbrev pub is_digit : ℕ → Bool
is_digit c = leb 48 c && leb c 57

abbrev pub is_xdigit : ℕ → Bool
is_xdigit c = is_digit c || (leb 65 c && leb c 70) || (leb 97 c && leb c 102)

abbrev pub to_lower : ℕ → ℕ
to_lower c = bit_or c 32

-- `if (cp[0] == '0' && TOLOWER(cp[1]) == 'x') cp += 2`.
abbrev pub is_hex_prefix : ℕ → ℕ → Bool
is_hex_prefix c d = c == 48 && to_lower d == 120

abbrev pub skip_prefix : List ℕ → List ℕ
skip_prefix [] = []
skip_prefix (c ∷ []) = c ∷ []
skip_prefix (c ∷ d ∷ s) = if is_hex_prefix c d then s else c ∷ d ∷ s

abbrev pub all_xdigits : List ℕ → Bool
all_xdigits [] = true
all_xdigits (c ∷ s) = is_xdigit c && all_xdigits s

unfoldable pub addr_valid : List ℕ → ℕ → Bool
addr_valid s base = all_xdigits (skip_prefix s) && leb (length (skip_prefix s)) base

-- The loop of `is_a_endpoint`, with its 64 bits.
unfoldable pub endpoint_loop : List ℕ → ℕ → Option ℕ
endpoint_loop [] result = some result
endpoint_loop (c ∷ s) result =
    let rest = endpoint_loop s ((result * 10 + (c - 48)) % 2 ^ 64) in
    if is_digit c then rest else none

unfoldable pub is_a_endpoint : List ℕ → Bool
is_a_endpoint s = elim (endpoint_loop s 0) [ none ↦ false | some n ↦ ltb 0 n && leb n 240 ]

-- The value of a digit, and the loop of `simple_strtoul` for the base 16.
abbrev pub digit_value : ℕ → ℕ
digit_value c = if is_digit c then c - 48 else (to_lower c - 97) + 10

unfoldable pub hex_loop : List ℕ → ℕ → ℕ
hex_loop [] result = result
hex_loop (c ∷ s) result =
    let rest = hex_loop s ((result * 16 + digit_value c) % 2 ^ 64) in
    if is_xdigit c && ltb (digit_value c) 16 then rest else result

-- `simple_strtoul(cp, NULL, 16)`, as all callers use it. For the strings that `addr_valid` lets through
-- with four digits `strtol(cp, NULL, 16)` gives the same.
unfoldable pub simple_strtoul : List ℕ → ℕ
simple_strtoul s = hex_loop (skip_prefix s) 0

-- `atoi`: white space, a sign, digits. A number that is no `int` leaves the result undefined.
pub record Number : Type 0 where
  pub negative : Bool
  pub size : ℕ

abbrev pub is_space : ℕ → Bool
is_space c = c == 32 || (leb 9 c && leb c 13)

unfoldable pub skip_spaces : List ℕ → List ℕ
skip_spaces [] = []
skip_spaces (c ∷ s) = if is_space c then skip_spaces s else c ∷ s

unfoldable pub decimal_loop : List ℕ → ℕ → ℕ
decimal_loop [] result = result
decimal_loop (c ∷ s) result =
    let rest = decimal_loop s (result * 10 + (c - 48)) in if is_digit c then rest else result

abbrev pub in_int : Bool → ℕ → Run Number
in_int negative n =
    if leb n 2147483647 then done (record { negative = negative; size = n }) else fault

abbrev pub signed : List ℕ → Run Number
signed [] = in_int false 0
signed (c ∷ s) =
    if c == 45
    then in_int true (decimal_loop s 0)
    else if c == 43
    then in_int false (decimal_loop s 0)
    else in_int false (decimal_loop (c ∷ s) 0)

unfoldable pub atoi : List ℕ → Run Number
atoi s = signed (skip_spaces s)

-- `atoi(x) >= 0 && atoi(x) <= max`.
abbrev pub is_up_to : ℕ → Number → Bool
is_up_to max n = (not n.negative || n.size == 0) && leb n.size max

-- The number as a `uint8_t`, and as a `uint16_t`.
abbrev pub as_byte : Number → ℕ
as_byte n = if n.negative then (256 - n.size % 256) % 256 else n.size % 256

abbrev pub as_half : Number → ℕ
as_half n = if n.negative then (65536 - n.size % 65536) % 65536 else n.size % 65536
