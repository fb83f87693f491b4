-- ===== src/Console/Typed.antt =====
-- Addresses as they are typed, and what the commands of the ZDO send for them.
use dm_matter_zigbee_bridge.Prelude.{
  ℕ, ◌+◌, ◌*◌, ◌<◌, Bool, true, false, ◌==◌, List, [], ◌∷◌, map, ◌≡◌,
}
use dm_matter_zigbee_bridge.Console.{is_xdigit, to_lower, digit_value}

-- The hexadecimal digits, with their values and their ASCII characters.
pub data Digit : Type 0 where
  d0 d1 d2 d3 d4 d5 d6 d7 d8 d9 d10 d11 d12 d13 d14 d15 : Digit

abbrev pub value : Digit → ℕ
value d0 = 0
value d1 = 1
value d2 = 2
value d3 = 3
value d4 = 4
value d5 = 5
value d6 = 6
value d7 = 7
value d8 = 8
value d9 = 9
value d10 = 10
value d11 = 11
value d12 = 12
value d13 = 13
value d14 = 14
value d15 = 15

abbrev pub character : Digit → ℕ
character d0 = 48
character d1 = 49
character d2 = 50
character d3 = 51
character d4 = 52
character d5 = 53
character d6 = 54
character d7 = 55
character d8 = 56
character d9 = 57
character d10 = 97
character d11 = 98
character d12 = 99
character d13 = 100
character d14 = 101
character d15 = 102

abbrev pub typed : List Digit → List ℕ
typed ds = map character ds

-- The number that digits stand for, behind those of `n`.
unfoldable pub number_behind : ℕ → List Digit → ℕ
number_behind n [] = n
number_behind n (d ∷ ds) = number_behind (n * 16 + value d) ds

abbrev pub number : List Digit → ℕ
number ds = number_behind 0 ds

-- "0" and "1".
abbrev pub flag : Bool → List ℕ
flag false = 48 ∷ []
flag true = 49 ∷ []

abbrev pub bit : Bool → ℕ
bit false = 0
bit true = 1

-- A digit is taken by the loops, with its value, and begins neither a prefix nor "--help".
record IsTaken (d : Digit) : Type 0 where
  pub is_x : is_xdigit (character d) ≡ true
  pub value_is : digit_value (character d) ≡ value d
  pub no_prefix : (to_lower (character d) == 120) ≡ false
  pub no_help : (character d == 45) ≡ false
  pub small : value d < 16
