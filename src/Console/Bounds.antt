-- ===== src/Console/Bounds.antt =====
-- What the checks of addresses and endpoints promise.
use native.Mathlib.Nat.{pow-suc}
use dm_matter_zigbee_bridge.Prelude.{
  ℕ, zero, suc, ◌+◌, ◌-◌, ◌*◌, ◌%◌, ◌^◌, ◌<◌, ◌≤◌, Bool, true, false, Bool-cases, ◌&&◌, List, [],
  ◌∷◌, length, ltb, ltb→lt, leb, ◌≡◌, refl, subst, inl, inr, arith,
}
use dm_matter_zigbee_bridge.Console.{
  is_xdigit, skip_prefix, all_xdigits, addr_valid, digit_value, hex_loop, simple_strtoul,
}

pub and_left : (a b : Bool) → (a && b) ≡ true → a ≡ true
and_left true b h = refl
and_left false b h = h

pub and_right : (a b : Bool) → (a && b) ≡ true → b ≡ true
and_right true b h = h
and_right false b h = absurd (wrong h)
  where
    wrong : false ≡ true → ⊥
    wrong p = cc

pub leb_le : (a b : ℕ) → leb a b ≡ true → a ≤ b
leb_le a b h = ground arith

-- More digits, a greater bound.
pub pow_grows : (k n : ℕ) → 16 ^ k ≤ 16 ^ (k + n)
pow_grows k zero =
    let same : k ≡ k + 0 = omega arith in
    let itself : 16 ^ k ≤ 16 ^ k = omega arith in subst (λ i. 16 ^ k ≤ 16 ^ i) same itself
pow_grows k (suc n) =
    let e = pow-suc 16 (k + n) in
    let h = pow_grows k n in
    let bigger : 16 ^ k ≤ 16 ^ suc (k + n) = omega (arith, e, h) in
    let same : suc (k + n) ≡ k + suc n = omega arith in subst (λ i. 16 ^ k ≤ 16 ^ i) same bigger

next_digit : (result k v : ℕ) → result < 16 ^ k → v < 16 → (result * 16 + v) % 2 ^ 64 < 16 ^ suc k
next_digit result k v h small = omega (arith, pow-suc 16 k, h, small)

-- Both outcomes of the loop's test stay below the bound.
hex_loop-bound :
    (s : List ℕ) (result k : ℕ) → result < 16 ^ k → hex_loop s result < 16 ^ (k + length s)
unfolding hex_loop
hex_loop-bound [] result k h =
    let same : k ≡ k + 0 = omega arith in subst (λ i. result < 16 ^ i) same h
hex_loop-bound (c ∷ s) result k h = elim (Bool-cases (is_xdigit c && ltb (digit_value c) 16)) [
  | inl y ↦
      let small : digit_value c < 16 = ltb→lt (digit_value c) 16 (and_right (is_xdigit c) _ y) in
      let same : suc k + length s ≡ k + suc (length s) = omega arith in
      rw y (
        subst (λ i. hex_loop s ((result * 16 + digit_value c) % 2 ^ 64) < 16 ^ i) same
          (hex_loop-bound s ((result * 16 + digit_value c) % 2 ^ 64) (suc k)
            (next_digit result k (digit_value c) h small)))
  | inr n ↦ rw n (omega (arith, h, pow_grows k (suc (length s))))
]

-- A string that passes the check for so many digits is read as a number of so many.
pub simple_strtoul-bound :
    (s : List ℕ) (base : ℕ) → addr_valid s base ≡ true → simple_strtoul s < 16 ^ base
unfolding addr_valid simple_strtoul
simple_strtoul-bound s base valid =
    let n = length (skip_prefix s) in
    let short : n ≤ base = leb_le n base (and_right (all_xdigits (skip_prefix s)) _ valid) in
    let least : hex_loop (skip_prefix s) 0 < 16 ^ (0 + n) =
      hex_loop-bound (skip_prefix s) 0 0 (omega arith) in
    let same : (0 + n) + (base - n) ≡ base = omega (arith, short) in
    let grows : 16 ^ (0 + n) ≤ 16 ^ base =
      subst (λ i. 16 ^ (0 + n) ≤ 16 ^ i) same (pow_grows (0 + n) (base - n)) in
    omega (arith, least, grows)
