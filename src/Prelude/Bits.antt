-- ===== src/Prelude/Bits.antt =====
-- Facts about the bit operations of C on the native numbers: the law of exclusive or for the
-- lowest digit, and what follows from it for bytes.
use Prim.Native.Nat.{
  ℕ, zero, suc, ◌+◌, ◌*◌, ◌/◌, ◌%◌, ◌^◌, ◌≤◌, ◌<◌, bit_xor, digits, differ, bit_xor-bitwise,
}
use mathlib.Core.Path.{◌≡◌, refl, sym, ◌∙◌}
use mathlib.Core.Logic.{◌⊎◌, inl, inr}
use native.Mathlib.Nat.{pow-suc}
use native.Mathlib.Omega.{arith}

abbrev xor_digits : ℕ → ℕ → ℕ → ℕ
xor_digits count a b = digits (λ y. y) differ count a b

xor_digits-zero : (count b : ℕ) → xor_digits count 0 b ≡ b
xor_digits-zero zero b = refl
xor_digits-zero (suc count) b = refl

-- Any count of digits that is no less than the number gives the same.
enough_digits : (c d a b : ℕ) → a ≤ c → a ≤ d → xor_digits c a b ≡ xor_digits d a b
enough_digits c d zero b p q = xor_digits-zero c b ∙ sym (xor_digits-zero d b)
enough_digits zero d (suc a) b p q = absurd (omega arith)
enough_digits (suc c) zero (suc a) b p q = absurd (omega arith)
enough_digits (suc c) (suc d) (suc a) b p q =
    rw (enough_digits c d (suc a / 2) (b / 2) (omega arith) (omega arith))

zero-bit_xor : (b : ℕ) → bit_xor 0 b ≡ b
zero-bit_xor b = bit_xor-bitwise 0 b

bit_of_mod : (a : ℕ) → (a % 2 ≡ 0) ⊎ (a % 2 ≡ 1)
bit_of_mod a = ground arith

differ-mod : (a b : ℕ) → differ (a % 2) (b % 2) ≡ (a + b) % 2
differ-mod a b = elim (bit_of_mod a) [
  | inl p ↦ rw p (omega arith)
  | inr p ↦ elim (bit_of_mod b) [
    | inl q ↦ rw (p, q) (omega arith)
    | inr q ↦ rw (p, q) (omega arith)
  ]
]

pub bit_xor_step : (a b : ℕ) → bit_xor a b ≡ bit_xor (a / 2) (b / 2) * 2 + (a + b) % 2
bit_xor_step zero b = simp zero-bit_xor (omega arith)
bit_xor_step (suc a) b =
    let half = suc a / 2 in
    let same = enough_digits a half half (b / 2) (omega arith) (omega arith) in
    omega
      (arith, same, differ-mod (suc a) b, bit_xor-bitwise half (b / 2), bit_xor-bitwise (suc a) b)

-- A digit more of room is a digit more of result.
bit_xor-lt : (k a b : ℕ) → a < 2 ^ k → b < 2 ^ k → bit_xor a b < 2 ^ k
bit_xor-lt zero zero b p q = omega (arith, zero-bit_xor b)
bit_xor-lt zero (suc a) b p q = absurd (omega arith)
bit_xor-lt (suc k) a b p q =
    let e = pow-suc 2 k in
    omega (arith, bit_xor_step a b, bit_xor-lt k (a / 2) (b / 2) (omega arith) (omega arith))

-- The exclusive or of two bytes is a byte.
pub bit_xor-byte : (a b : ℕ) → a < 256 → b < 256 → bit_xor a b < 256
bit_xor-byte a b = bit_xor-lt 8 a b

xor_cancel_right : (n a b c : ℕ) → a ≤ n → b ≤ n → bit_xor a c ≡ bit_xor b c → a ≡ b
xor_cancel_right zero a b c p q h = omega arith
xor_cancel_right (suc n) a b c p q h =
    let s = bit_xor_step a c in
    let t = bit_xor_step b c in
    let ih = xor_cancel_right n (a / 2) (b / 2) (c / 2) (omega arith) (omega arith) (omega arith) in
    omega arith

-- No two values give the same exclusive or with a third one.
pub bit_xor-injective : (a b c : ℕ) → bit_xor a c ≡ bit_xor b c → a ≡ b
bit_xor-injective a b c = xor_cancel_right (a + b) a b c (omega arith) (omega arith)

xor_comm_fuel : (n a b : ℕ) → a ≤ n → b ≤ n → bit_xor a b ≡ bit_xor b a
xor_comm_fuel zero zero zero p q = refl
xor_comm_fuel zero zero (suc b) p q = absurd (omega arith)
xor_comm_fuel zero (suc a) b p q = absurd (omega arith)
xor_comm_fuel (suc n) a b p q = omega (
  arith,
  bit_xor_step a b,
  bit_xor_step b a,
  xor_comm_fuel n (a / 2) (b / 2) (omega arith) (omega arith),
)

pub bit_xor_comm : (a b : ℕ) → bit_xor a b ≡ bit_xor b a
bit_xor_comm a b = xor_comm_fuel (a + b) a b (omega arith) (omega arith)

bit_xor_sixteen_there : (b : ℕ) → b < 16 → bit_xor b 16 ≡ b + 16
bit_xor_sixteen_there b h =
    let top : b / 2 / 2 / 2 / 2 ≡ 0 = omega arith in
    let high : bit_xor (b / 2 / 2 / 2 / 2) 1 ≡ 1 = rw top (zero-bit_xor 1) in
    omega (
      arith,
      high,
      bit_xor_step b 16,
      bit_xor_step (b / 2) 8,
      bit_xor_step (b / 2 / 2) 4,
      bit_xor_step (b / 2 / 2 / 2) 2,
    )

-- Flipping bit 4 of a byte below 16 adds 16, and flipping it again takes that away.
pub bit_xor_sixteen : (b : ℕ) → b < 16 → (bit_xor b 16 ≡ b + 16) × (bit_xor (b + 16) 16 ≡ b)
bit_xor_sixteen b h =
    let x = b + 16 in
    let top : x / 2 / 2 / 2 / 2 ≡ 1 = omega arith in
    let high : bit_xor (x / 2 / 2 / 2 / 2) 1 ≡ 0 = rw top refl in
    (
      bit_xor_sixteen_there b h,
      omega (
        arith,
        high,
        bit_xor_step x 16,
        bit_xor_step (x / 2) 8,
        bit_xor_step (x / 2 / 2) 4,
        bit_xor_step (x / 2 / 2 / 2) 2,
      ),
    )
