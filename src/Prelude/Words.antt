-- ===== src/Prelude/Words.antt =====
-- Words in memory: the bytes of a packed little-endian field, and the byte swaps `pri_ntohs`,
-- `pri_ntohl` and `pri_ntohd` of SerialLink.h.
use Prim.Native.Nat.{ℕ, zero, suc, ◌+◌, ◌*◌, ◌/◌, ◌%◌, ◌^◌, ◌<◌}
use mathlib.Core.List.{List, [], ◌∷◌, ◌++◌}
use mathlib.Core.Path.{◌≡◌}
use native.Mathlib.Omega.{arith}

-- Byte `i` of a word, from the lowest.
abbrev pub byte : ℕ → ℕ → ℕ
byte i x = x / 256 ^ i % 256

abbrev pub le16 : ℕ → List ℕ
le16 x = byte 0 x ∷ byte 1 x ∷ []

abbrev pub le32 : ℕ → List ℕ
le32 x = byte 0 x ∷ byte 1 x ∷ byte 2 x ∷ byte 3 x ∷ []

abbrev pub le64 : ℕ → List ℕ
le64 x = le32 x ++ (byte 4 x ∷ byte 5 x ∷ byte 6 x ∷ byte 7 x ∷ [])

unfoldable pub ntohs : ℕ → ℕ
ntohs x = byte 0 x * 256 + byte 1 x

unfoldable pub ntohl : ℕ → ℕ
ntohl x = byte 0 x * 256 ^ 3 + byte 1 x * 256 ^ 2 + byte 2 x * 256 + byte 3 x

unfoldable pub ntohd : ℕ → ℕ
ntohd x =
    byte 0 x * 256 ^ 7
    + byte 1 x * 256 ^ 6
    + byte 2 x * 256 ^ 5
    + byte 3 x * 256 ^ 4
    + byte 4 x * 256 ^ 3
    + byte 5 x * 256 ^ 2
    + byte 6 x * 256
    + byte 7 x

-- A little-endian number of `n` bytes at the front of a list.
unfoldable pub little_endian : ℕ → List ℕ → ℕ
little_endian zero bs = 0
little_endian (suc n) [] = 0
little_endian (suc n) (b ∷ bs) = b + 256 * little_endian n bs

-- A swapped field stands in memory with its highest byte first.
pub le16-ntohs : (x : ℕ) → le16 (ntohs x) ≡ byte 1 x ∷ byte 0 x ∷ []
unfolding ntohs
le16-ntohs x = ground arith

pub le32-ntohl : (x : ℕ) → le32 (ntohl x) ≡ byte 3 x ∷ byte 2 x ∷ byte 1 x ∷ byte 0 x ∷ []
unfolding ntohl
le32-ntohl x = ground arith

ntohd-byte0 : (x : ℕ) → byte 0 (ntohd x) ≡ byte 7 x
unfolding ntohd
ntohd-byte0 x = omega arith

ntohd-byte1 : (x : ℕ) → byte 1 (ntohd x) ≡ byte 6 x
unfolding ntohd
ntohd-byte1 x = omega arith

ntohd-byte2 : (x : ℕ) → byte 2 (ntohd x) ≡ byte 5 x
unfolding ntohd
ntohd-byte2 x = omega arith

ntohd-byte3 : (x : ℕ) → byte 3 (ntohd x) ≡ byte 4 x
unfolding ntohd
ntohd-byte3 x = omega arith

ntohd-byte4 : (x : ℕ) → byte 4 (ntohd x) ≡ byte 3 x
unfolding ntohd
ntohd-byte4 x = omega arith

ntohd-byte5 : (x : ℕ) → byte 5 (ntohd x) ≡ byte 2 x
unfolding ntohd
ntohd-byte5 x = omega arith

ntohd-byte6 : (x : ℕ) → byte 6 (ntohd x) ≡ byte 1 x
unfolding ntohd
ntohd-byte6 x = omega arith

ntohd-byte7 : (x : ℕ) → byte 7 (ntohd x) ≡ byte 0 x
unfolding ntohd
ntohd-byte7 x = omega arith

pub le64-ntohd :
    (x : ℕ)
    → le64 (ntohd x)
      ≡ byte 7 x ∷ byte 6 x ∷ byte 5 x ∷ byte 4 x ∷ byte 3 x ∷ byte 2 x ∷ byte 1 x ∷ byte 0 x ∷ []
le64-ntohd x = rw (
  ntohd-byte0 x,
  ntohd-byte1 x,
  ntohd-byte2 x,
  ntohd-byte3 x,
  ntohd-byte4 x,
  ntohd-byte5 x,
  ntohd-byte6 x,
  ntohd-byte7 x,
)

-- A word that is not swapped, read with the highest byte first.
pub ntohs-le16 : (x : ℕ) → (0 * 256 + byte 0 x) * 256 + byte 1 x ≡ ntohs x
unfolding ntohs
ntohs-le16 x = omega arith

-- A little-endian load of four bytes, swapped, has the first byte highest.
pub ntohl-le32 :
    (a b c d : ℕ)
    → a < 256
    → b < 256
    → c < 256
    → d < 256
    → ntohl (a + 256 * (b + 256 * (c + 256 * (d + 256 * 0)))) ≡ ((a * 256 + b) * 256 + c) * 256 + d
unfolding ntohl
ntohl-le32 a b c d ha hb hc hd = omega arith

-- A little-endian load of two bytes, swapped, has the first byte higher.
pub ntohs-le : (a b : ℕ) → a < 256 → b < 256 → ntohs (a + 256 * (b + 256 * 0)) ≡ a * 256 + b
unfolding ntohs
ntohs-le a b ha hb = omega arith

-- A little-endian load of eight bytes, swapped, has the first byte highest.
pub ntohd-le64 :
    (a b c d e f g h : ℕ)
    → a < 256
    → b < 256
    → c < 256
    → d < 256
    → e < 256
    → f < 256
    → g < 256
    → h < 256
    → ntohd (
        a
        + 256
          * (b + 256 * (c + 256 * (d + 256 * (e + 256 * (f + 256 * (g + 256 * (h + 256 * 0))))))))
      ≡ ((((((a * 256 + b) * 256 + c) * 256 + d) * 256 + e) * 256 + f) * 256 + g) * 256 + h
unfolding ntohd
ntohd-le64 a b c d e f g h ha hb hc hd he hf hg hh = omega arith

pub ntohs-byte : (x : ℕ) → x < 256 → ntohs x ≡ 256 * x
unfolding ntohs
ntohs-byte x h = omega arith
