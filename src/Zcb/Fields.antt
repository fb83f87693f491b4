-- ===== src/Zcb/Fields.antt =====
-- The messages' packed structs: their fields in memory after the byte swaps, and how the control
-- bridge reads them.
use dm_matter_zigbee_bridge.Prelude.{
  ℕ, zero, suc, ◌+◌, ◌*◌, ◌^◌, ◌<◌, Option, none, some, List, [], ◌∷◌, ◌++◌, ◌≡◌, refl, arith,
  append_assoc, length, length-append, All,
}
use dm_matter_zigbee_bridge.Prelude.Words.{
  byte, le16, le32, le64, ntohs, ntohl, ntohd, le16-ntohs, le32-ntohl, le64-ntohd, ntohs-le16,
}

-- A field and the value given to it: a byte; a 16, 32 or 64-bit word that is swapped before it is
-- stored; a 16-bit word that is stored as it is; and an array of bytes, which is copied.
pub data Field : Type 0 where
  u8 : ℕ → Field
  u16 : ℕ → Field
  u32 : ℕ → Field
  u64 : ℕ → Field
  raw16 : ℕ → Field
  bytes : List ℕ → Field

abbrev pub stored : Field → List ℕ
stored (u8 v) = byte 0 v ∷ []
stored (u16 v) = le16 (ntohs v)
stored (u32 v) = le32 (ntohl v)
stored (u64 v) = le64 (ntohd v)
stored (raw16 v) = le16 v
stored (bytes b) = b

unfoldable pub encode : List Field → List ℕ
encode [] = []
encode (f ∷ fs) = stored f ++ encode fs

-- Whether a value fits its field.
abbrev pub Fits : Field → Type 0
Fits (u8 v) = v < 256
Fits (u16 v) = v < 256 ^ 2
Fits (u32 v) = v < 256 ^ 4
Fits (u64 v) = v < 256 ^ 8
Fits (raw16 v) = v < 256 ^ 2
Fits (bytes b) = Unit

-- A struct's layout, as the receiver knows it.
pub data Shape : Type 0 where
  word : ℕ → Shape
  array : ℕ → Shape

abbrev pub shape : Field → Shape
shape (u8 v) = word 1
shape (u16 v) = word 2
shape (u32 v) = word 4
shape (u64 v) = word 8
shape (raw16 v) = word 2
shape (bytes b) = array (length b)

abbrev pub shapes : List Field → List Shape
shapes [] = []
shapes (f ∷ fs) = shape f ∷ shapes fs

pub data Value : Type 0 where
  number : ℕ → Value
  data_bytes : List ℕ → Value

abbrev pub value : Field → Value
value (u8 v) = number v
value (u16 v) = number v
value (u32 v) = number v
value (u64 v) = number v
value (raw16 v) = number (ntohs v)
value (bytes b) = data_bytes b

abbrev pub values : List Field → List Value
values [] = []
values (f ∷ fs) = value f ∷ values fs

-- The first `n` bytes as a big-endian number, on top of what was read before.
unfoldable pub big_endian : ℕ → ℕ → List ℕ → Option (ℕ × List ℕ)
big_endian zero acc bs = some (acc, bs)
big_endian (suc n) acc [] = none
big_endian (suc n) acc (b ∷ bs) = big_endian n (acc * 256 + b) bs

unfoldable pub split : ℕ → List ℕ → Option (List ℕ × List ℕ)
split zero bs = some ([], bs)
split (suc n) [] = none
split (suc n) (b ∷ bs) = elim (split n bs) [
  | none ↦ none
  | some (front, rest) ↦ some (b ∷ front, rest)
]

unfoldable pub read_shape : Shape → List ℕ → Option (Value × List ℕ)
read_shape (word n) bs = elim (big_endian n 0 bs) [
  | none ↦ none
  | some (v, rest) ↦ some (number v, rest)
]
read_shape (array n) bs = elim (split n bs) [
  | none ↦ none
  | some (b, rest) ↦ some (data_bytes b, rest)
]

-- How the control bridge reads a message: field by field, words with the highest byte first.
unfoldable pub decode : List Shape → List ℕ → Option (List Value × List ℕ)
decode [] bs = some ([], bs)
decode (s ∷ ss) bs = elim (read_shape s bs) [
  | none ↦ none
  | some (v, rest) ↦ elim (decode ss rest) [ none ↦ none | some (vs, end) ↦ some (v ∷ vs, end) ]
]

split-append : (b rest : List ℕ) → split (length b) (b ++ rest) ≡ some (b, rest)
unfolding split
split-append [] rest = refl
split-append (x ∷ b) rest = rw (split-append b rest)

-- A word whose bytes stand highest first.
read_word :
    (n v : ℕ) (stored_bytes big rest : List ℕ)
    → stored_bytes ≡ big
    → big_endian n 0 (big ++ rest) ≡ some (v, rest)
    → read_shape (word n) (stored_bytes ++ rest) ≡ some (number v, rest)
unfolding read_shape
read_word n v stored_bytes big rest e h = rw e (rw (read_shape, h))

same_number :
    (a b : ℕ) (rest : List ℕ) → a ≡ b → Path (Option (ℕ × List ℕ)) (some (a, rest)) (some (b, rest))
same_number a b rest e = rw e

read_shape-stored :
    (f : Field) (rest : List ℕ)
    → Fits f
    → read_shape (shape f) (stored f ++ rest) ≡ some (value f, rest)
unfolding read_shape big_endian
read_shape-stored (u8 v) rest h =
    read_word 1 v (byte 0 v ∷ []) (byte 0 v ∷ []) rest refl
      (same_number (0 * 256 + byte 0 v) v rest (omega arith))
read_shape-stored (u16 v) rest h =
    let whole : ((0 * 256 + byte 1 v) * 256 + byte 0 v) ≡ v = omega arith in
    read_word 2 v (stored (u16 v)) (byte 1 v ∷ byte 0 v ∷ []) rest (le16-ntohs v)
      (same_number _ v rest whole)
read_shape-stored (u32 v) rest h =
    let whole : ((((0 * 256 + byte 3 v) * 256 + byte 2 v) * 256 + byte 1 v) * 256 + byte 0 v) ≡ v =
      omega arith in
    read_word 4 v (stored (u32 v)) (byte 3 v ∷ byte 2 v ∷ byte 1 v ∷ byte 0 v ∷ []) rest
      (le32-ntohl v) (same_number _ v rest whole)
read_shape-stored (u64 v) rest h =
    let whole : ((((((((0 * 256 + byte 7 v) * 256 + byte 6 v) * 256 + byte 5 v) * 256 + byte 4 v)
                        * 256
                      + byte 3 v)
                    * 256
                  + byte 2 v)
                * 256
              + byte 1 v)
            * 256
          + byte 0 v)
        ≡ v =
      omega arith in
    read_word 8 v (stored (u64 v))
      (byte 7 v ∷ byte 6 v ∷ byte 5 v ∷ byte 4 v ∷ byte 3 v ∷ byte 2 v ∷ byte 1 v ∷ byte 0 v ∷ [])
      rest (le64-ntohd v) (same_number _ v rest whole)
read_shape-stored (raw16 v) rest h =
    read_word 2 (ntohs v) (le16 v) (le16 v) rest refl (same_number _ (ntohs v) rest (ntohs-le16 v))
read_shape-stored (bytes b) rest h = rw (read_shape, split-append b rest)

-- The control bridge reads from a message exactly the values that the caller put into it, word by
-- word, when each fits its field: a swapped word as it is, one that is not swapped with its two
-- bytes exchanged. What follows the struct is left.
pub decode-encode :
    (fields : List Field) (rest : List ℕ)
    → All Fits fields
    → decode (shapes fields) (encode fields ++ rest) ≡ some (values fields, rest)
unfolding decode encode
decode-encode [] rest h = refl
decode-encode (f ∷ fs) rest h = rw (append_assoc (stored f) (encode fs) rest) (
    rw (decode, read_shape-stored f (encode fs ++ rest) h.0)
      (rw (decode, decode-encode fs rest h.1)))

abbrev pub size : Field → ℕ
size (u8 v) = 1
size (u16 v) = 2
size (u32 v) = 4
size (u64 v) = 8
size (raw16 v) = 2
size (bytes b) = length b

-- `sizeof` of a packed struct.
abbrev pub sizes : List Field → ℕ
sizes [] = 0
sizes (f ∷ fs) = size f + sizes fs

length-stored : (f : Field) → length (stored f) ≡ size f
length-stored (u8 v) = refl
length-stored (u16 v) = refl
length-stored (u32 v) = refl
length-stored (u64 v) = refl
length-stored (raw16 v) = refl
length-stored (bytes b) = refl

pub length-encode : (fields : List Field) → length (encode fields) ≡ sizes fields
unfolding encode
length-encode [] = refl
length-encode (f ∷ fs) =
    omega (arith, length-append (stored f) (encode fs), length-stored f, length-encode fs)
