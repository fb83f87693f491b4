-- ===== src/Link/Frame/Checksum.antt =====
-- What `u8SL_CalculateCRC` computes, where it ends, and which changes it detects.
use dm_matter_zigbee_bridge.Prelude.{
  ℕ, zero, suc, ◌+◌, ◌%◌, ◌≤◌, ◌<◌, bit_xor, List, [], ◌∷◌, ◌≡◌, ◌≢◌, arith, length, length-set,
  get_elem?, set, take, take-length, drop, Run, sym, ap, get_elem?-drop, le→ltb, done, All,
  Option-cases, some, inl, inr, ◌∙◌,
}
use dm_matter_zigbee_bridge.Prelude.Bits.{bit_xor-injective, bit_xor_comm, bit_xor-byte}
use dm_matter_zigbee_bridge.Link.Frame.{crc_loop, header_crc, calculate_crc}

-- The exclusive or of a start value and all bytes.
unfoldable pub xor_all : ℕ → List ℕ → ℕ
xor_all crc [] = crc
xor_all crc (x ∷ xs) = xor_all (bit_xor crc x) xs

-- The checksum that the link protocol gives a message.
unfoldable pub checksum : ℕ → List ℕ → ℕ
checksum type payload = xor_all (header_crc type (length payload)) payload

crc_loop-xor_all :
    (k fuel : ℕ) (bytes : List ℕ) (len n crc : ℕ)
    → n + k ≡ len
    → len < 256
    → len ≤ length bytes
    → k < fuel
    → crc_loop fuel bytes len n crc ≡ done (xor_all crc (take k (drop n bytes)))
unfolding crc_loop xor_all
crc_loop-xor_all k zero bytes len n crc e lt le f = absurd (omega arith)
crc_loop-xor_all zero (suc fuel) bytes len n crc e lt le f = rw (le→ltb n len (omega arith))
crc_loop-xor_all (suc k) (suc fuel) bytes len n crc e lt le f =
    let (x, at, rest) = get_elem?-drop n bytes (omega arith) in
    let step : (n + 1) % 256 ≡ suc n = omega arith in
    ground (
      arith,
      crc_loop-xor_all k fuel bytes len (suc n) (bit_xor crc x) (omega arith) lt le (omega arith),
    )

-- u8SL_CalculateCRC returns on every length below 256 that its array has: the exclusive or of the
-- header's bytes and of as many bytes as the length says.
pub calculate_crc-xor_all :
    (type len : ℕ) (bytes : List ℕ)
    → len < 256
    → len ≤ length bytes
    → calculate_crc type len bytes ≡ done (xor_all (header_crc type len) (take len bytes))
unfolding calculate_crc
calculate_crc-xor_all type len bytes lt le =
    crc_loop-xor_all len 256 bytes len 0 (header_crc type len) (omega arith) lt le lt

-- Of a payload at the front of an array it is the checksum.
pub calculate_crc-checksum :
    (type : ℕ) (payload bytes : List ℕ)
    → take (length payload) bytes ≡ payload
    → length payload ≤ length bytes
    → length payload < 256
    → calculate_crc type (length payload) bytes ≡ done (checksum type payload)
unfolding checksum
calculate_crc-checksum type payload bytes e le lt =
    rw (calculate_crc-xor_all type (length payload) bytes lt le, e)

-- With a length from 256 on the loop of u8SL_CalculateCRC never comes to its end, however long it
-- runs and whatever the bytes are: its counter wraps before it reaches the length.
pub crc_loop_endless :
    (fuel : ℕ) (bytes : List ℕ) (len n crc c : ℕ)
    → 256 ≤ len
    → n < 256
    → crc_loop fuel bytes len n crc ≢ done c
unfolding crc_loop
crc_loop_endless zero bytes len n crc c le lt = λ e. cc
crc_loop_endless (suc fuel) bytes len n crc c le lt = elim (Option-cases (get_elem? bytes n)) [
  | inl e ↦ λ h. ground arith
  | inr (x, e) ↦
      let ih = crc_loop_endless fuel bytes len ((n + 1) % 256) (bit_xor crc x) c le (omega arith) in
      λ h. ground (arith, ih)
]

pub xor_all-byte :
    (crc : ℕ) (xs : List ℕ) → crc < 256 → All (λ x. x < 256) xs → xor_all crc xs < 256
unfolding xor_all
xor_all-byte crc [] h b = h
xor_all-byte crc (x ∷ xs) h b = xor_all-byte (bit_xor crc x) xs (bit_xor-byte crc x h b.0) b.1

xor_all-injective : (a b : ℕ) (xs : List ℕ) → xor_all a xs ≡ xor_all b xs → a ≡ b
unfolding xor_all
xor_all-injective a b [] h = h
xor_all-injective a b (x ∷ xs) h =
    bit_xor-injective a b x (xor_all-injective (bit_xor a x) (bit_xor b x) xs h)

xor_all-set :
    (crc : ℕ) (xs : List ℕ) (i v x : ℕ)
    → get_elem? xs i ≡ some x
    → xor_all crc (set xs i v) ≡ xor_all crc xs
    → v ≡ x
unfolding xor_all
xor_all-set crc [] i v x at h = cc
xor_all-set crc (y ∷ xs) zero v x at h =
    let same = xor_all-injective (bit_xor crc v) (bit_xor crc y) xs h in
    let swapped : bit_xor v crc ≡ bit_xor y crc = bit_xor_comm v crc ∙ same ∙ bit_xor_comm crc y in
    cc (bit_xor-injective v y crc swapped)
xor_all-set crc (y ∷ xs) (suc i) v x at h = xor_all-set (bit_xor crc y) xs i v x at h

checksum-set :
    (type : ℕ) (payload : List ℕ) (i v x : ℕ)
    → get_elem? payload i ≡ some x
    → checksum type (set payload i v) ≡ checksum type payload
    → v ≡ x
unfolding checksum
checksum-set type payload i v x at h =
    xor_all-set (header_crc type (length payload)) payload i v x at (rw length-set at h)

abbrev done_value : Run ℕ → ℕ
done_value (done v) = v
done_value _ = 0

done-injective : (a b : ℕ) → done a ≡ done b → a ≡ b
done-injective a b h = ap done_value h

-- u8SL_CalculateCRC detects every change of a single payload byte: for a payload of less than 256
-- bytes with the byte at i replaced it returns the same only if the new byte is the old one.
pub calculate_crc-set :
    (type : ℕ) (payload : List ℕ) (i v x : ℕ)
    → length payload < 256
    → get_elem? payload i ≡ some x
    → calculate_crc type (length payload) (set payload i v)
      ≡ calculate_crc type (length payload) payload
    → v ≡ x
calculate_crc-set type payload i v x lt at h =
    let changed = set payload i v in
    let sized = length-set payload i v in
    let short : length changed < 256 = omega arith in
    let one : calculate_crc type (length payload) changed ≡ done (checksum type changed) =
      rw sized at
        (calculate_crc-checksum type changed changed (take-length changed) (omega arith) short) in
    let two = calculate_crc-checksum type payload payload (take-length payload) (omega arith) lt in
    checksum-set type payload i v x at (done-injective _ _ (sym one ∙ h ∙ two))
