-- ===== src/Link/Frame/Layout.antt =====
-- The layout of a frame on the wire, and `eSL_WriteMessage` against it.
use dm_matter_zigbee_bridge.Prelude.{
  ℕ, zero, suc, ◌+◌, ◌%◌, ◌<◌, bit_xor, true, false, List, [], ◌∷◌, ◌++◌, ◌≡◌, refl, ap, ◌∙◌, arith,
  append_assoc, append-nil, length, length-append, length-set, set, take, take-set, length-take,
  take-length, drop, get_elem?-drop, ltb, le→ltb, if◌then◌else◌, Bool-cases, inl, inr, done,
}
use dm_matter_zigbee_bridge.Link.{start_char, esc_char, end_char, ok}
use dm_matter_zigbee_bridge.Link.Frame.{
  low_byte, high_byte, TxBuffer, put, load_byte, payload_loop, load_header, write_message,
}
use dm_matter_zigbee_bridge.Link.Frame.Checksum.{checksum, calculate_crc-checksum}

-- A byte below 0x10 stands on the wire as the escape character and the byte with bit 4 flipped.
unfoldable pub escaped : ℕ → List ℕ
escaped b = if ltb b 0x10 then esc_char ∷ bit_xor b 0x10 ∷ [] else b ∷ []

unfoldable pub escaped_all : List ℕ → List ℕ
escaped_all [] = []
escaped_all (b ∷ bytes) = escaped b ++ escaped_all bytes

abbrev pub header : ℕ → ℕ → ℕ → List ℕ
header type len crc = high_byte type ∷ low_byte type ∷ high_byte len ∷ low_byte len ∷ crc ∷ []

-- START, the escaped type, length, checksum and payload, END.
unfoldable pub frame : ℕ → List ℕ → List ℕ
frame type payload =
    start_char
    ∷ (escaped_all (header type (length payload) (checksum type payload))
        ++ (escaped_all payload ++ (end_char ∷ [])))

-- The buffer has taken exactly `out`: the index is its length, up to the wrap of `uint8_t`, and
-- as long as that has not wrapped the bytes up to the index are `out`.
record Holds (tx : TxBuffer) (out : List ℕ) : Type 0 where
  room : length tx.bytes ≡ 256
  index_at : tx.index ≡ length out % 256
  content : length out < 256 → take (length out) tx.bytes ≡ out

put-content :
    (b : ℕ) (tx : TxBuffer) (out : List ℕ)
    → Holds tx out
    → length (out ++ (b ∷ [])) < 256
    → take (length (out ++ (b ∷ []))) (set tx.bytes tx.index b) ≡ out ++ (b ∷ [])
put-content b tx out h lt =
    let n = length-append out (b ∷ []) in
    let len : length (out ++ (b ∷ [])) ≡ suc (length out) = omega arith in
    let at : tx.index ≡ length out = omega (arith, h.index_at) in
    rw (len, at, take-set (length out) tx.bytes b (omega (arith, h.room)))
      (ap (λ (t : List ℕ). t ++ (b ∷ [])) (h.content (omega arith)))

put-Holds :
    (b : ℕ) (tx : TxBuffer) (out : List ℕ) → Holds tx out → Holds (put b tx) (out ++ (b ∷ []))
put-Holds b tx out h = record {
  room = length-set tx.bytes tx.index b ∙ h.room;
  index_at = omega (arith, h.index_at, length-append out (b ∷ []));
  content = put-content b tx out h;
}

load_byte-Holds :
    (b : ℕ) (tx : TxBuffer) (out : List ℕ)
    → Holds tx out
    → Holds (load_byte false b tx) (out ++ escaped b)
unfolding load_byte escaped
load_byte-Holds b tx out h = elim (Bool-cases (ltb b 0x10)) [
  | inl low ↦
      rw (low, ← append_assoc out (esc_char ∷ []) (bit_xor b 0x10 ∷ []))
        (put-Holds (bit_xor b 0x10) (put esc_char tx) (out ++ (esc_char ∷ []))
          (put-Holds esc_char tx out h))
  | inr high ↦ rw high (put-Holds b tx out h)
]

payload_loop-Holds :
    (rest : List ℕ) (fuel : ℕ) (bytes : List ℕ) (n : ℕ) (tx : TxBuffer) (out : List ℕ)
    → drop n bytes ≡ rest
    → n + length rest ≡ length bytes
    → length bytes < 256
    → length rest < fuel
    → Holds tx out
    → (tx' : TxBuffer) × (payload_loop fuel bytes (length bytes) n tx ≡ done tx')
      × Holds tx' (out ++ escaped_all rest)
unfolding payload_loop escaped_all
payload_loop-Holds rest zero bytes n tx out d e lt f h = absurd (omega arith)
payload_loop-Holds [] (suc fuel) bytes n tx out d e lt f h =
    (tx, rw (le→ltb n (length bytes) (omega arith)), rw append-nil h)
payload_loop-Holds (x ∷ rest) (suc fuel) bytes n tx out d e lt f h =
    let (y, at, tail) = get_elem?-drop n bytes (omega arith) in
    let step : (n + 1) % 256 ≡ suc n = omega arith in
    let same : (y ≡ x) × (drop (suc n) bytes ≡ rest) = ground (arith, tail, d) in
    let (tx', run, held) =
      payload_loop-Holds rest fuel bytes (suc n) (load_byte false x tx) (out ++ escaped x) same.1
        (omega arith) lt (omega arith) (load_byte-Holds x tx out h) in
    (tx', ground (arith, run, same.0), rw append_assoc at held)

Holds-short :
    (tx : TxBuffer) (out : List ℕ) → Holds tx out → length out < 256 → take tx.index tx.bytes ≡ out
Holds-short tx out h lt =
    let at : tx.index ≡ length out = omega (arith, h.index_at) in rw at (h.content lt)

load_byte-special : (b : ℕ) (tx : TxBuffer) → load_byte true b tx ≡ put b tx
unfolding load_byte
load_byte-special b tx = refl

load_header-Holds :
    (type len crc : ℕ) (tx : TxBuffer)
    → length tx.bytes ≡ 256
    → tx.index ≡ 0
    → Holds (load_header type len crc tx) (start_char ∷ escaped_all (header type len crc))
unfolding load_header escaped_all
load_header-Holds type len crc tx room at =
    let h0 : Holds tx [] = record {
      room = room;
      index_at = omega (arith, at);
      content = λ _. refl;
    } in
    let h1 = put-Holds start_char tx [] h0 in
    let h2 = load_byte-Holds (high_byte type) _ _ h1 in
    let h3 = load_byte-Holds (low_byte type) _ _ h2 in
    let h4 = load_byte-Holds (high_byte len) _ _ h3 in
    let h5 = load_byte-Holds (low_byte len) _ _ h4 in
    let h6 = load_byte-Holds crc _ _ h5 in
    simp (load_byte-special, append-nil) (simp append_assoc at h6)

-- The frame with the end character put behind what stands before it.
frame-snoc :
    (type : ℕ) (payload : List ℕ)
    → ((start_char ∷ escaped_all (header type (length payload) (checksum type payload)))
          ++ escaped_all payload)
        ++ (end_char ∷ [])
      ≡ frame type payload
unfolding frame
frame-snoc type payload = simp append_assoc

-- What eSL_WriteMessage hands to the serial port, for every payload of less than 256 bytes: the
-- length is that of the frame up to the wrap of the 8-bit index, and a frame of less than 256
-- bytes goes out as it is. The call returns E_SL_OK in either case.
pub write_message-frame :
    (buffer : List ℕ) (type : ℕ) (payload : List ℕ)
    → length buffer ≡ 256
    → length payload < 256
    → (sent : List ℕ) × (write_message buffer type (length payload) payload ≡ done (ok, sent))
      × (length sent ≡ length (frame type payload) % 256)
      × (length (frame type payload) < 256 → sent ≡ frame type payload)
unfolding write_message
write_message-frame buffer type payload room lt =
    let len = length payload in
    let crc = checksum type payload in
    let start : TxBuffer = record { bytes = buffer; index = 0 } in
    let headed = load_header-Holds type len crc start room refl in
    let (tx, run, held) =
      payload_loop-Holds payload 256 payload 0 (load_header type len crc start) _ refl (omega arith)
        lt lt headed in
    let closed = rw frame-snoc at (put-Holds end_char tx _ held) in
    let tx' = put end_char tx in
    (
      take tx'.index tx'.bytes,
      rw (calculate_crc-checksum type payload payload (take-length payload) (omega arith) lt)
          (rw run (rw load_byte-special)),
      length-take tx'.index tx'.bytes (omega (arith, closed.index_at, closed.room))
          ∙ closed.index_at,
      Holds-short tx' (frame type payload) closed,
    )
