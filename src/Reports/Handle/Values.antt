-- ===== src/Reports/Handle/Values.antt =====
-- The value in a report.
use dm_matter_zigbee_bridge.Prelude.{
  ℕ, zero, suc, ◌^◌, ◌<◌, true, false, List, [], ◌∷◌, ◌++◌, ◌≡◌, refl, sym, ap, ◌∙◌, arith,
}
use dm_matter_zigbee_bridge.Prelude.Words.{
  byte, little_endian, ntohs, ntohl, ntohs-le, ntohl-le32, le16-ntohs, le32-ntohl, ntohd,
  ntohd-le64, le64-ntohd,
}
use dm_matter_zigbee_bridge.Zcb.Fields.{stored, u16, u32, u64}
use dm_matter_zigbee_bridge.Reports.{
  is_byte, is_half, is_word, is_long, report_value, response_value,
}

pub half_loaded :
    (v : ℕ) (rest : List ℕ) → v < 256 ^ 2 → ntohs (little_endian 2 (stored (u16 v) ++ rest)) ≡ v
unfolding little_endian
half_loaded v rest h =
    ap (λ b. ntohs (little_endian 2 (b ++ rest))) (le16-ntohs v)
    ∙ ntohs-le (byte 1 v) (byte 0 v) (omega arith) (omega arith)
    ∙ omega arith

word_loaded :
    (v : ℕ) (rest : List ℕ) → v < 256 ^ 4 → ntohl (little_endian 4 (stored (u32 v) ++ rest)) ≡ v
unfolding little_endian
word_loaded v rest h =
    ap (λ b. ntohl (little_endian 4 (b ++ rest))) (le32-ntohl v)
    ∙ ntohl-le32 (byte 3 v) (byte 2 v) (byte 1 v) (byte 0 v) (omega arith) (omega arith)
        (omega arith) (omega arith)
    ∙ omega arith

pub long_loaded :
    (v : ℕ) (rest : List ℕ) → v < 256 ^ 8 → ntohd (little_endian 8 (stored (u64 v) ++ rest)) ≡ v
unfolding little_endian
long_loaded v rest h =
    ap (λ b. ntohd (little_endian 8 (b ++ rest))) (le64-ntohd v)
    ∙ ntohd-le64 (byte 7 v) (byte 6 v) (byte 5 v) (byte 4 v) (byte 3 v) (byte 2 v) (byte 1 v)
        (byte 0 v) (omega arith) (omega arith) (omega arith) (omega arith) (omega arith)
        (omega arith) (omega arith) (omega arith)
    ∙ omega arith

long_no_byte : (t : ℕ) → is_long t ≡ true → is_byte t ≡ false
long_no_byte t h = ground arith

long_no_half : (t : ℕ) → is_long t ≡ true → is_half t ≡ false
long_no_half t h = ground arith

long_no_word : (t : ℕ) → is_long t ≡ true → is_word t ≡ false
long_no_word t h = ground arith

-- The types of the Zigbee cluster library whose values are taken, with their identifiers and the
-- bytes that hold a value in a message, four for a type of three bytes.
pub data ZclType : Type 0 where
  data8 boolean bitmap8 uint8 int8 enum8 : ZclType
  structure uint16 int16 enum16 cluster_id attribute_id : ZclType
  uint24 uint32 time_of_day date utc_time bacnet_oid : ZclType

abbrev pub identifier : ZclType → ℕ
identifier data8 = 0x08
identifier boolean = 0x10
identifier bitmap8 = 0x18
identifier uint8 = 0x20
identifier int8 = 0x28
identifier enum8 = 0x30
identifier structure = 0x4c
identifier uint16 = 0x21
identifier int16 = 0x29
identifier enum16 = 0x31
identifier cluster_id = 0xe8
identifier attribute_id = 0xe9
identifier uint24 = 0x22
identifier uint32 = 0x23
identifier time_of_day = 0xe0
identifier date = 0xe1
identifier utc_time = 0xe2
identifier bacnet_oid = 0xea

abbrev pub width : ZclType → ℕ
width data8 = 1
width boolean = 1
width bitmap8 = 1
width uint8 = 1
width int8 = 1
width enum8 = 1
width structure = 2
width uint16 = 2
width int16 = 2
width enum16 = 2
width cluster_id = 2
width attribute_id = 2
width uint24 = 4
width uint32 = 4
width time_of_day = 4
width date = 4
width utc_time = 4
width bacnet_oid = 4

-- The lowest bytes of a number, the greatest first.
abbrev pub in_order : ℕ → ℕ → List ℕ
in_order zero v = []
in_order (suc n) v = byte n v ∷ in_order n v

-- Both functions take the value of the attribute type from the bytes.
abbrev pub Taken : ℕ → ℕ → ℕ → List ℕ → Type 0
Taken t v old bytes = (report_value t bytes ≡ v) × (response_value t bytes old ≡ v)

byte-Taken :
    (t v old : ℕ) (rest : List ℕ)
    → is_byte t ≡ true
    → v < 256
    → Taken t v old (in_order 1 v ++ rest)
unfolding report_value response_value little_endian
byte-Taken t v old rest e h = (rw e (omega arith), rw e (omega arith))

half-Taken :
    (t v old : ℕ) (rest : List ℕ)
    → is_byte t ≡ false
    → is_half t ≡ true
    → v < 256 ^ 2
    → Taken t v old (in_order 2 v ++ rest)
unfolding report_value response_value
half-Taken t v old rest e f h =
    let loaded : ntohs (little_endian 2 (in_order 2 v ++ rest)) ≡ v =
      ap (λ b. ntohs (little_endian 2 (b ++ rest))) (sym (le16-ntohs v)) ∙ half_loaded v rest h in
    (rw (e, f) loaded, rw (e, f) loaded)

word-Taken :
    (t v old : ℕ) (rest : List ℕ)
    → is_byte t ≡ false
    → is_half t ≡ false
    → is_word t ≡ true
    → v < 256 ^ 4
    → Taken t v old (in_order 4 v ++ rest)
unfolding report_value response_value
word-Taken t v old rest e f g h =
    let loaded : ntohl (little_endian 4 (in_order 4 v ++ rest)) ≡ v =
      ap (λ b. ntohl (little_endian 4 (b ++ rest))) (sym (le32-ntohl v)) ∙ word_loaded v rest h in
    (rw (e, f, g) loaded, rw (e, f, g) loaded)

-- For each of the attribute types that are listed with their identifiers and their widths of one,
-- two or four bytes: a number below 256 to the power of the width, that stands in the message
-- with its greatest byte first, is the value that ZCB_HandleAttributeReport and
-- ZCB_HandleReadAttrResp take from it, whatever follows.
pub report_value-in_order :
    (a : ZclType) (v old : ℕ) (rest : List ℕ)
    → v < 256 ^ width a
    → Taken (identifier a) v old (in_order (width a) v ++ rest)
report_value-in_order data8 v old rest h = byte-Taken (identifier data8) v old rest refl h
report_value-in_order boolean v old rest h = byte-Taken (identifier boolean) v old rest refl h
report_value-in_order bitmap8 v old rest h = byte-Taken (identifier bitmap8) v old rest refl h
report_value-in_order uint8 v old rest h = byte-Taken (identifier uint8) v old rest refl h
report_value-in_order int8 v old rest h = byte-Taken (identifier int8) v old rest refl h
report_value-in_order enum8 v old rest h = byte-Taken (identifier enum8) v old rest refl h
report_value-in_order structure v old rest h =
    half-Taken (identifier structure) v old rest refl refl h
report_value-in_order uint16 v old rest h = half-Taken (identifier uint16) v old rest refl refl h
report_value-in_order int16 v old rest h = half-Taken (identifier int16) v old rest refl refl h
report_value-in_order enum16 v old rest h = half-Taken (identifier enum16) v old rest refl refl h
report_value-in_order cluster_id v old rest h =
    half-Taken (identifier cluster_id) v old rest refl refl h
report_value-in_order attribute_id v old rest h =
    half-Taken (identifier attribute_id) v old rest refl refl h
report_value-in_order uint24 v old rest h =
    word-Taken (identifier uint24) v old rest refl refl refl h
report_value-in_order uint32 v old rest h =
    word-Taken (identifier uint32) v old rest refl refl refl h
report_value-in_order time_of_day v old rest h =
    word-Taken (identifier time_of_day) v old rest refl refl refl h
report_value-in_order date v old rest h = word-Taken (identifier date) v old rest refl refl refl h
report_value-in_order utc_time v old rest h =
    word-Taken (identifier utc_time) v old rest refl refl refl h
report_value-in_order bacnet_oid v old rest h =
    word-Taken (identifier bacnet_oid) v old rest refl refl refl h

-- For the types of 40 to 64 bits and the IEEE address, and a value below 2^64 in network order:
-- ZCB_HandleAttributeReport takes 0 for it, while ZCB_HandleReadAttrResp takes the value itself.
pub report_value-long :
    (t v old : ℕ) (rest : List ℕ)
    → is_long t ≡ true
    → v < 256 ^ 8
    → (report_value t (stored (u64 v) ++ rest) ≡ 0)
      × (response_value t (stored (u64 v) ++ rest) old ≡ v)
unfolding report_value response_value
report_value-long t v old rest long h =
    let e = long_no_byte t long in
    let f = long_no_half t long in
    let g = long_no_word t long in (rw (e, f, g), rw (e, f, g, long) (long_loaded v rest h))
