-- ===== src/Zcb/Ota/Identify.antt =====
-- Which images `eOtaLoadNewImage` announces to the control bridge.
use dm_matter_zigbee_bridge.Prelude.{
  ==→eq, ==→ne, ℕ, ◌+◌, ◌*◌, ◌≤◌, ◌<◌, ◌≡◌, ◌≢◌, ◌∙◌, ◌⊎◌, inl, inr, List, ◌∷◌, some, arith,
  Bool-cases, ◌==◌, length, le→ltb,
}
use dm_matter_zigbee_bridge.Prelude.Words.{little_endian, ntohl, ntohl-le32}
use dm_matter_zigbee_bridge.Zcb.{refuses, sends, invalid_value}
use dm_matter_zigbee_bridge.Zcb.Ota.{
  load, image_fields, ota_load_new_image, file_identify, header_size,
}

-- eOtaLoadNewImage announces an image of bytes that holds a whole header just when the image
-- begins with the bytes 1E F1 EE 0B, which are the file identifier 0x0BEEF11E of Zigbee in
-- little-endian order; with any other beginning it returns E_ZCB_INVALID_VALUE and sends nothing.
pub ota_load_new_image-identified :
    (a b c d : ℕ) (rest : List ℕ)
    → a < 256
    → b < 256
    → c < 256
    → d < 256
    → 65 ≤ length rest
    → let image = a ∷ b ∷ c ∷ d ∷ rest in
      ((a ≡ 0x1E)
        × (b ≡ 0xF1)
        × (c ≡ 0xEE)
        × (d ≡ 0x0B)
        × (ota_load_new_image (some image) ≡ sends 0x0500 (image_fields image)))
      ⊎ ((((a ≡ 0x1E) × (b ≡ 0xF1) × (c ≡ 0xEE) × (d ≡ 0x0B)) → ⊥)
          × (ota_load_new_image (some image) ≡ refuses invalid_value))
unfolding ota_load_new_image little_endian
ota_load_new_image-identified a b c d rest ha hb hc hd whole =
    let image = a ∷ b ∷ c ∷ d ∷ rest in
    let n = ntohl-le32 a b c d ha hb hc hd in
    let four = le→ltb (length image) 4 (omega arith) in
    let full = le→ltb (length image) header_size (omega arith) in
    elim (Bool-cases (ntohl (load 4 0 image) == file_identify)) [
      | inl y ↦ inl (
          let e = ==→eq (ntohl (load 4 0 image)) file_identify y in
          (omega arith, omega arith, omega arith, omega arith, rw (four, y, full)))
      | inr y ↦ inr (
          let e = ==→ne (ntohl (load 4 0 image)) file_identify y in
          (λ (p, q, r, t). differs p q r t n e, rw (four, y)))
    ]
  where
    differs :
        a ≡ 0x1E
        → b ≡ 0xF1
        → c ≡ 0xEE
        → d ≡ 0x0B
        → ntohl (load 4 0 (a ∷ b ∷ c ∷ d ∷ rest)) ≡ ((a * 256 + b) * 256 + c) * 256 + d
        → ntohl (load 4 0 (a ∷ b ∷ c ∷ d ∷ rest)) ≢ file_identify
        → ⊥
    differs ea eb ec ed n e = e (n ∙ omega arith)
