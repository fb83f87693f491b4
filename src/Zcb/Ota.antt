-- ===== src/Zcb/Ota.antt =====
-- The over-the-air upgrade commands of cmd.c.
pub mod Identify
use dm_matter_zigbee_bridge.Prelude.{
  ℕ, zero, suc, ◌+◌, ◌*◌, ◌^◌, Option, none, some, List, [], ◌∷◌, ◌++◌, length, take, drop, get_or,
  ltb, ◌==◌, not, if◌then◌else◌, Run, done, fault,
}
use dm_matter_zigbee_bridge.Prelude.Words.{ntohl, little_endian}
use dm_matter_zigbee_bridge.Zcb.Fields.{Field, u8, u16, u32, u64, bytes}
use dm_matter_zigbee_bridge.Zcb.{
  ZcbStatus, error, invalid_value, request_not_actioned, Call, refuses, faults, sends,
  sends_no_wait,
}

abbrev pub file_identify : ℕ
file_identify = 0x1EF1EE0B

abbrev pub header_size : ℕ
header_size = 69

-- What `memcpy` from an offset of the image puts into a word of `n` bytes.
abbrev pub load : ℕ → ℕ → List ℕ → ℕ
load n at image = little_endian n (drop at image)

abbrev pub image_fields : List ℕ → List Field
image_fields image =
    u8 2
    ∷ u16 0
    ∷ u32 (load 4 0 image)
    ∷ u16 (load 2 4 image)
    ∷ u16 (load 2 6 image)
    ∷ u16 (load 2 8 image)
    ∷ u16 (load 2 10 image)
    ∷ u16 (load 2 12 image)
    ∷ u32 (load 4 14 image)
    ∷ u16 (load 2 18 image)
    ∷ bytes (take 32 (drop 20 image))
    ∷ u32 (load 4 52 image)
    ∷ bytes (take 1 (drop 56 image))
    ∷ u64 (load 8 57 image)
    ∷ u16 (load 2 65 image)
    ∷ u16 (load 2 67 image)
    ∷ []

-- `eOtaLoadNewImage`; `none` is the null pointer. The identifier is tested before the rest of the
-- header is read.
unfoldable pub ota_load_new_image : Option (List ℕ) → Call
ota_load_new_image none = refuses error
ota_load_new_image (some image) =
    let loaded =
      if ltb (length image) header_size then faults else sends 0x0500 (image_fields image) in
    if ltb (length image) 4
    then faults
    else if ntohl (load 4 0 image) == file_identify
    then loaded
    else refuses invalid_value

abbrev pub max_block : ℕ
max_block = 64

-- `eOtaImageBlockSend`; `image` is what `au8Data` points to.
unfoldable pub ota_image_block_send : ℕ → ℕ → ℕ → ℕ → ℕ → ℕ → ℕ → ℕ → ℕ → ℕ → ℕ → List ℕ → Call
ota_image_block_send addr_mode addr src_ep dst_ep seq status offset version kind manu size image =
    let block = sends_no_wait 0x0502 (
      u8 addr_mode
      ∷ u16 addr
      ∷ u8 src_ep
      ∷ u8 dst_ep
      ∷ u8 seq
      ∷ u8 status
      ∷ u32 offset
      ∷ u32 version
      ∷ u16 kind
      ∷ u16 manu
      ∷ u8 size
      ∷ bytes (take size image)
      ∷ []) in
    if ltb max_block size
    then refuses request_not_actioned
    else if ltb (length image) size
    then faults
    else block

unfoldable pub ota_upgrade_end_response : ℕ → ℕ → ℕ → ℕ → ℕ → ℕ → ℕ → ℕ → ℕ → ℕ → Call
ota_upgrade_end_response addr_mode addr src_ep dst_ep seq upgrade now version kind manu =
    sends 0x0504 (
      u8 addr_mode
      ∷ u16 addr
      ∷ u8 src_ep
      ∷ u8 dst_ep
      ∷ u8 seq
      ∷ u32 upgrade
      ∷ u32 now
      ∷ u32 version
      ∷ u16 kind
      ∷ u16 manu
      ∷ [])

-- `enum_bytes` is how the compiler lays out `teOTA_ImageNotifyPayloadType`, whose size the C
-- standard leaves open.
unfoldable pub ota_image_notify : (ℕ → List ℕ) → ℕ → ℕ → ℕ → ℕ → ℕ → ℕ → ℕ → ℕ → ℕ → Call
ota_image_notify enum_bytes addr_mode addr src_ep dst_ep payload version kind manu jitter =
    sends 0x0505 (
      u8 addr_mode
      ∷ u16 addr
      ∷ u8 src_ep
      ∷ u8 dst_ep
      ∷ bytes (enum_bytes payload)
      ∷ u32 version
      ∷ u16 kind
      ∷ u16 manu
      ∷ u8 jitter
      ∷ [])

unfoldable pub ota_send_wait_for_data_params : ℕ → ℕ → ℕ → ℕ → ℕ → ℕ → ℕ → ℕ → ℕ → Call
ota_send_wait_for_data_params addr_mode addr src_ep dst_ep seq status upgrade now delay =
    sends 0x0506 (
      u8 addr_mode
      ∷ u16 addr
      ∷ u8 src_ep
      ∷ u8 dst_ep
      ∷ u8 seq
      ∷ u8 status
      ∷ u32 upgrade
      ∷ u32 now
      ∷ u16 delay
      ∷ [])
