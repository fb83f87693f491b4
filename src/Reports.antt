-- ===== src/Reports.antt =====
-- Events of zigbee_bridge/rt/rw61x/ZCB/zcb.c: `ZCB_HandleAttributeReport`, `handleAttribute` and the
-- mailbox `ZcbMsg` by which a value reaches the Matter side, the address responses, the timers, and
-- the clusters of a simple descriptor.
pub mod Mailbox
pub mod Handle
pub mod Addresses
pub mod Timers
pub mod Descriptor
mod Tests
use dm_matter_zigbee_bridge.Prelude.{ℕ, Bool, ◌||◌, List, ◌==◌, if◌then◌else◌}
use dm_matter_zigbee_bridge.Prelude.Words.{little_endian, ntohs, ntohl, ntohd}

-- The attribute types that hold one byte, two bytes, and up to four bytes.
abbrev pub is_byte : ℕ → Bool
is_byte t = t == 0x08 || t == 0x20 || t == 0x28 || t == 0x30 || t == 0x18 || t == 0x10

abbrev pub is_half : ℕ → Bool
is_half t = t == 0x4c || t == 0x29 || t == 0x21 || t == 0x31 || t == 0xe8 || t == 0xe9

abbrev pub is_word : ℕ → Bool
is_word t = t == 0x22 || t == 0x23 || t == 0xe0 || t == 0xe1 || t == 0xe2 || t == 0xea

-- E_ZCL_UINT40, E_ZCL_UINT48, E_ZCL_UINT56, E_ZCL_UINT64 and E_ZCL_IEEE_ADDR.
abbrev pub is_long : ℕ → Bool
is_long t = t == 0x24 || t == 0x25 || t == 0x26 || t == 0x27 || t == 0xf0

-- `u64Data` after the `switch` of `ZCB_HandleAttributeReport`; `value` is the union `uData`.
unfoldable pub report_value : ℕ → List ℕ → ℕ
report_value t value =
    if is_byte t
    then little_endian 1 value
    else if is_half t
    then ntohs (little_endian 2 value)
    else if is_word t
    then ntohl (little_endian 4 value)
    else 0

-- The number that `ZCB_HandleReadAttrResp` stores for a type that is no string; `old` is what was
-- there before.
unfoldable pub response_value : ℕ → List ℕ → ℕ → ℕ
response_value t value old =
    if is_byte t
    then little_endian 1 value
    else if is_half t
    then ntohs (little_endian 2 value)
    else if is_word t
    then ntohl (little_endian 4 value)
    else if is_long t
    then ntohd (little_endian 8 value)
    else old
