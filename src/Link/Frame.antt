-- ===== src/Link/Frame.antt =====
-- Writing a frame: `u8SL_CalculateCRC`, `u8SL_LoadByteToTxBuffer` and `eSL_WriteMessage`.
-- The loop counters and the buffer index are `uint8_t` in the source, and wrap here too.
pub mod Checksum
pub mod Layout
pub mod Size
use dm_matter_zigbee_bridge.Prelude.{
  ℕ, zero, suc, ◌+◌, ◌/◌, ◌%◌, bit_xor, Bool, true, false, not, ◌&&◌, Option, none, some, List,
  get_elem?, set, take, ltb, if◌then◌else◌, Run, done, fault, spin, ◌>>=◌,
}
use dm_matter_zigbee_bridge.Link.{start_char, esc_char, end_char, SlStatus, ok}

-- `x & 0xff`
abbrev pub low_byte : ℕ → ℕ
low_byte x = x % 256

-- `(x >> 8) & 0xff`
abbrev pub high_byte : ℕ → ℕ
high_byte x = low_byte (x / 256)

-- A read through a pointer to the bytes of a list.
abbrev pub read : List ℕ → ℕ → Run ℕ
read bytes i = elim (get_elem? bytes i) [ none ↦ fault | some x ↦ done x ]

-- `for (n = 0; n < u16Length; n++) u8CRC ^= pu8Data[n];` with `uint8_t n`
unfoldable pub crc_loop : ℕ → List ℕ → ℕ → ℕ → ℕ → Run ℕ
crc_loop zero bytes len n crc = spin
crc_loop (suc fuel) bytes len n crc =
    let next = read bytes n >>= λ x. crc_loop fuel bytes len ((n + 1) % 256) (bit_xor crc x) in
    if ltb n len then next else done crc

abbrev pub header_crc : ℕ → ℕ → ℕ
header_crc type len =
    bit_xor (bit_xor (bit_xor (low_byte type) (high_byte type)) (low_byte len)) (high_byte len)

-- Up to 255 rounds and the last test need 256 units of fuel.
unfoldable pub calculate_crc : ℕ → ℕ → List ℕ → Run ℕ
calculate_crc type len bytes = crc_loop 256 bytes len 0 (header_crc type len)

-- `au8LinkTxBuffer` with its `index`
pub record TxBuffer : Type 0 where
  pub bytes : List ℕ
  pub index : ℕ

-- `buffer[index++] = b`
abbrev pub put : ℕ → TxBuffer → TxBuffer
put b tx = record { bytes = set tx.bytes tx.index b; index = (tx.index + 1) % 256 }

unfoldable pub load_byte : Bool → ℕ → TxBuffer → TxBuffer
load_byte special b tx =
    if not special && ltb b 0x10 then put (bit_xor b 0x10) (put esc_char tx) else put b tx

-- `for(n = 0; n < u16Length; n++)` with `uint8_t n`
unfoldable pub payload_loop : ℕ → List ℕ → ℕ → ℕ → TxBuffer → Run TxBuffer
payload_loop zero bytes len n tx = spin
payload_loop (suc fuel) bytes len n tx =
    let next =
      read bytes n >>= λ x. payload_loop fuel bytes len ((n + 1) % 256) (load_byte false x tx) in
    if ltb n len then next else done tx

unfoldable pub load_header : ℕ → ℕ → ℕ → TxBuffer → TxBuffer
load_header type len crc tx =
    let started = load_byte true start_char tx in
    let typed = load_byte false (low_byte type) (load_byte false (high_byte type) started) in
    let sized = load_byte false (low_byte len) (load_byte false (high_byte len) typed) in
    load_byte false crc sized

-- The status, and the bytes that `eSerial_WriteBuffer` is handed. `buffer` is what the static
-- buffer held before.
unfoldable pub write_message : List ℕ → ℕ → ℕ → List ℕ → Run (SlStatus × List ℕ)
write_message buffer type len bytes = do
  crc ← calculate_crc type len bytes
  tx ←
      payload_loop 256 bytes len 0 (load_header type len crc (record { bytes = buffer; index = 0 }))
  let closed = load_byte true end_char tx
  done (ok, take closed.index closed.bytes)
