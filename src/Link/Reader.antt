-- ===== src/Link/Reader.antt =====
-- Reading a frame: `eSL_ReadMessage` with its receive state machine.
-- What the function keeps in statics, and what it fills in through its caller's pointers, is one
-- record. The input is the list of the bytes that `bSL_RxByte` delivers; at its end the call
-- returns E_SL_NOMESSAGE.
pub mod Bytes
pub mod Safe
pub mod RoundTrip
use dm_matter_zigbee_bridge.Prelude.{
  ℕ, ◌+◌, ◌*◌, ◌%◌, bit_xor, Bool, true, false, List, [], ◌∷◌, length, set, ltb, ◌==◌,
  if◌then◌else◌, Run, done, fault, ◌>>=◌,
}
use dm_matter_zigbee_bridge.Link.{start_char, esc_char, end_char, SlStatus, ok, no_message}
use dm_matter_zigbee_bridge.Link.Frame.{calculate_crc}

-- teSL_RxState.
pub data RxState : Type 0 where
  wait_start wait_type_msb wait_type_lsb wait_len_msb wait_len_lsb wait_crc wait_data : RxState

pub record Rx : Type 0 where
  pub state : RxState
  pub crc : ℕ
  pub count : ℕ
  pub in_esc : Bool
  pub type : ℕ
  pub len : ℕ
  pub message : List ℕ

-- `pu8Message[i] = b`, where the array holds as many bytes as the list
abbrev pub store : List ℕ → ℕ → ℕ → Run (List ℕ)
store message i b = if ltb i (length message) then done (set message i b) else fault

-- The inner `switch (eRxState)`, on a byte that is unescaped already.
pub accept : ℕ → RxState → ℕ → Rx → Run Rx
accept max wait_start b r = done r
accept max wait_type_msb b r = done (record r { type = b * 256 % 65536; state = wait_type_lsb })
accept max wait_type_lsb b r = done (record r { type = (r.type + b) % 65536; state = wait_len_msb })
accept max wait_len_msb b r = done (record r { len = b * 256 % 65536; state = wait_len_lsb })
accept max wait_len_lsb b r =
    let len = (r.len + b) % 65536 in
    done (record r { len = len; state = if ltb max len then wait_start else wait_crc })
accept max wait_crc b r = done (record r { crc = b; state = wait_data })
accept max wait_data b r =
    let stored = store r.message r.count b >>= λ m.
    done (record r { message = m; count = (r.count + 1) % 65536 }) in
    if ltb r.count r.len then stored else done r

-- `case SL_END_CHAR`; the flag says that the call returns E_SL_OK.
pub rx_end : ℕ → Rx → Run (Bool × Rx)
rx_end max r =
    let checked = calculate_crc r.type r.len r.message >>= λ crc. done (r.crc == crc, r) in
    if ltb r.len max then checked else done (false, r)

-- `default`
pub rx_default : ℕ → ℕ → Rx → Run (Bool × Rx)
rx_default max b r =
    accept max r.state (if r.in_esc then bit_xor b 0x10 else b) (record r { in_esc = false })
    >>= λ r'. done (false, r')

-- One round of the loop.
pub rx_byte : ℕ → ℕ → Rx → Run (Bool × Rx)
rx_byte max b r =
    if b == start_char
    then done (false, record r { count = 0; in_esc = false; state = wait_type_msb })
    else if b == esc_char
    then done (false, record r { in_esc = true })
    else if b == end_char
    then rx_end max (record r { state = wait_start })
    else rx_default max b r

-- The status, the state left behind, and the bytes not yet read.
unfoldable pub read_message : ℕ → Rx → List ℕ → Run (SlStatus × Rx × List ℕ)
read_message max r [] = done (no_message, r, [])
read_message max r (b ∷ bytes) = rx_byte max b r >>= λ p. elim p.0 [
  | true ↦ done (ok, p.1, bytes)
  | false ↦ read_message max p.1 bytes
]
