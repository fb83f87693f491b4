-- ===== src/Link/Tests.antt =====
-- Runs of the serial link, and its theorems at concrete inputs.
use dm_matter_zigbee_bridge.Prelude.{
  ℕ, ◌%◌, ◌<◌, true, List, [], ◌∷◌, ◌++◌, ◌≡◌, refl, arith, length, replicate, done,
}
use dm_matter_zigbee_bridge.Link.{SlStatus, ok}
use dm_matter_zigbee_bridge.Link.Frame.{
  crc_loop, calculate_crc, load_byte, load_header, payload_loop, write_message,
}
use dm_matter_zigbee_bridge.Link.Frame.Checksum.{xor_all, checksum}
use dm_matter_zigbee_bridge.Link.Frame.Layout.{frame, escaped, escaped_all, write_message-frame}
use dm_matter_zigbee_bridge.Link.Reader.{Rx, wait_data, read_message}
use dm_matter_zigbee_bridge.Link.Reader.Safe.{Outcome, read_message-Outcome}
use dm_matter_zigbee_bridge.Link.Reader.RoundTrip.{Received, read_message-write_message}

-- An On/Off command to node 0x1234, as `eOn_Off` lays it out.
abbrev on_off : List ℕ
on_off = 0x02 ∷ 0x12 ∷ 0x34 ∷ 0x01 ∷ 0x01 ∷ 0x01 ∷ []

abbrev tx_buffer : List ℕ
tx_buffer = replicate 256 0

-- A receiver in the middle of some other frame.
abbrev busy : Rx
busy = record {
  state = wait_data;
  crc = 7;
  count = 3;
  in_esc = true;
  type = 0x8102;
  len = 20;
  message = replicate 256 0;
}

frame-on_off :
    frame 0x92 on_off
    ≡ 0x01 ∷ 0x02 ∷ 0x10 ∷ 0x92 ∷ 0x02 ∷ 0x10 ∷ 0x02 ∷ 0x16 ∷ 0xb1 ∷ 0x02 ∷ 0x12 ∷ 0x12 ∷ 0x34
      ∷ 0x02 ∷ 0x11 ∷ 0x02 ∷ 0x11 ∷ 0x02 ∷ 0x11 ∷ 0x03 ∷ []
unfolding frame escaped_all escaped checksum xor_all
frame-on_off = refl

write_message-on_off : write_message tx_buffer 0x92 6 on_off ≡ done (ok, frame 0x92 on_off)
unfolding write_message payload_loop load_byte load_header calculate_crc crc_loop frame escaped_all
    escaped checksum xor_all
write_message-on_off = refl

read_message-write_message_example :
    (sent : List ℕ) × (q : Rx) × (write_message tx_buffer 0x92 6 on_off ≡ done (ok, sent))
    × (read_message 256 busy (sent ++ (0x01 ∷ [])) ≡ done (ok, q, 0x01 ∷ []))
    × Received 0x92 on_off q
read_message-write_message_example =
    read_message-write_message tx_buffer 0x92 on_off busy (0x01 ∷ []) refl (omega arith)
      (omega arith) (rw frame-on_off (omega arith)) refl

write_message-frame_example :
    (sent : List ℕ) × (write_message tx_buffer 0x92 6 on_off ≡ done (ok, sent))
    × (length sent ≡ length (frame 0x92 on_off) % 256)
    × (length (frame 0x92 on_off) < 256 → sent ≡ frame 0x92 on_off)
write_message-frame_example = write_message-frame tx_buffer 0x92 on_off refl (omega arith)

read_message-Outcome_example :
    (out : SlStatus × Rx × List ℕ) × (read_message 256 busy (0x02 ∷ 0x11 ∷ 0x03 ∷ []) ≡ done out)
    × Outcome 256 out
read_message-Outcome_example =
    read_message-Outcome 256 (0x02 ∷ 0x11 ∷ 0x03 ∷ []) busy (omega arith)
      (record { room = refl; sized = omega arith })
