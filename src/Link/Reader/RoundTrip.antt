-- ===== src/Link/Reader/RoundTrip.antt =====
-- A frame is read back as it was written, from whatever state the receiver is in.
use dm_matter_zigbee_bridge.Prelude.{
  ℕ, ◌+◌, ◌≤◌, ◌<◌, List, ◌∷◌, ◌++◌, ◌≡◌, refl, ◌∙◌, arith, append_assoc, length, take, done,
}
use dm_matter_zigbee_bridge.Link.{start_char, end_char, ok}
use dm_matter_zigbee_bridge.Link.Frame.{calculate_crc, write_message}
use dm_matter_zigbee_bridge.Link.Frame.Checksum.{checksum, calculate_crc-checksum}
use dm_matter_zigbee_bridge.Link.Frame.Layout.{escaped_all, header, frame, write_message-frame}
use dm_matter_zigbee_bridge.Link.Reader.{wait_start, Rx, read_message}
use dm_matter_zigbee_bridge.Link.Reader.Bytes.{
  stored, read_message-payload, stored-Stored, headed, read_message-header, read_message-end,
}

-- What the receiver holds after a message.
pub record Received (type : ℕ) (payload : List ℕ) (r : Rx) : Type 0 where
  pub type_is : r.type ≡ type
  pub len_is : r.len ≡ length payload
  pub message_is : take (length payload) r.message ≡ payload
  pub room : length r.message ≡ 256
  pub state_is : r.state ≡ wait_start

frame-append :
    (type : ℕ) (payload rest : List ℕ)
    → frame type payload ++ rest
      ≡ start_char
        ∷ (escaped_all (header type (length payload) (checksum type payload))
            ++ (escaped_all payload ++ (end_char ∷ rest)))
unfolding frame
frame-append type payload rest = simp append_assoc

-- Whatever state the receiver is in, the frame of a message with a 16-bit type and less than 256
-- bytes makes eSL_ReadMessage return E_SL_OK with that type, length and payload, and what follows
-- the frame is left to be read.
pub read_message-frame :
    (type : ℕ) (payload : List ℕ) (r : Rx) (rest : List ℕ)
    → type < 65536
    → length payload < 256
    → length r.message ≡ 256
    → (q : Rx) × (read_message 256 r (frame type payload ++ rest) ≡ done (ok, q, rest))
      × Received type payload q
read_message-frame type payload r rest ht lt room =
    let len = length payload in
    let h = headed r type len (checksum type payload) in
    let q = stored payload h in
    let filled = stored-Stored payload h (omega arith) in
    let z : 0 + len ≡ len = omega arith in
    let content : take len q.message ≡ payload = rw z at filled.content in
    let fits : len ≤ length q.message = omega (arith, filled.same_room) in
    let sum : calculate_crc q.type q.len q.message ≡ done q.crc = cc (
      calculate_crc-checksum type payload q.message content fits lt,
      filled.same_type,
      filled.same_len,
      filled.same_crc,
    ) in
    (
      record q { state = wait_start },
      rw frame-append (
          read_message-header 256 type len (checksum type payload) r _ ht (omega arith)
            (omega arith)
          ∙ read_message-payload 256 payload h (end_char ∷ rest) refl refl (omega arith)
              (omega arith) (omega arith)
          ∙ read_message-end 256 q rest (omega (arith, filled.same_len)) sum),
      record {
        type_is = filled.same_type;
        len_is = filled.same_len;
        message_is = content;
        room = filled.same_room ∙ room;
        state_is = refl;
      },
    )

-- What eSL_WriteMessage sends, eSL_ReadMessage returns: for a 16-bit type and a payload of less
-- than 256 bytes whose frame is shorter than the transmit buffer of 256 bytes, from any state of
-- a receiver with a message buffer of 256 bytes and with anything behind the frame.
pub read_message-write_message :
    (buffer : List ℕ) (type : ℕ) (payload : List ℕ) (r : Rx) (rest : List ℕ)
    → length buffer ≡ 256
    → type < 65536
    → length payload < 256
    → length (frame type payload) < 256
    → length r.message ≡ 256
    → (sent : List ℕ) × (q : Rx) × (write_message buffer type (length payload) payload
        ≡ done (ok, sent))
      × (read_message 256 r (sent ++ rest) ≡ done (ok, q, rest))
      × Received type payload q
read_message-write_message buffer type payload r rest hb ht lt short room =
    let (sent, wrote, _, same) = write_message-frame buffer type payload hb lt in
    let (q, reads, got) = read_message-frame type payload r rest ht lt room in
    (sent, q, wrote, rw (same short) reads, got)
