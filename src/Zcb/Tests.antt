-- ===== src/Zcb/Tests.antt =====
-- Runs of the calls, and their theorems at concrete inputs.
use dm_matter_zigbee_bridge.Prelude.Words.{ntohs, ntohd}
use dm_matter_zigbee_bridge.Prelude.{
  ℕ, ◌≤◌, true, false, List, [], ◌∷◌, ◌++◌, ◌≡◌, refl, arith, length, replicate, some, ◌==◌,
  if◌then◌else◌, done,
}
use dm_matter_zigbee_bridge.Link.{Message}
use dm_matter_zigbee_bridge.Link.Reader.{Rx, wait_data}
use dm_matter_zigbee_bridge.Link.Waiters.{Slot, null}
use dm_matter_zigbee_bridge.Link.Dispatch.{offered}
use dm_matter_zigbee_bridge.Zcb.Init.{register, registrations, handle_attribute_report}
use dm_matter_zigbee_bridge.Zcb.Init.Registered.{first_for, offered-register}
use dm_matter_zigbee_bridge.Zcb.Fields.{
  Field, u8, u16, u64, encode, shapes, values, decode, decode-encode,
}
use dm_matter_zigbee_bridge.Zcb.Commands
use dm_matter_zigbee_bridge.Zcb.Requests
use dm_matter_zigbee_bridge.Zcb.Requests.{bind_message}
use dm_matter_zigbee_bridge.Zcb.Issued.{Issued, IsShort, Emitted, Emitted-IsShort}

abbrev byte_enum : ℕ → List ℕ
byte_enum v = v ∷ []

byte_enum_is_small : (v : ℕ) → length (byte_enum v) ≤ 4
byte_enum_is_small v = omega arith

abbrev leave : List Field
leave = u16 0x1234 ∷ u64 0x00158D0001020304 ∷ u8 0 ∷ u8 1 ∷ []

encode-leave :
    encode leave ≡ 0x12 ∷ 0x34 ∷ 0x00 ∷ 0x15 ∷ 0x8D ∷ 0x00 ∷ 0x01 ∷ 0x02 ∷ 0x03 ∷ 0x04 ∷ 0 ∷ 1 ∷ []
unfolding encode ntohs ntohd
encode-leave = refl

decode-encode_example :
    decode (shapes leave) (encode leave ++ (9 ∷ [])) ≡ some (values leave, 9 ∷ [])
decode-encode_example =
    decode-encode leave (9 ∷ []) (omega arith, (omega arith, (omega arith, (omega arith, tt))))

Emitted-IsShort_example : IsShort (bind_message 0xA1 0xB2 1 6)
Emitted-IsShort_example =
    Emitted-IsShort byte_enum (bind_message 0xA1 0xB2 1 6) byte_enum_is_small
      (Emitted.bind_message 0xA1 0xB2 1 6)

abbrev buffer : List ℕ
buffer = replicate 256 0

abbrev free_slot : Slot
free_slot = record { type = 0; len = 0; message = null; event = false }

-- The status of an on/off command, success, with sequence number 7.
abbrev accepted : Message
accepted = record { type = 0x8000; len = 5; bytes = 0 ∷ 7 ∷ 0x00 ∷ 0x92 ∷ 0 ∷ [] }

abbrev receiver : Rx
receiver = record {
  state = wait_data;
  crc = 7;
  count = 3;
  in_esc = true;
  type = 0x8102;
  len = 20;
  message = buffer;
}

abbrev image_rest : List ℕ
image_rest = replicate 65 7

-- A link that accepts every message, and where the wait for the restart alone times out.
abbrev answers : ℕ → ℕ
answers type = if type == 0x8007 then 2 else 0

abbrev link : Requests.LinkOps
link = record {
  send = λ type payload. done 0;
  send_no_wait = λ type payload. done 0;
  wait = λ type. done (answers type);
}

-- An attribute report of three bytes after eZCB_Init.
abbrev short_report : Message
short_report = record { type = 0x8102; len = 3; bytes = 1 ∷ 2 ∷ 3 ∷ [] }

report_first : first_for 0x8102 registrations ≡ some handle_attribute_report
unfolding first_for
report_first = refl

offered-register_example :
    offered short_report (register true registrations [])
    ≡ some (record { message = short_report; callback = handle_attribute_report; user = 0 })
offered-register_example =
    offered-register short_report registrations handle_attribute_report report_first (omega arith)
      (omega arith) (omega arith)
