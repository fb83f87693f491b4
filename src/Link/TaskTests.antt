-- ===== src/Link/TaskTests.antt =====
-- Runs of the tasks of the serial link, and their theorems at concrete inputs.
use dm_matter_zigbee_bridge.Prelude.{
  ℕ, true, false, fault, some, List, [], ◌∷◌, ◌++◌, ◌≡◌, refl, arith, replicate, inr, done,
}
use dm_matter_zigbee_bridge.Link.{ok, Message}
use dm_matter_zigbee_bridge.Link.Frame.Layout.{frame, escaped, escaped_all}
use dm_matter_zigbee_bridge.Link.Frame.Checksum.{xor_all, checksum}
use dm_matter_zigbee_bridge.Link.Reader.{wait_data}
use dm_matter_zigbee_bridge.Link.Waiters.{
  null, own_status, copy, Slot, claimed, claim, delivered, wake, deliver, message_queue,
}
use dm_matter_zigbee_bridge.Link.Waiters.Delivery.{claim-message_queue-wake}
use dm_matter_zigbee_bridge.Link.Send.{Sent, send_message}
use dm_matter_zigbee_bridge.Link.Send.Status.{IsIdle, send_message-answered, send_message-type_zero}
use dm_matter_zigbee_bridge.Link.Dispatch.{Listener, find_listener, Reader, read_task}
use dm_matter_zigbee_bridge.Link.Dispatch.Receive.{Called, read_task-frame}

abbrev buffer : List ℕ
buffer = replicate 256 0

abbrev idle_slot : Slot
idle_slot = record { type = 0; len = 0; message = null; event = false }

abbrev waiting_slot : Slot
waiting_slot = record { type = 0x8101; len = 0; message = null; event = false }

-- The status of a message of type 0x0092, with sequence number 7.
abbrev status_92 : Message
status_92 = record { type = 0x8000; len = 5; bytes = 0 ∷ 7 ∷ 0x00 ∷ 0x92 ∷ 0 ∷ [] }

abbrev status_45 : Message
status_45 = record { type = 0x8000; len = 5; bytes = 0 ∷ 8 ∷ 0x00 ∷ 0x45 ∷ 0 ∷ [] }

abbrev announce : Message
announce = record { type = 0x004d; len = 3; bytes = 0x12 ∷ 0x34 ∷ 0 ∷ [] }

abbrev typeless : Message
typeless = record { type = 0; len = 1; bytes = 9 ∷ [] }

abbrev idle : IsIdle (waiting_slot ∷ []) idle_slot (idle_slot ∷ [])
idle = record {
  none_free = (omega arith, tt);
  free = refl;
  quiet = refl;
  none_before = (omega arith, tt);
  none_after = (omega arith, tt);
}

claim-message_queue-wake_example :
    (claim 0x8000 (own_status 0x92) (waiting_slot ∷ idle_slot ∷ [])
      ≡ some (1, waiting_slot ∷ claimed 0x8000 (own_status 0x92) idle_slot ∷ []))
    × (message_queue status_92 (waiting_slot ∷ claimed 0x8000 (own_status 0x92) idle_slot ∷ [])
        ≡ done (
          ok,
          waiting_slot ∷ deliver status_92 (claimed 0x8000 (own_status 0x92) idle_slot) ∷ [],
        ))
    × (wake 1 (waiting_slot ∷ deliver status_92 (claimed 0x8000 (own_status 0x92) idle_slot) ∷ [])
        ≡ done (
          delivered 5 (copy (0 ∷ 7 ∷ 0x00 ∷ 0x92 ∷ 0 ∷ [])),
          waiting_slot
              ∷ record {
                type = 0;
                len = 5;
                message = copy (0 ∷ 7 ∷ 0x00 ∷ 0x92 ∷ 0 ∷ []);
                event = false;
              }
              ∷ [],
        ))
claim-message_queue-wake_example =
    claim-message_queue-wake status_92 (own_status 0x92) (waiting_slot ∷ []) idle_slot []
      (omega arith, tt) (omega arith, tt) refl (inr refl)

frame-short :
    frame 0x92 (0x12 ∷ 0x34 ∷ [])
    ≡ 0x01 ∷ 0x02 ∷ 0x10 ∷ 0x92 ∷ 0x02 ∷ 0x10 ∷ 0x02 ∷ 0x12 ∷ 0xb6 ∷ 0x12 ∷ 0x34 ∷ 0x03 ∷ []
unfolding frame escaped_all escaped checksum xor_all
frame-short = refl

send_message-answered_example :
    (sent : Sent) × (send_message buffer 0x92
        (0x12 ∷ 0x34 ∷ [])
        true
        []
        (announce ∷ status_92 ∷ [])
        (waiting_slot ∷ idle_slot ∷ idle_slot ∷ [])
      ≡ done sent)
    × (sent.code ≡ 0)
    × (sent.seq ≡ some 7)
    × (sent.wire ≡ frame 0x92 (0x12 ∷ 0x34 ∷ []))
send_message-answered_example =
    send_message-answered buffer 0x92 (0x12 ∷ 0x34 ∷ []) true (announce ∷ []) status_92
      (waiting_slot ∷ []) idle_slot (idle_slot ∷ []) 0 7 (0x00 ∷ 0x92 ∷ 0 ∷ []) refl (omega arith)
      (rw frame-short (omega arith)) idle (omega arith, tt) refl refl refl

send_message-type_zero_example :
    send_message buffer 0x92
      (0x12 ∷ 0x34 ∷ [])
      true
      (typeless ∷ [])
      (status_92 ∷ [])
      (waiting_slot ∷ idle_slot ∷ idle_slot ∷ [])
    ≡ fault
send_message-type_zero_example =
    send_message-type_zero buffer 0x92 (0x12 ∷ 0x34 ∷ []) true typeless (status_92 ∷ [])
      (waiting_slot ∷ []) idle_slot (idle_slot ∷ []) refl (omega arith) idle refl

-- A callback is named by a number here.
abbrev listeners : List (Listener ℕ)
listeners =
    record { type = 0x004d; callback = 1; user = 0 }
    ∷ record { type = 0x8102; callback = 2; user = 0 }
    ∷ []

abbrev reader : Reader ℕ
reader = record {
  rx = record {
    state = wait_data;
    crc = 7;
    count = 3;
    in_esc = true;
    type = 0x8102;
    len = 20;
    message = replicate 256 0;
  };
  handled = false;
  slots = waiting_slot ∷ idle_slot ∷ [];
  queued = [];
}

abbrev announce_listener : Listener ℕ
announce_listener = record { type = 0x004d; callback = 1; user = 0 }

find_listener-announce : find_listener 0x004d listeners ≡ some announce_listener
unfolding find_listener
find_listener-announce = refl

read_task-frame_example :
    (u : Reader ℕ) × (read_task true listeners reader
        (frame 0x004d (0x12 ∷ 0x34 ∷ 0 ∷ []) ++ (0x01 ∷ []))
      ≡ done (u, 0x01 ∷ []))
    × Called 0x004d (0x12 ∷ 0x34 ∷ 0 ∷ []) announce_listener reader u
read_task-frame_example =
    read_task-frame listeners reader announce_listener 0x004d (0x12 ∷ 0x34 ∷ 0 ∷ []) (0x01 ∷ [])
      (omega arith) (omega arith) (omega arith) refl (omega arith, (omega arith, tt))
      find_listener-announce
