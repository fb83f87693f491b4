-- ===== src/Link/Dispatch/Receive.antt =====
-- A frame on the wire reaches the callback that is registered for its type.
use dm_matter_zigbee_bridge.Prelude.{
  ℕ, ◌<◌, true, false, some, List, ◌∷◌, ◌++◌, ◌≡◌, ◌≢◌, refl, length, take, ne→==, done,
}
use dm_matter_zigbee_bridge.Link.{msg_log, Message}
use dm_matter_zigbee_bridge.Link.Frame.Layout.{frame}
use dm_matter_zigbee_bridge.Link.Reader.RoundTrip.{read_message-frame}
use dm_matter_zigbee_bridge.Link.Waiters.Delivery.{NoneOf, message_queue_unwanted}
use dm_matter_zigbee_bridge.Link.Dispatch.{
  Listener, find_listener, is_node_list, offered, Reader, fresh, handle_message, received,
  read_task,
}

module _ {ℓ} {C : Type ℓ} where
  -- What the reader task has done with a message that was for a callback alone.
  pub record Called (type : ℕ) (payload : List ℕ) (e : Listener C) (t u : Reader C) : Type ℓ where
    pub message : Message
    pub type_is : message.type ≡ type
    pub len_is : message.len ≡ length payload
    pub payload_is : take (length payload) message.bytes ≡ payload
    pub queued_is :
        u.queued ≡ record { message = message; callback = e.callback; user = e.user } ∷ t.queued
    pub handled_is : u.handled ≡ true
    pub slots_are : u.slots ≡ t.slots

  handle_message-callback :
      (list : List (Listener C)) (m : Message) (e : Listener C) (t : Reader C)
      → m.type ≢ msg_log
      → is_node_list m.type ≡ false
      → NoneOf m.type t.slots
      → find_listener m.type list ≡ some e
      → handle_message true list m t
        ≡ done (record t {
          handled = true;
          queued = record { message = m; callback = e.callback; user = e.user } ∷ t.queued;
        })
  unfolding handle_message offered
  handle_message-callback list m e t not_log not_node unwanted found =
      rw (ne→== m.type msg_log not_log)
        (rw (message_queue_unwanted m t.slots unwanted) (rw not_node (rw found)))

  -- A frame with a 16-bit type and less than 256 bytes comes in, whose type is neither the log's
  -- nor one of the three node lists, that no task waits for and for which a callback is
  -- registered: one round of serialReadTask puts into the callback queue, if that has room, the
  -- callback registered first for the type, with the frame's type, length and payload. The
  -- waiting tasks' slots stay as they are, and what follows the frame is left to be read.
  pub read_task-frame :
      (list : List (Listener C)) (t : Reader C) (e : Listener C) (type : ℕ) (payload rest : List ℕ)
      → type < 65536
      → length payload < 256
      → type ≢ msg_log
      → is_node_list type ≡ false
      → NoneOf type t.slots
      → find_listener type list ≡ some e
      → (u : Reader C) × (read_task true list t (frame type payload ++ rest) ≡ done (u, rest))
        × Called type payload e t u
  unfolding read_task
  read_task-frame list t e type payload rest ht lt not_log not_node unwanted found =
      let (q, reads, got) = read_message-frame type payload (fresh t.rx) rest ht lt refl in
      let m = received q in
      let t' : Reader C = record t { rx = q } in
      let handled =
        handle_message-callback list m e t' (rw got.type_is not_log) (rw got.type_is not_node)
          (rw got.type_is unwanted) (rw got.type_is found) in
      (
        record t' {
          handled = true;
          queued = record { message = m; callback = e.callback; user = e.user } ∷ t.queued;
        },
        rw reads (rw handled),
        record {
          message = m;
          type_is = got.type_is;
          len_is = got.len_is;
          payload_is = got.message_is;
          queued_is = refl;
          handled_is = refl;
          slots_are = refl;
        },
      )
