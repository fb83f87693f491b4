-- ===== src/Link/Dispatch.antt =====
-- The reader task: `eSL_AddListener` and `serialReadTask`. The RTOS enters by its answers: whether
-- `pvPortMalloc` finds memory for a listener, and whether `xQueueSend` has room for a callback.
pub mod Listeners
pub mod Receive
use dm_matter_zigbee_bridge.Prelude.{
  ℕ, Bool, true, false, ◌||◌, Option, none, some, List, [], ◌∷◌, replicate, ◌==◌, if◌then◌else◌,
  Run, done, ◌>>=◌,
}
use dm_matter_zigbee_bridge.Link.{
  max_message_length, SlStatus, ok, no_message, error_nomem, msg_log, msg_node_cluster_list,
  msg_node_attribute_list, msg_node_command_id_list, Message,
}
use dm_matter_zigbee_bridge.Link.Reader.{Rx, read_message}
use dm_matter_zigbee_bridge.Link.Waiters.{Slot, message_queue}

-- tsSL_CallbackEntry; a callback function is any value.
pub record Listener {ℓ} (C : Type ℓ) : Type ℓ where
  pub type : ℕ
  pub callback : C
  pub user : ℕ

-- tsCallbackTaskData.
pub record CallbackData {ℓ} (C : Type ℓ) : Type ℓ where
  pub message : Message
  pub callback : C
  pub user : ℕ

module _ {ℓ} {C : Type ℓ} where
  -- The walk to the entry with no next one.
  unfoldable pub insert_end : Listener C → List (Listener C) → List (Listener C)
  insert_end e [] = e ∷ []
  insert_end e (x ∷ list) = x ∷ insert_end e list

  -- The flag says that there is memory for the entry.
  unfoldable pub add_listener : Bool → ℕ → C → ℕ → List (Listener C) → SlStatus × List (Listener C)
  unfolding insert_end
  add_listener true type callback user list =
      (ok, insert_end (record { type = type; callback = callback; user = user }) list)
  add_listener false type callback user list = (error_nomem, list)

  -- The loop over the registered callbacks, up to its `break`.
  unfoldable pub find_listener : ℕ → List (Listener C) → Option (Listener C)
  find_listener type [] = none
  find_listener type (e ∷ list) = if e.type == type then some e else find_listener type list

  abbrev pub callback_data : Message → Option (Listener C) → Option (CallbackData C)
  callback_data m none = none
  callback_data m (some e) = some (record { message = m; callback = e.callback; user = e.user })

abbrev pub is_node_list : ℕ → Bool
is_node_list type =
    type == msg_node_cluster_list
    || type == msg_node_attribute_list
    || type == msg_node_command_id_list

-- What is offered to the callback queue for a message.
unfoldable pub offered {ℓ} : {C : Type ℓ} → Message → List (Listener C) → Option (CallbackData C)
offered m list = if is_node_list m.type then none else callback_data m (find_listener m.type list)

-- The state of the reader task: the receiver, the flag `iHandled`, the waiters' slots, and what has
-- been put into the callback queue, the newest first.
pub record Reader {ℓ} (C : Type ℓ) : Type ℓ where
  pub rx : Rx
  pub handled : Bool
  pub slots : List Slot
  pub queued : List (CallbackData C)

abbrev pub is_ok : SlStatus → Bool
is_ok ok = true
is_ok _ = false

-- `memset`, and the length that no end character passes.
abbrev pub fresh : Rx → Rx
fresh rx = record rx { type = 0; len = 0xFFFF; message = replicate max_message_length 0 }

abbrev pub received : Rx → Message
received rx = record { type = rx.type; len = rx.len; bytes = rx.message }

module _ {ℓ} {C : Type ℓ} where
  -- `xQueueSend`; `room` is its answer.
  abbrev pub enqueue : Bool → Option (CallbackData C) → Reader C → Reader C
  enqueue room none t = t
  enqueue true (some c) t = record t { handled = true; queued = c ∷ t.queued }
  enqueue false (some c) t = t

  -- The body of the loop on a message received.
  pub handle_message : Bool → List (Listener C) → Message → Reader C → Run (Reader C)
  unfolding offered
  handle_message room list m t =
      let logged : Run (Reader C) = done (record t { handled = true }) in
      let queued : Run (Reader C) = message_queue m t.slots >>= λ r.
      done (record t { handled = if is_ok r.0 then true else t.handled; slots = r.1 }) in
      (if m.type == msg_log then logged else queued) >>= λ t'.
      done (enqueue room (offered m list) t')

  -- One round of the loop, with the bytes left to read.
  unfoldable pub read_task : Bool → List (Listener C) → Reader C → List ℕ → Run (Reader C × List ℕ)
  read_task room list t bytes = do
    r ← read_message max_message_length (fresh t.rx) bytes
    let t' = record t { rx = r.1 }
    let got = handle_message room list (received r.1) t' >>= λ u. done (u, r.2)
    if is_ok r.0 then got else done (t', r.2)
