-- ===== src/Link/Waiters.antt =====
-- Waiting for a message: `eSL_MessageWait`, and `eSL_MessageQueue`, by which the reader task hands
-- a received message to the task that waits for it. `pvPortMalloc` is taken to succeed, which
-- the source asserts.
pub mod Delivery
use dm_matter_zigbee_bridge.Prelude.{
  ℕ, suc, ◌+◌, ◌*◌, Bool, true, false, not, Option, none, some, List, [], ◌∷◌, length, get_elem?,
  get_or, set, take, replicate, ltb, ◌==◌, if◌then◌else◌, Run, done, fault, ◌>>=◌,
}
use dm_matter_zigbee_bridge.Link.{SlStatus, ok, no_message, msg_status, Message}

abbrev pub max_message_queues : ℕ
max_message_queues = 5

-- What `pu8Message` of a slot points to: nothing, the waiting sender's own status record with the
-- type of the message that it sent, or the copy of a received message.
pub data Pointee : Type 0 where
  null : Pointee
  own_status : ℕ → Pointee
  copy : List ℕ → Pointee

-- An element of `asReaderMessageQueue`; `event` is bit 0 of its event group.
pub record Slot : Type 0 where
  pub type : ℕ
  pub len : ℕ
  pub message : Pointee
  pub event : Bool

-- The slots after `eSL_Init`.
abbrev pub init_slots : List Slot
init_slots =
    replicate max_message_queues (record { type = 0; len = 0; message = null; event = false })

abbrev pub claimed : ℕ → Pointee → Slot → Slot
claimed type p s = record s { type = type; message = if type == msg_status then p else s.message }

abbrev pub later : Slot → Option (ℕ × List Slot) → Option (ℕ × List Slot)
later s none = none
later s (some (i, slots)) = some (suc i, s ∷ slots)

-- `eSL_MessageWait` up to the wait: the first free slot is taken. `p` is what `*ppvMessage` points
-- to, and `none` stands for E_SL_ERROR.
unfoldable pub claim : ℕ → Pointee → List Slot → Option (ℕ × List Slot)
claim type p [] = none
claim type p (s ∷ slots) =
    let rest = later s (claim type p slots) in
    if s.type == 0 then some (0, claimed type p s ∷ slots) else rest

-- What the waiting task gets: the length and the message, or a time-out.
pub data Reply : Type 0 where
  delivered : ℕ → Pointee → Reply
  timed_out : Reply

-- `eSL_MessageWait` from its wake-up on. The event bit is cleared by `xEventGroupWaitBits`, which
-- is called with pdTRUE for that.
unfoldable pub wake : ℕ → List Slot → Run (Reply × List Slot)
wake i slots = elim (get_elem? slots i) [
  | none ↦ fault
  | some s ↦ done (
    if s.event then delivered s.len s.message else timed_out,
    set slots i (record s { type = 0; event = false }),
  )
]

-- `u16MessageType` of a status record: in a received message the value is big-endian at offset 2,
-- and `psWaitStatus->u16MessageType` is a little-endian load.
abbrev pub status_type : List ℕ → ℕ
status_type bytes = get_or bytes 2 0 * 256 + get_or bytes 3 0

-- A copy of less than four bytes would be read out of range.
abbrev pub awaited : Pointee → Run (Option ℕ)
awaited null = done none
awaited (own_status type) = done (some type)
awaited (copy bytes) =
    if ltb (length bytes) 4 then fault else done (some (get_or bytes 3 0 * 256 + get_or bytes 2 0))

abbrev pub deliver : Message → Slot → Slot
deliver m s = record s { len = m.len; message = copy (take m.len m.bytes); event = true }

-- Whether a waiter's slot takes a message of its type: a status has to be for what it sent.
abbrev pub matches_sender : Message → Option ℕ → Run Bool
matches_sender m none = done true
matches_sender m (some type) = done (type == status_type m.bytes)

abbrev pub takes : Message → Slot → Run Bool
takes m s = if m.type == msg_status then awaited s.message >>= matches_sender m else done true

abbrev pub keep_first : Slot → SlStatus × List Slot → Run (SlStatus × List Slot)
keep_first s r = done (r.0, s ∷ r.1)

unfoldable pub message_queue : Message → List Slot → Run (SlStatus × List Slot)
message_queue m [] = done (no_message, [])
message_queue m (s ∷ slots) =
    let rest = message_queue m slots in
    let freed = rest >>= keep_first (record s { type = 0 }) in
    let here = takes m s >>= λ t. (if t then done (ok, deliver m s ∷ slots) else freed) in
    if s.type == m.type then here else rest >>= keep_first s
