-- ===== src/Link/Send/Status.antt =====
-- What `eSL_SendMessage` returns.
use dm_matter_zigbee_bridge.Prelude.{
  ℕ, ◌<◌, Bool, true, false, ◌&&◌, none, some, List, [], ◌∷◌, ◌++◌, ◌≡◌, refl, sym, ◌∙◌, inl, inr,
  Bool-cases, arith, length, take, get_elem?-here, ◌==◌, eq→==, if◌then◌else◌, done, fault,
}
use dm_matter_zigbee_bridge.Link.{msg_status, Message}
use dm_matter_zigbee_bridge.Link.Frame.Layout.{frame, write_message-frame}
use dm_matter_zigbee_bridge.Link.Waiters.{
  own_status, copy, Slot, claimed, delivered, status_type, deliver, takes,
}
use dm_matter_zigbee_bridge.Link.Waiters.Delivery.{
  NoneOf, message_queue_taken, claim-first, wake-middle,
}
use dm_matter_zigbee_bridge.Link.Send.{Sent, queue_all, while_waiting, answer, finish, send_message}
use dm_matter_zigbee_bridge.Link.Send.Slots.{Kept, NoStatus, queue_all-delivered, wake-Kept}

-- A link at rest as a sender finds it: a free slot, whose event is not set, and nobody else waiting
-- for a status.
pub record IsIdle (before : List Slot) (s : Slot) (after : List Slot) : Type 0 where
  pub none_free : NoneOf 0 before
  pub free : s.type ≡ 0
  pub quiet : s.event ≡ false
  pub none_before : NoneOf msg_status before
  pub none_after : NoneOf msg_status after

claimed-Kept :
    (type : ℕ) (before : List Slot) (s : Slot) (after : List Slot)
    → IsIdle before s after
    → Kept
        (length before)
        (claimed msg_status (own_status type) s)
        (before ++ (claimed msg_status (own_status type) s ∷ after))
claimed-Kept type before s after h = record {
  before = before;
  after = after;
  split = refl;
  at_index = refl;
  none_before = h.none_before;
  none_after = h.none_after;
}

-- The late messages are handled when the claimed slot has no event.
while_waiting-late :
    (late : List Message) (before : List Slot) (s : Slot) (after : List Slot)
    → s.event ≡ false
    → while_waiting (length before) late (before ++ (s ∷ after))
      ≡ queue_all late (before ++ (s ∷ after))
while_waiting-late late before s after e = rw (get_elem?-here before s after, e) refl

-- None of them is handled when it has one.
while_waiting-pending :
    (late : List Message) (before : List Slot) (s : Slot) (after : List Slot)
    → s.event ≡ true
    → while_waiting (length before) late (before ++ (s ∷ after)) ≡ done (before ++ (s ∷ after))
while_waiting-pending late before s after e = rw (get_elem?-here before s after, e) refl

queue_all-nil : (slots : List Slot) → queue_all [] slots ≡ done slots
unfolding queue_all
queue_all-nil slots = refl

answer-copy :
    (wants : Bool) (wire : List ℕ) (slots : List Slot) (len c q : ℕ) (rest : List ℕ)
    → (sent : Sent) × (answer wants wire slots (delivered len (copy (c ∷ q ∷ rest))) ≡ done sent)
      × (sent.code ≡ c)
      × (sent.seq ≡ (if c == 0 && wants then some q else none))
      × (sent.wire ≡ wire)
unfolding answer
answer-copy wants wire slots len c q rest = elim (Bool-cases (c == 0 && wants)) [
  | inl y ↦ (
    record { code = 0; seq = some q; wire = wire; slots = slots },
    rw y,
    ground arith,
    rw y,
    refl,
  )
  | inr y ↦ (record { code = c; seq = none; wire = wire; slots = slots }, rw y, refl, rw y, refl)
]

-- A command that the control bridge answers, with a payload of less than 256 bytes whose frame is
-- shorter than the transmit buffer, on a link with a free slot without a pending event, where
-- nobody else waits for a status: the bytes sent are the frame, and when, after other messages
-- that are no status, the status for the command's type comes in, with at least two bytes,
-- eSL_SendMessage returns the status code in it, with its sequence number if the code is success
-- and the caller asked for it.
pub send_message-answered :
    (buffer : List ℕ) (type : ℕ) (payload : List ℕ) (wants : Bool) (others : List Message)
    (m : Message) (before : List Slot) (s : Slot) (after : List Slot) (c q : ℕ) (rest : List ℕ)
    → length buffer ≡ 256
    → length payload < 256
    → length (frame type payload) < 256
    → IsIdle before s after
    → NoStatus others
    → m.type ≡ msg_status
    → status_type m.bytes ≡ type
    → take m.len m.bytes ≡ c ∷ q ∷ rest
    → (sent : Sent) × (send_message buffer type payload wants []
          (others ++ (m ∷ []))
          (before ++ (s ∷ after))
        ≡ done sent)
      × (sent.code ≡ c)
      × (sent.seq ≡ (if c == 0 && wants then some q else none))
      × (sent.wire ≡ frame type payload)
unfolding send_message finish
send_message-answered buffer type payload wants others m before s after c q rest hb lt short idle
      quiet em for_type bytes =
    let w = claimed msg_status (own_status type) s in
    let (wire, wrote, _, same) = write_message-frame buffer type payload hb lt in
    let found = claim-first msg_status (own_status type) before s after idle.none_free idle.free in
    let t : takes m w ≡ done true =
      rw (eq→== m.type msg_status em, eq→== type (status_type m.bytes) (sym for_type)) in
    let k =
      queue_all-delivered others m (length before) w _ quiet refl em t
        (claimed-Kept type before s after idle) in
    let (slots', woke) = wake-Kept (length before) (deliver m w) k.slots' k.kept in
    let late = while_waiting-late (others ++ (m ∷ [])) before w after idle.quiet in
    let (sent, answered, code, seq, wire_is) = answer-copy wants wire slots' m.len c q rest in
    (
      sent,
      rw wrote (rw queue_all-nil (rw found (rw late (rw k.runs (rw woke (rw bytes answered)))))),
      code,
      seq,
      wire_is ∙ same short,
    )

-- A message of type 0 is taken for one that a free slot waits for. If one comes in between the
-- write and the wait of an eSL_SendMessage with a payload of less than 256 bytes, on a link with
-- a free slot without a pending event where nobody else waits for a status, that call does not
-- wait for its status: it is woken at once, reads its own unset status record and frees a
-- variable of the stack. Later messages do not matter.
pub send_message-type_zero :
    (buffer : List ℕ) (type : ℕ) (payload : List ℕ) (wants : Bool) (m : Message)
    (late : List Message) (before : List Slot) (s : Slot) (after : List Slot)
    → length buffer ≡ 256
    → length payload < 256
    → IsIdle before s after
    → m.type ≡ 0
    → send_message buffer type payload wants (m ∷ []) late (before ++ (s ∷ after)) ≡ fault
unfolding send_message finish answer
send_message-type_zero buffer type payload wants m late before s after hb lt idle zero_type =
    let hit = deliver m s in
    let w = claimed msg_status (own_status type) hit in
    let (wire, wrote, _, _) = write_message-frame buffer type payload hb lt in
    let no_status : (m.type == msg_status) ≡ false = rw zero_type refl in
    let taken =
      message_queue_taken m before s after (rw zero_type idle.none_free) (idle.free ∙ sym zero_type)
        (rw no_status) in
    let found =
      claim-first msg_status (own_status type) before hit after idle.none_free idle.free in
    let at_once = while_waiting-pending late before w after refl in
    let woke = wake-middle before w after in
    let arrived : queue_all (m ∷ []) (before ++ (s ∷ after)) ≡ done (before ++ (hit ∷ after)) =
      unfold queue_all in rw taken in
    rw wrote (rw arrived (rw found (rw at_once (rw woke))))
