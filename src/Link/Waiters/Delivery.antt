-- ===== src/Link/Waiters/Delivery.antt =====
-- Which slot a waiter takes, which slot a message goes to, and what the waiter then gets.
use dm_matter_zigbee_bridge.Prelude.{
  ℕ, true, false, none, some, List, [], ◌∷◌, ◌++◌, ◌≡◌, ◌≢◌, refl, sym, ap, ◌∙◌, ◌⊎◌, inl, inr,
  Bool-cases, arith, length, get_elem?, set, take, All, ◌==◌, eq→==, ne→==, if◌then◌else◌, Run,
  done, fault, spin, ◌>>=◌,
}
use dm_matter_zigbee_bridge.Link.{SlStatus, ok, no_message, msg_status, Message}
use dm_matter_zigbee_bridge.Link.Waiters.{
  Pointee, own_status, copy, Slot, claimed, claim, delivered, timed_out, wake, status_type, deliver,
  takes, keep_first, message_queue,
}

abbrev pub NoneOf : ℕ → List Slot → Type 0
NoneOf type slots = All (λ (s : Slot). s.type ≢ type) slots

pub claim-first :
    (type : ℕ) (p : Pointee) (before : List Slot) (s : Slot) (after : List Slot)
    → NoneOf 0 before
    → s.type ≡ 0
    → claim type p (before ++ (s ∷ after))
      ≡ some (length before, before ++ (claimed type p s ∷ after))
unfolding claim
claim-first type p [] s after n e = rw (eq→== s.type 0 e)
claim-first type p (x ∷ before) s after n e =
    rw (ne→== x.type 0 n.0, claim-first type p before s after n.1 e)

claim-full :
    (type : ℕ) (p : Pointee) (slots : List Slot) → NoneOf 0 slots → claim type p slots ≡ none
unfolding claim
claim-full type p [] n = refl
claim-full type p (x ∷ slots) n = rw (ne→== x.type 0 n.0, claim-full type p slots n.1)

abbrev prefixed : List Slot → SlStatus × List Slot → Run (SlStatus × List Slot)
prefixed before r = done (r.0, before ++ r.1)

prefixed-nil : (r : Run (SlStatus × List Slot)) → r ≡ (r >>= prefixed [])
prefixed-nil (done r) = refl
prefixed-nil fault = refl
prefixed-nil spin = refl

prefixed-cons :
    (s : Slot) (before : List Slot) (r : Run (SlStatus × List Slot))
    → ((r >>= prefixed before) >>= keep_first s) ≡ (r >>= prefixed (s ∷ before))
prefixed-cons s before (done r) = refl
prefixed-cons s before fault = refl
prefixed-cons s before spin = refl

message_queue-skip :
    (m : Message) (before rest : List Slot)
    → NoneOf m.type before
    → message_queue m (before ++ rest) ≡ (message_queue m rest >>= prefixed before)
unfolding message_queue
message_queue-skip m [] rest n = prefixed-nil (message_queue m rest)
message_queue-skip m (x ∷ before) rest n =
    rw (ne→== x.type m.type n.0, message_queue-skip m before rest n.1)
      (prefixed-cons x before (message_queue m rest))

-- No slot waits for the type: nothing happens.
pub message_queue_unwanted :
    (m : Message) (slots : List Slot)
    → NoneOf m.type slots
    → message_queue m slots ≡ done (no_message, slots)
unfolding message_queue
message_queue_unwanted m [] n = refl
message_queue_unwanted m (x ∷ slots) n =
    rw (ne→== x.type m.type n.0, message_queue_unwanted m slots n.1)

-- The first slot with the type takes the message.
pub message_queue_taken :
    (m : Message) (before : List Slot) (s : Slot) (after : List Slot)
    → NoneOf m.type before
    → s.type ≡ m.type
    → takes m s ≡ done true
    → message_queue m (before ++ (s ∷ after)) ≡ done (ok, before ++ (deliver m s ∷ after))
message_queue_taken m before s after n e t =
    message_queue-skip m before (s ∷ after) n
    ∙ unfold message_queue in rw (eq→== s.type m.type e, t)

-- A slot that refuses the message is freed.
pub message_queue_refused :
    (m : Message) (before : List Slot) (s : Slot) (after : List Slot)
    → NoneOf m.type before
    → NoneOf m.type after
    → s.type ≡ m.type
    → takes m s ≡ done false
    → message_queue m (before ++ (s ∷ after))
      ≡ done (no_message, before ++ (record s { type = 0 } ∷ after))
message_queue_refused m before s after n n' e t =
    message_queue-skip m before (s ∷ after) n
    ∙ unfold message_queue in rw (eq→== s.type m.type e, t, message_queue_unwanted m after n')

get_elem?-middle :
    (before : List Slot) (s : Slot) (after : List Slot)
    → get_elem? (before ++ (s ∷ after)) (length before) ≡ some s
get_elem?-middle [] s after = refl
get_elem?-middle (x ∷ before) s after = get_elem?-middle before s after

set-middle :
    (before : List Slot) (s t : Slot) (after : List Slot)
    → set (before ++ (s ∷ after)) (length before) t ≡ before ++ (t ∷ after)
set-middle [] s t after = refl
set-middle (x ∷ before) s t after = ap (◌∷◌ x) (set-middle before s t after)

pub wake-middle :
    (before : List Slot) (s : Slot) (after : List Slot)
    → wake (length before) (before ++ (s ∷ after))
      ≡ done (
        if s.event then delivered s.len s.message else timed_out,
        before ++ (record s { type = 0; event = false } ∷ after),
      )
unfolding wake
wake-middle before s after =
    rw (wake, get_elem?-middle before s after) (rw (set-middle before s _ after))

-- What a waiter may be waiting with: for a message other than a status, or for the status of the
-- very message that it sent.
abbrev pub IsFor : Message → Pointee → Type 0
IsFor m p = (m.type ≢ msg_status) ⊎ (p ≡ own_status (status_type m.bytes))

takes-claimed :
    (m : Message) (p : Pointee) (s : Slot) → IsFor m p → takes m (claimed m.type p s) ≡ done true
takes-claimed m p s (inl n) = rw (ne→== m.type msg_status n)
takes-claimed m p s (inr e) = elim (Bool-cases (m.type == msg_status)) [
  | inl y ↦ rw (y, e, eq→== (status_type m.bytes) (status_type m.bytes) refl)
  | inr n ↦ rw n
]

-- A wait that is answered: with a free slot, and no earlier slot waiting for the same type,
-- eSL_MessageWait takes the first free slot, eSL_MessageQueue puts the message of that type
-- there, and the wait returns its length and a copy of its bytes. No other slot is touched, and
-- the slot is free again. The message is no status, or a status for the type that the waiter
-- sent.
pub claim-message_queue-wake :
    (m : Message) (p : Pointee) (before : List Slot) (s : Slot) (after : List Slot)
    → NoneOf 0 before
    → NoneOf m.type before
    → s.type ≡ 0
    → IsFor m p
    → let waiting = before ++ (claimed m.type p s ∷ after) in
      let signalled = before ++ (deliver m (claimed m.type p s) ∷ after) in
      let message = copy (take m.len m.bytes) in
      (claim m.type p (before ++ (s ∷ after)) ≡ some (length before, waiting))
      × (message_queue m waiting ≡ done (ok, signalled))
      × (wake (length before) signalled
          ≡ done (
            delivered m.len message,
            before
                ++ (record s { type = 0; len = m.len; message = message; event = false } ∷ after),
          ))
claim-message_queue-wake m p before s after n0 n e f =
    let waiting = claimed m.type p s in
    (
      claim-first m.type p before s after n0 e,
      message_queue_taken m before waiting after n refl (takes-claimed m p s f),
      wake-middle before (deliver m waiting) after,
    )

takes-other :
    (m : Message) (type : ℕ) (s : Slot)
    → m.type ≡ msg_status
    → status_type m.bytes ≢ type
    → takes m (claimed msg_status (own_status type) s) ≡ done false
takes-other m type s e n = rw (eq→== m.type msg_status e, ne→== type _ (λ h. n (sym h)))

NoneOf-freed :
    (before : List Slot) (s : Slot) (after : List Slot)
    → NoneOf msg_status before
    → NoneOf msg_status after
    → NoneOf msg_status (before ++ (record s { type = 0 } ∷ after))
NoneOf-freed [] s after n n' = (omega arith, n')
NoneOf-freed (x ∷ before) s after n n' = (n.0, NoneOf-freed before s after n.1 n')

-- A status for another message ends the wait of a sender for good: its slot is freed by the stray
-- status, the status for its own message that follows finds no slot, and the sender times out,
-- when it is the only one that waits for a status and its slot has no event pending.
pub stray_status_loses :
    (stray own : Message) (type : ℕ) (before : List Slot) (s : Slot) (after : List Slot)
    → NoneOf 0 before
    → NoneOf msg_status before
    → NoneOf msg_status after
    → s.type ≡ 0
    → s.event ≡ false
    → stray.type ≡ msg_status
    → status_type stray.bytes ≢ type
    → own.type ≡ msg_status
    → status_type own.bytes ≡ type
    → let waiting = before ++ (claimed msg_status (own_status type) s ∷ after) in
      let freed = before ++ (record s { type = 0; message = own_status type } ∷ after) in
      (claim msg_status (own_status type) (before ++ (s ∷ after)) ≡ some (length before, waiting))
      × (message_queue stray waiting ≡ done (no_message, freed))
      × (message_queue own freed ≡ done (no_message, freed))
      × (wake (length before) freed ≡ done (timed_out, freed))
stray_status_loses stray own type before s after n0 n n' e quiet st ne ow eq =
    let w = claimed msg_status (own_status type) s in
    let f : Slot = record s { type = 0; message = own_status type } in
    (
      claim-first msg_status (own_status type) before s after n0 e,
      message_queue_refused stray before w after (rw st n) (rw st n') (sym st)
          (takes-other stray type s st ne),
      message_queue_unwanted own _ (rw ow (NoneOf-freed before f after n n')),
      wake-middle before f after ∙ rw quiet,
    )
