-- ===== src/Link/Send/Slots.antt =====
-- What received messages do to the slots while a sender waits for its status.
use dm_matter_zigbee_bridge.Prelude.{
  ℕ, suc, true, false, List, [], ◌∷◌, ◌++◌, ◌≡◌, ◌≢◌, refl, sym, ap, ◌∙◌, inl, inr, Bool-cases,
  length, All, ◌==◌, ne→==, if◌then◌else◌, Run, done, ◌>>=◌,
}
use dm_matter_zigbee_bridge.Link.{SlStatus, ok, no_message, msg_status, Message}
use dm_matter_zigbee_bridge.Link.Waiters.{
  Slot, delivered, timed_out, wake, deliver, takes, keep_first, message_queue,
}
use dm_matter_zigbee_bridge.Link.Waiters.Delivery.{NoneOf, message_queue_taken, wake-middle}
use dm_matter_zigbee_bridge.Link.Send.{queue_all}

pub record Undisturbed (slots : List Slot) (r : Run (SlStatus × List Slot)) : Type 0 where
  pub status : SlStatus
  pub slots' : List Slot
  pub runs : r ≡ done (status, slots')
  pub none_waits : NoneOf msg_status slots'
  pub as_long : length slots' ≡ length slots

-- A message that is no status leaves the slots free of status waiters.
message_queue-Undisturbed :
    (m : Message) (slots : List Slot)
    → m.type ≢ msg_status
    → NoneOf msg_status slots
    → Undisturbed slots (message_queue m slots)
unfolding message_queue
message_queue-Undisturbed m [] ne n = record {
  status = no_message;
  slots' = [];
  runs = refl;
  none_waits = tt;
  as_long = refl;
}
message_queue-Undisturbed m (x ∷ slots) ne n = elim (Bool-cases (x.type == m.type)) [
  | inl e ↦ record {
    status = ok;
    slots' = deliver m x ∷ slots;
    runs = rw (e, ne→== m.type msg_status ne);
    none_waits = n;
    as_long = refl;
  }
  | inr e ↦
      let ih = message_queue-Undisturbed m slots ne n.1 in
      record {
        status = ih.status;
        slots' = x ∷ ih.slots';
        runs = rw (e, ih.runs);
        none_waits = (n.0, ih.none_waits);
        as_long = ap suc ih.as_long;
      }
]

-- The slot `s` of a sender still stands at index `i`, and is the only one that waits for a status.
pub record Kept (i : ℕ) (s : Slot) (slots : List Slot) : Type 0 where
  pub before : List Slot
  pub after : List Slot
  pub split : slots ≡ before ++ (s ∷ after)
  pub at_index : length before ≡ i
  pub none_before : NoneOf msg_status before
  pub none_after : NoneOf msg_status after

pub record KeptBy (i : ℕ) (s : Slot) (r : Run (SlStatus × List Slot)) : Type 0 where
  pub status : SlStatus
  pub slots' : List Slot
  pub runs : r ≡ done (status, slots')
  pub kept : Kept i s slots'

keep_first-KeptBy :
    (i : ℕ) (s x : Slot) (r : Run (SlStatus × List Slot))
    → x.type ≢ msg_status
    → KeptBy i s r
    → KeptBy (suc i) s (r >>= keep_first x)
keep_first-KeptBy i s x r n k = record {
  status = k.status;
  slots' = x ∷ k.slots';
  runs = rw k.runs;
  kept = record {
    before = x ∷ k.kept.before;
    after = k.kept.after;
    split = ap (◌∷◌ x) k.kept.split;
    at_index = ap suc k.kept.at_index;
    none_before = (n, k.kept.none_before);
    none_after = k.kept.none_after;
  };
}

message_queue-KeptBy :
    (m : Message) (before : List Slot) (s : Slot) (after : List Slot)
    → m.type ≢ msg_status
    → s.type ≡ msg_status
    → NoneOf msg_status before
    → NoneOf msg_status after
    → KeptBy (length before) s (message_queue m (before ++ (s ∷ after)))
unfolding message_queue
message_queue-KeptBy m [] s after ne e n n' =
    let rest = message_queue-Undisturbed m after ne n' in
    let other : (s.type == m.type) ≡ false = ne→== s.type m.type (λ h. ne (sym h ∙ e)) in
    record {
      status = rest.status;
      slots' = s ∷ rest.slots';
      runs = rw (other, rest.runs);
      kept = record {
        before = [];
        after = rest.slots';
        split = refl;
        at_index = refl;
        none_before = tt;
        none_after = rest.none_waits;
      };
    }
message_queue-KeptBy m (x ∷ before) s after ne e n n' = elim (Bool-cases (x.type == m.type)) [
  | inl y ↦ record {
    status = ok;
    slots' = deliver m x ∷ (before ++ (s ∷ after));
    runs = rw (y, ne→== m.type msg_status ne);
    kept = record {
      before = deliver m x ∷ before;
      after = after;
      split = refl;
      at_index = refl;
      none_before = n;
      none_after = n';
    };
  }
  | inr y ↦ rw y (
      keep_first-KeptBy (length before) s x (message_queue m (before ++ (s ∷ after))) n.0
        (message_queue-KeptBy m before s after ne e n.1 n'))
]

abbrev pub NoStatus : List Message → Type 0
NoStatus ms = All (λ (m : Message). m.type ≢ msg_status) ms

pub record KeptAfter (i : ℕ) (s : Slot) (r : Run (List Slot)) : Type 0 where
  pub slots' : List Slot
  pub runs : r ≡ done slots'
  pub kept : Kept i s slots'

pub queue_all-KeptAfter :
    (ms : List Message) (i : ℕ) (s : Slot) (slots : List Slot)
    → NoStatus ms
    → s.type ≡ msg_status
    → Kept i s slots
    → KeptAfter i s (queue_all ms slots)
unfolding queue_all
queue_all-KeptAfter [] i s slots q e k = record { slots' = slots; runs = refl; kept = k }
queue_all-KeptAfter (m ∷ ms) i s slots q e k =
    let one = message_queue-KeptBy m k.before s k.after q.0 e k.none_before k.none_after in
    let ih = queue_all-KeptAfter ms i s one.slots' q.1 e (rw k.at_index at one.kept) in
    record { slots' = ih.slots'; runs = rw (k.split, one.runs) ih.runs; kept = ih.kept }

pub queue_all-delivered :
    (ms : List Message) (m : Message) (i : ℕ) (s : Slot) (slots : List Slot)
    → NoStatus ms
    → s.type ≡ msg_status
    → m.type ≡ msg_status
    → takes m s ≡ done true
    → Kept i s slots
    → KeptAfter i (deliver m s) (queue_all (ms ++ (m ∷ [])) slots)
unfolding queue_all
queue_all-delivered [] m i s slots q e em t k = record {
  slots' = k.before ++ (deliver m s ∷ k.after);
  runs =
      rw (k.split, message_queue_taken m k.before s k.after (rw em k.none_before) (e ∙ sym em) t);
  kept = record {
    before = k.before;
    after = k.after;
    split = refl;
    at_index = k.at_index;
    none_before = k.none_before;
    none_after = k.none_after;
  };
}
queue_all-delivered (x ∷ ms) m i s slots q e em t k =
    let one = message_queue-KeptBy x k.before s k.after q.0 e k.none_before k.none_after in
    let ih = queue_all-delivered ms m i s one.slots' q.1 e em t (rw k.at_index at one.kept) in
    record { slots' = ih.slots'; runs = rw (k.split, one.runs) ih.runs; kept = ih.kept }

pub wake-Kept :
    (i : ℕ) (s : Slot) (slots : List Slot)
    → Kept i s slots
    → (slots' : List Slot) × (wake i slots
        ≡ done (if s.event then delivered s.len s.message else timed_out, slots'))
wake-Kept i s slots k = (
  k.before ++ (record s { type = 0; event = false } ∷ k.after),
  rw (k.split, ← k.at_index) (wake-middle k.before s k.after),
)
