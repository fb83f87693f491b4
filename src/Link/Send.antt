-- ===== src/Link/Send.antt =====
-- Sending a command and waiting for its status: `eSL_SendMessage` and `eSL_SendMessageNoWait`.
-- What the reader task does meanwhile is given by two lists of received messages: `early` ones
-- come in between the write and the wait, `late` ones during the wait, which ends by its event or
-- by its time-out. If the event is set before the wait begins, the wait is over at once, and the late
-- messages are not part of it. No other task begins or ends a wait in between.
pub mod Slots
pub mod Status
use dm_matter_zigbee_bridge.Prelude.{
  ℕ, Bool, true, false, ◌&&◌, Option, none, some, List, [], ◌∷◌, length, get_elem?, ◌==◌,
  if◌then◌else◌, Run, done, fault, ◌>>=◌,
}
use dm_matter_zigbee_bridge.Link.{
  SlStatus, ok, error, no_message, error_serial, error_nomem, msg_status, Message,
}
use dm_matter_zigbee_bridge.Link.Frame.{read, write_message}
use dm_matter_zigbee_bridge.Link.Waiters.{
  Pointee, own_status, copy, Slot, claim, Reply, delivered, timed_out, wake, message_queue,
}

-- The values of `teSL_Status`.
abbrev pub status_code : SlStatus → ℕ
status_code ok = 0
status_code error = 1
status_code no_message = 2
status_code error_serial = 3
status_code error_nomem = 4

-- The value returned, what is put into `*pu8SequenceNo`, the bytes sent, and the slots.
pub record Sent : Type 0 where
  pub code : ℕ
  pub seq : Option ℕ
  pub wire : List ℕ
  pub slots : List Slot

unfoldable pub queue_all : List Message → List Slot → Run (List Slot)
queue_all [] slots = done slots
queue_all (m ∷ ms) slots = message_queue m slots >>= λ r. queue_all ms r.1

-- After the wait; `wants` says that `pu8SequenceNo` is not NULL. If what came back is not a copy,
-- `psStatus` is still the sender's own record: its `eStatus` is not set, and `vPortFree` is handed
-- a variable of the stack.
pub answer : Bool → List ℕ → List Slot → Reply → Run Sent
answer wants wire slots timed_out =
    done (record { code = status_code no_message; seq = none; wire = wire; slots = slots })
answer wants wire slots (delivered len (copy bytes)) =
    let plain : Run Sent =
      read bytes 0 >>= λ c. done (record { code = c; seq = none; wire = wire; slots = slots }) in
    let sequenced : Run Sent =
      read bytes 1 >>= λ q. done (record { code = 0; seq = some q; wire = wire; slots = slots }) in
    read bytes 0 >>= λ c. (if c == status_code ok && wants then sequenced else plain)
answer wants wire slots (delivered len _) = fault

-- `xEventGroupWaitBits` returns at once if the bit is set already.
abbrev pub is_pending : Option Slot → Bool
is_pending none = false
is_pending (some s) = s.event

abbrev pub while_waiting : ℕ → List Message → List Slot → Run (List Slot)
while_waiting i late waiting =
    let arrived = queue_all late waiting in
    if is_pending (get_elem? waiting i) then done waiting else arrived

pub finish : Bool → List ℕ → List Message → List Slot → Option (ℕ × List Slot) → Run Sent
finish wants wire late slots none =
    done (record { code = status_code error; seq = none; wire = wire; slots = slots })
finish wants wire late slots (some (i, waiting)) = do
  arrived ← while_waiting i late waiting
  r ← wake i arrived
  answer wants wire r.1 r.0

unfoldable pub send_message :
    List ℕ → ℕ → List ℕ → Bool → List Message → List Message → List Slot → Run Sent
send_message buffer type payload wants early late slots = do
  w ← write_message buffer type (length payload) payload
  found ← queue_all early slots
  let waiting = finish wants w.1 late found (claim msg_status (own_status type) found)
  let failed : Run Sent =
      done (record { code = status_code w.0; seq = none; wire = w.1; slots = found })
  if status_code w.0 == status_code ok then waiting else failed

unfoldable pub send_message_no_wait : List ℕ → ℕ → List ℕ → Run (SlStatus × List ℕ)
send_message_no_wait buffer type payload = write_message buffer type (length payload) payload
