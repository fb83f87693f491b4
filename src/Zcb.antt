-- ===== src/Zcb.antt =====
-- The host's side of the Zigbee control bridge, zigbee_bridge/rt/rw61x/ZCB/zcb.c and cmd.c: what
-- one call to the bridge is, and what it returns.
pub mod Fields
pub mod Commands
pub mod Requests
pub mod Ota
pub mod Issued
pub mod OverLink
pub mod Init
mod Tests
use dm_matter_zigbee_bridge.Prelude.{
  ℕ, Bool, true, false, List, [], ◌∷◌, ◌==◌, if◌then◌else◌, Run, done, fault, ◌>>=◌,
}
use Fields.{Field, encode}

-- The values of teZcbStatus that the calls return.
pub data ZcbStatus : Type 0 where
  ok error comms_failed request_not_actioned invalid_value : ZcbStatus

-- What a call does: it refuses its arguments, it reads outside them, or it fills a message and sends it, waiting for the
-- status (`eSL_SendMessage`) or not (`eSL_SendMessageNoWait`).
pub data Call : Type 0 where
  refuses : ZcbStatus → Call
  faults : Call
  sends : ℕ → List Field → Call
  sends_no_wait : ℕ → List Field → Call

-- The last statements of every call, on what the link returns.
abbrev pub sent_status : ℕ → ZcbStatus
sent_status code = if code == 0 then ok else comms_failed

-- A call over the link's two operations, which take the type and the message.
unfoldable pub perform : (ℕ → List ℕ → Run ℕ) → (ℕ → List ℕ → Run ℕ) → Call → Run ZcbStatus
perform send send_no_wait (refuses status) = done status
perform send send_no_wait faults = fault
perform send send_no_wait (sends type fields) = do
  code ← send type (encode fields)
  done (sent_status code)
perform send send_no_wait (sends_no_wait type fields) = do
  code ← send_no_wait type (encode fields)
  done (sent_status code)
