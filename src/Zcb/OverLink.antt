-- ===== src/Zcb/OverLink.antt =====
-- A call of zcb.c or cmd.c over the serial link, up to what the control bridge reads.
use dm_matter_zigbee_bridge.Prelude.{ℕ, Bool, List, [], ◌≡◌, take, some, Run, done, ◌>>=◌}
use dm_matter_zigbee_bridge.Link.{ok, Message}
use dm_matter_zigbee_bridge.Link.Reader.{Rx, read_message}
use dm_matter_zigbee_bridge.Link.Waiters.{Slot}
use dm_matter_zigbee_bridge.Link.Send.{Sent, send_message}
use dm_matter_zigbee_bridge.Zcb.Fields.{Field, shapes, values, decode}
use dm_matter_zigbee_bridge.Zcb.Issued.{Issued}

-- `eSL_SendMessage` for `perform`: what it returns, with the state of the link given.
abbrev pub link_code : Sent → Run ℕ
link_code s = done s.code

abbrev pub over_link : List ℕ → Bool → List Message → List Slot → ℕ → List ℕ → Run ℕ
over_link buffer wants late slots type payload =
    send_message buffer type payload wants [] late slots >>= link_code

-- What the control bridge makes of the bytes on the wire, from any state of its receiver, if it
-- reads frames as `eSL_ReadMessage` does: the type, and the values of the fields.
pub record IsRead (type : ℕ) (fields : List Field) (rx : Rx) (wire : List ℕ) : Type 0 where
  pub q : Rx
  pub reads : read_message 256 rx wire ≡ done (ok, q, [])
  pub type_is : q.type ≡ type
  pub fields_are : decode (shapes fields) (take q.len q.message) ≡ some (values fields, [])
