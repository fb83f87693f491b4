-- ===== src/Link.antt =====
-- The serial link to the Zigbee control bridge, zigbee_bridge/rt/rw61x/ZCB/SerialLink.c: the
-- constants and the types that its parts share.
pub mod Frame
pub mod Reader
pub mod Waiters
pub mod Send
pub mod Dispatch
mod Tests
mod TaskTests
use dm_matter_zigbee_bridge.Prelude.{ℕ, List}

-- SL_START_CHAR, SL_ESC_CHAR and SL_END_CHAR.
abbrev pub start_char : ℕ
start_char = 0x01

abbrev pub esc_char : ℕ
esc_char = 0x02

abbrev pub end_char : ℕ
end_char = 0x03

abbrev pub max_message_length : ℕ
max_message_length = 256

-- teSL_Status.
pub data SlStatus : Type 0 where
  ok error no_message error_serial error_nomem : SlStatus

-- The types E_SL_MSG_STATUS, E_SL_MSG_LOG and those that `serialReadTask` keeps from the listeners.
abbrev pub msg_status : ℕ
msg_status = 0x8000

abbrev pub msg_log : ℕ
msg_log = 0x8001

abbrev pub msg_node_cluster_list : ℕ
msg_node_cluster_list = 0x8003

abbrev pub msg_node_attribute_list : ℕ
msg_node_attribute_list = 0x8004

abbrev pub msg_node_command_id_list : ℕ
msg_node_command_id_list = 0x8005

-- tsSL_Message. `bytes` is the whole of `au8Message`, of which the first `len` bytes were received.
pub record Message : Type 0 where
  pub type : ℕ
  pub len : ℕ
  pub bytes : List ℕ
