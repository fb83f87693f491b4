-- ===== src/Qualify.antt =====
-- `vZDM_NewDeviceQualifyProcess` of zigbee_bridge/rt/rw61x/ZCB/ZigbeeDevices.c: the requests by which
-- a new device becomes active.
pub mod Phases
pub mod Process
mod Tests
use dm_matter_zigbee_bridge.Prelude.{
  ℕ, ◌+◌, Option, none, some, List, [], ◌∷◌, ◌++◌, get_elem?, set, Run, done, fault, ◌>>=◌,
}
use dm_matter_zigbee_bridge.Zcb.{Call}
use dm_matter_zigbee_bridge.Devices.{Device, Attribute}

-- What becomes of a request and the wait behind it: the request is not sent, no message comes within
-- a second, or one does.
pub data Reply : Type 0 where
  unsent unanswered answered : Reply

-- The two tables, the static `epArrayIndex`, `zbNetworkInfo.u64IeeeAddress`, what becomes of the
-- requests to come (beyond the list none is sent), and the requests made, the oldest first.
pub record Work : Type 0 where
  pub devices : List Device
  pub attributes : List Attribute
  pub ep_index : ℕ
  pub own_mac : ℕ
  pub replies : List Reply
  pub log : List Call

-- The values of `teZbDeviceState` that the function knows.
abbrev pub new_joined : ℕ
new_joined = 1

abbrev pub active : ℕ
active = 2

abbrev pub get_cluster : ℕ
get_cluster = 0x21

abbrev pub bind_cluster : ℕ
bind_cluster = 0x22

abbrev pub read_attribute : ℕ
read_attribute = 0x24

abbrev pub logged : Call → Work → Work
logged c w = record w { log = w.log ++ (c ∷ []) }

abbrev pub reply_of : List Reply → Reply
reply_of [] = unsent
reply_of (r ∷ rs) = r

abbrev pub later_replies : List Reply → List Reply
later_replies [] = []
later_replies (r ∷ rs) = rs

-- A request and the wait for the message that answers it.
abbrev pub exchange : Call → Work → Work
exchange c w = record (logged c w) { replies = later_replies w.replies }

-- The device that the argument points to is the entry `k` of the table.
abbrev pub device_at : ℕ → Work → Run Device
device_at k w = elim (get_elem? w.devices k) [ none ↦ fault | some d ↦ done d ]

abbrev pub put_at : ℕ → Device → Work → Work
put_at k d w = record w { devices = set w.devices k d }
