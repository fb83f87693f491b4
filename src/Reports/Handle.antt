-- ===== src/Reports/Handle.antt =====
-- `ZCB_HandleAttributeReport`.
pub mod Values
pub mod Delivered
use dm_matter_zigbee_bridge.Prelude.{
  ℕ, suc, ◌+◌, ◌*◌, Bool, true, false, Option, none, some, List, [], ◌∷◌, get_or, set, drop, ◌==◌,
  if◌then◌else◌,
}
use dm_matter_zigbee_bridge.Zcb.{Call}
use dm_matter_zigbee_bridge.Zcb.Requests.{ieee_address_request}
use dm_matter_zigbee_bridge.Devices.{Device, Attribute}
use dm_matter_zigbee_bridge.Devices.Table.{find_by_node_id, find_index_by_node_id}
use dm_matter_zigbee_bridge.Devices.Attributes.{find_attribute}
use dm_matter_zigbee_bridge.Reports.{report_value}
use dm_matter_zigbee_bridge.Reports.Mailbox.{Mailbox, handle_attribute}

-- The device table, the counts of the device timers and whether each timer runs, the attribute
-- table, and the mailbox.
pub record Bridge : Type 0 where
  pub devices : List Device
  pub timers : List ℕ
  pub running : List Bool
  pub attributes : List Attribute
  pub box : Mailbox

-- The fields of the report in memory, swapped by `pri_ntohs`.
abbrev pub half : List ℕ → ℕ → ℕ
half m i = get_or m i 0 * 256 + get_or m (suc i) 0

abbrev pub active : ℕ
active = 2

abbrev pub off_line : ℕ
off_line = 3

-- A device that was off-line is active again.
abbrev pub revived : Device → Device
revived d = record d { state = if d.state == off_line then active else d.state }

unfoldable pub revive : ℕ → List Device → List Device
revive id [] = []
revive id (d ∷ ds) = let rest = revive id ds in if d.node_id == id then revived d ∷ ds else d ∷ rest

abbrev pub with_value : Bool → List ℕ → Bridge → Option Attribute → Bridge
with_value memory m t none = t
with_value memory m t (some a) = record t {
  box =
      handle_attribute memory (half m 4) (half m 6) (report_value (get_or m 9 0) (drop 12 m)) t.box;
}

-- The new state, and the request that is sent; `m` is the whole message buffer.
unfoldable pub handle_attribute_report : Bool → List ℕ → Bridge → Bridge × Option Call
handle_attribute_report memory m t = elim (find_by_node_id (half m 1) t.devices) [
  | none ↦ (t, some (ieee_address_request (half m 1) (half m 1) 0 0))
  | some d ↦
      let t' = record t {
        devices = revive (half m 1) t.devices;
        timers = set t.timers (find_index_by_node_id (half m 1) t.devices) 0;
        running = set t.running (find_index_by_node_id (half m 1) t.devices) true;
      } in
      (
        with_value memory m t'
            (find_attribute (half m 1) (get_or m 3 0) (half m 4) (half m 6) t.attributes),
        none,
      )
]
