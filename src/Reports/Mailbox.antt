-- ===== src/Reports/Mailbox.antt =====
-- `eZCB_SendMsg` and `handleAttribute`, over a heap of the messages that are allocated.
use dm_matter_zigbee_bridge.Prelude.{
  ℕ, Bool, ◌&&◌, ◌||◌, Option, none, some, List, [], ◌∷◌, ◌++◌, length, get_elem?, set, ◌==◌,
  if◌then◌else◌, Run, done, fault,
}

-- ZcbAttribute_t.
pub record AttributeValue : Type 0 where
  pub cluster : ℕ
  pub attribute : ℕ
  pub value : ℕ

-- `ZcbMsg` without its copy of `sZcb`, and the heap: `none` stands for memory that was freed.
pub record Mailbox : Type 0 where
  pub msg_type : ℕ
  pub msg_data : Option ℕ
  pub heap : List (Option AttributeValue)

abbrev pub bridge_write_attribute : ℕ
bridge_write_attribute = 4

abbrev pub alloc : AttributeValue → Mailbox → Mailbox
alloc v b = record b { heap = b.heap ++ (some v ∷ []) }

-- `eZCB_SendMsg` with a `Zcb` that is not null.
abbrev pub send_msg : ℕ → Option ℕ → Mailbox → Mailbox
send_msg type message b = record b { msg_type = type; msg_data = message }

abbrev pub free : ℕ → Mailbox → Mailbox
free i b = record b { heap = set b.heap i none }

-- The pairs of cluster and attribute that the two `switch` statements let through.
abbrev pub is_bridged : ℕ → ℕ → Bool
is_bridged cluster attribute =
    (cluster == 0x0006
      || cluster == 0x0008
      || cluster == 0x0400
      || cluster == 0x0402
      || cluster == 0x0406)
    && attribute == 0

-- `handleAttribute`; `memory` is whether `malloc` succeeds.
unfoldable pub handle_attribute : Bool → ℕ → ℕ → ℕ → Mailbox → Mailbox
handle_attribute memory cluster attribute value b =
    let i = length b.heap in
    let filled = alloc (record { cluster = cluster; attribute = attribute; value = value }) b in
    let posted = free i (send_msg bridge_write_attribute (some i) filled) in
    if is_bridged cluster attribute && memory then posted else b

-- What the Matter side finds behind `msg_data`.
unfoldable pub read_msg : Mailbox → Run (Option AttributeValue)
read_msg b = elim b.msg_data [
  | none ↦ done none
  | some i ↦ elim (get_elem? b.heap i) [ some (some v) ↦ done (some v) | _ ↦ fault ]
]
