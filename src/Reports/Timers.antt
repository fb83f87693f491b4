-- ===== src/Reports/Timers.antt =====
-- `eDeviceTimer_Init` and `vDevTimerCallback`.
pub mod Shared
use dm_matter_zigbee_bridge.Prelude.{
  ℕ, zero, suc, ◌+◌, ◌%◌, false, Option, none, some, List, [], ◌∷◌, get_elem?, set, replicate, leb,
  if◌then◌else◌, Run, done, fault,
}
use dm_matter_zigbee_bridge.Devices.{Device, max_devices}
use dm_matter_zigbee_bridge.Reports.Handle.{Bridge, off_line}

-- ZB_DEVICE_MESSAGE_TIMER_OUT_COUNT.
abbrev pub timer_out_count : ℕ
timer_out_count = 5

-- The timer IDs that the loop of `eDeviceTimer_Init` gives; `address` is `&i`, as a number.
unfoldable pub timer_ids : ℕ → ℕ → List ℕ
timer_ids zero address = []
timer_ids (suc n) address = address ∷ timer_ids n address

abbrev pub device_timer_init : ℕ → List ℕ
device_timer_init address = timer_ids max_devices address

abbrev pub with_off_line : ℕ → List Device → Run (List Device)
with_off_line i ds = elim (get_elem? ds i) [
  | none ↦ fault
  | some d ↦ done (set ds i (record d { state = off_line }))
]

-- The callback with the count of the timer `index`, for the timer `k`.
abbrev pub counted : ℕ → ℕ → Bridge → ℕ → Run Bridge
counted k index t count =
    let t' = record t { timers = set t.timers index count } in
    let stopped : Run Bridge = elim (with_off_line index t.devices) [
      | done ds ↦ done (record t' { devices = ds; running = set t.running k false })
      | _ ↦ fault
    ] in
    if leb timer_out_count count then stopped else done t'

-- The timer `k` expires; `ids` are the IDs of the timers.
unfoldable pub timer_callback : List ℕ → ℕ → Bridge → Run Bridge
timer_callback ids k t = elim (get_elem? ids k) [
  | none ↦ fault
  | some index ↦ elim (get_elem? t.timers index) [
    | none ↦ fault
    | some count ↦ counted k index t ((count + 1) % 65536)
  ]
]
