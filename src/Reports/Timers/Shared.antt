-- ===== src/Reports/Timers/Shared.antt =====
-- All device timers have one ID.
use dm_matter_zigbee_bridge.Prelude.{
  get_elem?-cases, get_elem?-set_other, ℕ, zero, suc, ◌+◌, ◌%◌, ◌<◌, false, Bool-cases, some, ◌≡◌,
  ◌≢◌, refl, ◌⊎◌, inl, inr, arith, length, get_elem?, set, leb, done, fault,
}
use dm_matter_zigbee_bridge.Devices.{max_devices}
use dm_matter_zigbee_bridge.Reports.Handle.{Bridge, off_line}
use dm_matter_zigbee_bridge.Reports.Timers.{
  timer_out_count, timer_ids, device_timer_init, counted, timer_callback,
}

shared_id : (n address k : ℕ) → k < n → get_elem? (timer_ids n address) k ≡ some address
unfolding timer_ids
shared_id zero address k h = absurd (omega arith)
shared_id (suc n) address zero h = refl
shared_id (suc n) address (suc k) h = shared_id n address k (omega arith)

-- The entries of the device `i` are those of before.
abbrev pub Untouched : ℕ → Bridge → Bridge → Type 0
Untouched i t u =
    (get_elem? u.devices i ≡ get_elem? t.devices i) × (get_elem? u.timers i ≡ get_elem? t.timers i)

counted-Untouched :
    (k address count i : ℕ) (t : Bridge)
    → i ≢ address
    → (counted k address t count ≡ fault)
      ⊎ ((u : Bridge) × (counted k address t count ≡ done u) × Untouched i t u)
counted-Untouched k address count i t ne = elim (Bool-cases (leb timer_out_count count)) [
  | inr n ↦ inr (
    record t { timers = set t.timers address count },
    rw n,
    (refl, get_elem?-set_other t.timers i address count ne),
  )
  | inl y ↦ elim (get_elem?-cases t.devices address) [
    | inl n ↦ inl (rw (y, n))
    | inr (in_table, d, e) ↦ inr (
      record t {
        timers = set t.timers address count;
        devices = set t.devices address (record d { state = off_line });
        running = set t.running k false;
      },
      rw (y, e),
      (
        get_elem?-set_other t.devices i address (record d { state = off_line }) ne,
        get_elem?-set_other t.timers i address count ne,
      ),
    )
  ]
]

-- After eDeviceTimer_Init, which gives every timer the address of one variable as its ID: when
-- any of the timers expires, the callback accesses an array out of bounds, or the address is an
-- index of the table of timers and the callback leaves the device and the count of every index
-- but the address as they were.
pub timer_callback-Untouched :
    (address k i : ℕ) (t : Bridge)
    → k < max_devices
    → i ≢ address
    → (timer_callback (device_timer_init address) k t ≡ fault)
      ⊎ ((address < length t.timers)
          × (u : Bridge) × (timer_callback (device_timer_init address) k t ≡ done u)
          × Untouched i t u)
unfolding timer_callback
timer_callback-Untouched address k i t h ne =
    let id = shared_id max_devices address k h in
    elim (get_elem?-cases t.timers address) [
      | inl n ↦ inl (rw (timer_callback, id, n))
      | inr (in_table, count, c) ↦ elim (counted-Untouched k address ((count + 1) % 65536) i t ne) [
        | inl f ↦ inl (rw (timer_callback, id, c) f)
        | inr (u, r, same) ↦ inr (in_table, u, rw (timer_callback, id, c) r, same)
      ]
    ]
