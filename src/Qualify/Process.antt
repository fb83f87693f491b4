-- ===== src/Qualify/Process.antt =====
-- The `while` loop, and the reset of `epArrayIndex` behind it.
pub mod Ends
pub mod Silent
pub mod Addresses
use dm_matter_zigbee_bridge.Prelude.{
  ℕ, zero, suc, Bool, true, false, Run, done, fault, spin, ◌>>=◌, ◌==◌, if◌then◌else◌,
}
use dm_matter_zigbee_bridge.Devices.{Device}
use dm_matter_zigbee_bridge.Qualify.{
  Work, new_joined, active, get_cluster, bind_cluster, read_attribute, device_at,
}
use dm_matter_zigbee_bridge.Qualify.Phases.{join, ask_descriptor, read_models, bind_clusters}

abbrev pub last_round : Run Work → Run (Work × Bool)
last_round r = r >>= λ w. done (w, false)

-- The `switch`: the new state, and whether `loop` is still true.
unfoldable pub phase : ℕ → ℕ → Work → Run (Work × Bool)
phase state k w =
    if state == new_joined
    then join k w
    else if state == get_cluster
    then last_round (ask_descriptor k w)
    else if state == read_attribute
    then last_round (read_models k w)
    else if state == bind_cluster
    then last_round (bind_clusters k w)
    else if state == active
    then done (record w { ep_index = 0 }, false)
    else done (w, false)

unfoldable pub round : ℕ → Work → Run (Work × Bool)
round k w = device_at k w >>= λ d. phase d.state k w

unfoldable pub rounds : ℕ → ℕ → Work → Run Work
rounds zero k w = spin
rounds (suc fuel) k w =
    round k w >>= λ r. let again = rounds fuel k r.0 in if r.1 then again else done r.0

abbrev pub reset_index : ℕ → Work → Run Work
reset_index k w =
    device_at k w >>= λ d. done (if d.state == active then record w { ep_index = 0 } else w)

-- Two rounds are enough: `Qualify.Process.Ends`.
unfoldable pub new_device_qualify_process : ℕ → Work → Run Work
new_device_qualify_process k w = rounds 2 k w >>= reset_index k
