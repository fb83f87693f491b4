-- ===== src/Reports/Addresses.antt =====
-- `ZCB_HandleNetworkAddressReponse` and `ZCB_HandleIeeeAddressReponse`.
pub mod Seats
pub mod Found
use dm_matter_zigbee_bridge.Prelude.{
  ℕ, Option, none, some, List, [], ◌∷◌, drop, ◌==◌, if◌then◌else◌,
}
use dm_matter_zigbee_bridge.Prelude.Words.{little_endian, ntohs, ntohd}
use dm_matter_zigbee_bridge.Devices.{Device}
use dm_matter_zigbee_bridge.Devices.Table.{find_by_ieee}

-- The fields of both messages, swapped; `m` is the whole message buffer.
abbrev pub ieee_of : List ℕ → ℕ
ieee_of m = ntohd (little_endian 8 (drop 2 m))

abbrev pub short_of : List ℕ → ℕ
short_of m = ntohs (little_endian 2 (drop 10 m))

-- The entry that `tZDM_FindDeviceByIeeeAddress` points to is assigned.
unfoldable pub assign : (Device → Device) → ℕ → List Device → List Device
assign f ieee [] = []
assign f ieee (d ∷ ds) =
    let rest = assign f ieee ds in if d.ieee == ieee then f d ∷ ds else d ∷ rest

abbrev pub with_found : (Device → Device) → ℕ → List Device → List Device
with_found f ieee ds = elim (find_by_ieee ieee ds) [ none ↦ ds | some d ↦ assign f ieee ds ]

-- The response assigns the short address to the field `u64IeeeAddress`.
unfoldable pub network_address_response : List ℕ → List Device → List Device
network_address_response m ds = with_found (λ d. record d { ieee = short_of m }) (ieee_of m) ds

unfoldable pub ieee_address_response : List ℕ → List Device → List Device
ieee_address_response m ds = with_found (λ d. record d { node_id = short_of m }) (ieee_of m) ds
