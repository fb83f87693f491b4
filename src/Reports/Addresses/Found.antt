-- ===== src/Reports/Addresses/Found.antt =====
-- The two address responses on the device table.
use dm_matter_zigbee_bridge.Prelude.{
  none-some, ℕ, ◌^◌, ◌<◌, true, false, Bool-cases, Option, none, some, List, ◌≡◌, ap, ◌∙◌, inl, inr,
  arith, ◌==◌, ==→eq, if◌then◌else◌,
}
use dm_matter_zigbee_bridge.Devices.{Device, valid_node_id, valid_ieee}
use dm_matter_zigbee_bridge.Devices.Table.{scan_node_id, find_by_node_id, scan_ieee, find_by_ieee}
use dm_matter_zigbee_bridge.Reports.Addresses.{
  ieee_of, assign, with_found, network_address_response, ieee_address_response,
}
use dm_matter_zigbee_bridge.Reports.Addresses.Seats.{
  response, ieee_of-response, short_of-response, moved, renamed, moved_some, scan_ieee-moved,
  scan_node_id-moved, scan_ieee-renamed, scan_node_id-renamed,
}

scanned_ieee :
    (ieee : ℕ) (ds : List Device) (o : Option Device)
    → valid_ieee ieee ≡ true
    → find_by_ieee ieee ds ≡ o
    → scan_ieee ieee ds ≡ o
unfolding find_by_ieee
scanned_ieee ieee ds o v h = rw v at h

scanned_node_id :
    (id : ℕ) (ds : List Device) (o : Option Device)
    → valid_node_id id ≡ true
    → find_by_node_id id ds ≡ o
    → scan_node_id id ds ≡ o
unfolding find_by_node_id
scanned_node_id id ds o v h = rw v at h

found_valid :
    (ieee : ℕ) (ds : List Device) (d : Device)
    → find_by_ieee ieee ds ≡ some d
    → valid_ieee ieee ≡ true
unfolding find_by_ieee
found_valid ieee ds d h = elim (Bool-cases (valid_ieee ieee)) [
  | inl v ↦ v
  | inr n ↦ absurd (none-some (rw n at h))
]

-- A response for a device of the table assigns to the device.
ieee_address_response-moved :
    (sequence status ieee short : ℕ) (rest : List ℕ) (ds : List Device) (d : Device)
    → ieee < 256 ^ 8
    → short < 256 ^ 2
    → find_by_ieee ieee ds ≡ some d
    → ieee_address_response (response sequence status ieee short rest) ds
      ≡ assign (moved short) ieee ds
unfolding ieee_address_response
ieee_address_response-moved sequence status ieee short rest ds d hi hs h =
    ap (λ s. with_found (moved s) (ieee_of (response sequence status ieee short rest)) ds)
      (short_of-response sequence status ieee short rest hs)
    ∙ ap (λ a. with_found (moved short) a ds) (ieee_of-response sequence status ieee short rest hi)
    ∙ rw (with_found, h)

network_address_response-renamed :
    (sequence status ieee short : ℕ) (rest : List ℕ) (ds : List Device) (d : Device)
    → ieee < 256 ^ 8
    → short < 256 ^ 2
    → find_by_ieee ieee ds ≡ some d
    → network_address_response (response sequence status ieee short rest) ds
      ≡ assign (renamed short) ieee ds
unfolding network_address_response
network_address_response-renamed sequence status ieee short rest ds d hi hs h =
    ap (λ s. with_found (renamed s) (ieee_of (response sequence status ieee short rest)) ds)
      (short_of-response sequence status ieee short rest hs)
    ∙ ap (λ a. with_found (renamed short) a ds)
        (ieee_of-response sequence status ieee short rest hi)
    ∙ rw (with_found, h)

find_by_ieee-moved :
    (ieee short : ℕ) (ds : List Device) (d : Device) (m : ℕ)
    → find_by_ieee ieee ds ≡ some d
    → find_by_ieee m (assign (moved short) ieee ds)
      ≡ (if ieee == m then some (moved short d) else find_by_ieee m ds)
unfolding find_by_ieee
find_by_ieee-moved ieee short ds d m h = elim (Bool-cases (valid_ieee m)) [
  | inl v ↦ rw v (
      scan_ieee-moved short ieee m ds
      ∙ ap (λ o. if ieee == m then moved_some short o else scan_ieee m ds)
          (scanned_ieee ieee ds (some d) (found_valid ieee ds d h) h))
  | inr n ↦ elim (Bool-cases (ieee == m)) [
    | inl y ↦ absurd (clash (found_valid ieee ds d h) (ap valid_ieee (==→eq ieee m y) ∙ n))
    | inr y ↦ rw (n, y)
  ]
]
  where
    clash : valid_ieee ieee ≡ true → valid_ieee ieee ≡ false → ⊥
    clash p q = cc

-- ZCB_HandleIeeeAddressReponse on a message for a device of the table, with a valid short address
-- that no device of the table has: a search by the short address finds the device with that node
-- identifier, a search by its IEEE address does too, and a search by any other IEEE address finds
-- what it found before.
pub ieee_address_response-finds :
    (sequence status ieee short : ℕ) (rest : List ℕ) (ds : List Device) (d : Device)
    → ieee < 256 ^ 8
    → short < 256 ^ 2
    → find_by_ieee ieee ds ≡ some d
    → valid_node_id short ≡ true
    → find_by_node_id short ds ≡ none
    → let after = ieee_address_response (response sequence status ieee short rest) ds in
      (find_by_node_id short after ≡ some (record d { node_id = short }))
      × ((m : ℕ)
          → find_by_ieee m after
            ≡ (if ieee == m then some (record d { node_id = short }) else find_by_ieee m ds))
unfolding find_by_node_id
ieee_address_response-finds sequence status ieee short rest ds d hi hs h v n =
    let runs = ieee_address_response-moved sequence status ieee short rest ds d hi hs h in
    (
      ap (find_by_node_id short) runs ∙ by_node,
      λ m. ap (find_by_ieee m) runs ∙ find_by_ieee-moved ieee short ds d m h,
    )
  where
    by_node : find_by_node_id short (assign (moved short) ieee ds) ≡ some (moved short d)
    by_node = rw v (
        scan_node_id-moved short ieee d ds
          (scanned_ieee ieee ds (some d) (found_valid ieee ds d h) h)
          (scanned_node_id short ds none v n))

-- ZCB_HandleNetworkAddressReponse on a message for a device of the table, with a valid short
-- address that the table has neither as a node identifier nor as an IEEE address: a search by the
-- short address as a node identifier still finds nothing, and the device is found by the short
-- address as its IEEE address.
pub network_address_response-loses :
    (sequence status ieee short : ℕ) (rest : List ℕ) (ds : List Device) (d : Device)
    → ieee < 256 ^ 8
    → short < 256 ^ 2
    → find_by_ieee ieee ds ≡ some d
    → valid_node_id short ≡ true
    → find_by_node_id short ds ≡ none
    → find_by_ieee short ds ≡ none
    → let after = network_address_response (response sequence status ieee short rest) ds in
      (find_by_node_id short after ≡ none)
      × (find_by_ieee short after ≡ some (record d { ieee = short }))
unfolding find_by_node_id find_by_ieee
network_address_response-loses sequence status ieee short rest ds d hi hs h v n f =
    let runs = network_address_response-renamed sequence status ieee short rest ds d hi hs h in
    (ap (find_by_node_id short) runs ∙ by_node, ap (find_by_ieee short) runs ∙ by_ieee)
  where
    valid_both : valid_ieee short ≡ true
    valid_both = ground arith

    by_node : find_by_node_id short (assign (renamed short) ieee ds) ≡ none
    by_node = rw v (scan_node_id-renamed short ieee short ds (scanned_node_id short ds none v n))

    by_ieee : find_by_ieee short (assign (renamed short) ieee ds) ≡ some (renamed short d)
    by_ieee = rw valid_both (
        scan_ieee-renamed short ieee d ds
          (scanned_ieee ieee ds (some d) (found_valid ieee ds d h) h)
          (scanned_ieee short ds none valid_both f))
