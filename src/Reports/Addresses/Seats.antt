-- ===== src/Reports/Addresses/Seats.antt =====
-- What the searches find after an address response.
use dm_matter_zigbee_bridge.Prelude.{
  no_choice, none-some, ℕ, ◌^◌, ◌<◌, Bool-cases, Option, none, some, List, [], ◌∷◌, ◌++◌, ◌≡◌, refl,
  sym, ap, inl, inr, ◌==◌, eq→==, ==→eq, ==→ne, if-behind, if◌then◌else◌,
}
use dm_matter_zigbee_bridge.Zcb.Fields.{stored, u16, u64}
use dm_matter_zigbee_bridge.Devices.{Device}
use dm_matter_zigbee_bridge.Devices.Table.{scan_node_id, scan_ieee}
use dm_matter_zigbee_bridge.Reports.Handle.Values.{half_loaded, long_loaded}
use dm_matter_zigbee_bridge.Reports.Addresses.{ieee_of, short_of, assign}

-- An address response in memory.
abbrev pub response : ℕ → ℕ → ℕ → ℕ → List ℕ → List ℕ
response sequence status ieee short rest =
    sequence ∷ status ∷ (stored (u64 ieee) ++ (stored (u16 short) ++ rest))

pub ieee_of-response :
    (sequence status ieee short : ℕ) (rest : List ℕ)
    → ieee < 256 ^ 8
    → ieee_of (response sequence status ieee short rest) ≡ ieee
ieee_of-response sequence status ieee short rest h = long_loaded ieee (stored (u16 short) ++ rest) h

pub short_of-response :
    (sequence status ieee short : ℕ) (rest : List ℕ)
    → short < 256 ^ 2
    → short_of (response sequence status ieee short rest) ≡ short
short_of-response sequence status ieee short rest h = half_loaded short rest h

abbrev pub moved : ℕ → Device → Device
moved short d = record d { node_id = short }

abbrev pub renamed : ℕ → Device → Device
renamed short d = record d { ieee = short }

abbrev pub moved_some : ℕ → Option Device → Option Device
moved_some short none = none
moved_some short (some d) = some (moved short d)

pub scan_ieee-moved :
    (short ieee m : ℕ) (ds : List Device)
    → scan_ieee m (assign (moved short) ieee ds)
      ≡ (if ieee == m then moved_some short (scan_ieee ieee ds) else scan_ieee m ds)
unfolding scan_ieee assign
scan_ieee-moved short ieee m [] = no_choice (ieee == m)
scan_ieee-moved short ieee m (d ∷ ds) = elim (Bool-cases (d.ieee == ieee)) [
  | inl y ↦ elim (Bool-cases (ieee == m)) [
    | inl z ↦ rw (y, z) (rw (==→eq d.ieee ieee y, z))
    | inr z ↦ rw (y, z) (rw (==→eq d.ieee ieee y, z))
  ]
  | inr y ↦ rw y (
      if-behind d.ieee ieee m (some d) _ _ _ (==→ne d.ieee ieee y)
        (scan_ieee-moved short ieee m ds))
]

pub scan_node_id-moved :
    (short ieee : ℕ) (d : Device) (ds : List Device)
    → scan_ieee ieee ds ≡ some d
    → scan_node_id short ds ≡ none
    → scan_node_id short (assign (moved short) ieee ds) ≡ some (moved short d)
unfolding scan_ieee scan_node_id assign
scan_node_id-moved short ieee d [] h n = absurd (none-some h)
scan_node_id-moved short ieee d (e ∷ ds) h n = elim (Bool-cases (e.node_id == short)) [
  | inl x ↦ absurd (none-some (sym (rw x at n)))
  | inr x ↦ elim (Bool-cases (e.ieee == ieee)) [
    | inl y ↦ rw (y, eq→== short short refl) (ap (moved_some short) (rw y at h))
    | inr y ↦ rw (y, x) (scan_node_id-moved short ieee d ds (rw y at h) (rw x at n))
  ]
]

pub scan_ieee-renamed :
    (short ieee : ℕ) (d : Device) (ds : List Device)
    → scan_ieee ieee ds ≡ some d
    → scan_ieee short ds ≡ none
    → scan_ieee short (assign (renamed short) ieee ds) ≡ some (renamed short d)
unfolding scan_ieee assign
scan_ieee-renamed short ieee d [] h n = absurd (none-some h)
scan_ieee-renamed short ieee d (e ∷ ds) h n = elim (Bool-cases (e.ieee == short)) [
  | inl x ↦ absurd (none-some (sym (rw x at n)))
  | inr x ↦ elim (Bool-cases (e.ieee == ieee)) [
    | inl y ↦ rw (y, eq→== short short refl) (ap (renamed_some) (rw y at h))
    | inr y ↦ rw (y, x) (scan_ieee-renamed short ieee d ds (rw y at h) (rw x at n))
  ]
]
  where
    renamed_some : Option Device → Option Device
    renamed_some none = none
    renamed_some (some b) = some (renamed short b)

pub scan_node_id-renamed :
    (short ieee m : ℕ) (ds : List Device)
    → scan_node_id m ds ≡ none
    → scan_node_id m (assign (renamed short) ieee ds) ≡ none
unfolding scan_node_id assign
scan_node_id-renamed short ieee m [] n = n
scan_node_id-renamed short ieee m (e ∷ ds) n = elim (Bool-cases (e.node_id == m)) [
  | inl x ↦ absurd (none-some (sym (rw x at n)))
  | inr x ↦ elim (Bool-cases (e.ieee == ieee)) [
    | inl y ↦ rw (y, x) (rw x at n)
    | inr y ↦ rw (y, x) (scan_node_id-renamed short ieee m ds (rw x at n))
  ]
]
