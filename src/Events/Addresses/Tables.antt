-- ===== src/Events/Addresses/Tables.antt =====
-- What happens to an entry outside the qualification keeps its IEEE address.
use dm_matter_zigbee_bridge.Prelude.{
  ℕ, zero, suc, Bool, true, false, Option, none, some, List, [], ◌∷◌, set, get_elem?, ◌==◌, ◌≡◌,
  refl, ap, if◌then◌else◌, Run, done, fault,
}
use dm_matter_zigbee_bridge.Devices.{Device}
use dm_matter_zigbee_bridge.Devices.Table.{find_by_ieee}
use dm_matter_zigbee_bridge.Qualify.Process.Addresses.{ieees, SameIeees}
use dm_matter_zigbee_bridge.Qualify.Phases.Outcome.{Then}
use dm_matter_zigbee_bridge.Reports.Handle.{off_line, revived, revive}
use dm_matter_zigbee_bridge.Reports.Addresses.{ieee_address_response, assign, ieee_of, short_of}
use dm_matter_zigbee_bridge.Reports.Timers.{with_off_line}

pub revive-SameIeees : (id : ℕ) (ds : List Device) → SameIeees ds (revive id ds)
unfolding revive
revive-SameIeees id [] = refl
revive-SameIeees id (d ∷ ds) = either (d.node_id == id) (revive-SameIeees id ds)
  where
    either :
        (b : Bool)
        → SameIeees ds (revive id ds)
        → SameIeees (d ∷ ds) (if b then revived d ∷ ds else d ∷ revive id ds)
    either true g = refl
    either false g = ap (◌∷◌ d.ieee) g

assign-SameIeees :
    (f : Device → Device) (ieee : ℕ) (ds : List Device)
    → ((d : Device) → (f d).ieee ≡ d.ieee)
    → SameIeees ds (assign f ieee ds)
unfolding assign
assign-SameIeees f ieee [] h = refl
assign-SameIeees f ieee (d ∷ ds) h = either (d.ieee == ieee) (assign-SameIeees f ieee ds h)
  where
    either :
        (b : Bool)
        → SameIeees ds (assign f ieee ds)
        → SameIeees (d ∷ ds) (if b then f d ∷ ds else d ∷ assign f ieee ds)
    either true g = ap (λ i. i ∷ ieees ds) (h d)
    either false g = ap (◌∷◌ d.ieee) g

pub ieee_address_response-SameIeees :
    (m : List ℕ) (ds : List Device) → SameIeees ds (ieee_address_response m ds)
unfolding ieee_address_response
ieee_address_response-SameIeees m ds = either (find_by_ieee (ieee_of m) ds)
  where
    f : Device → Device
    f d = record d { node_id = short_of m }

    either :
        (o : Option Device)
        → SameIeees ds
            (elim o as (λ x. List Device) [ none ↦ ds | some d ↦ assign f (ieee_of m) ds ])
    either none = refl
    either (some d) = assign-SameIeees f (ieee_of m) ds (λ e. refl)

pub with_off_line-SameIeees : (i : ℕ) (ds : List Device) → Then (SameIeees ds) (with_off_line i ds)
with_off_line-SameIeees i [] = tt
with_off_line-SameIeees zero (d ∷ ds) = refl
with_off_line-SameIeees (suc i) (d ∷ ds) = later (get_elem? ds i) (with_off_line-SameIeees i ds)
  where
    off : Device → Device
    off e = record e { state = off_line }

    entry : (Device → List Device) → Option Device → Run (List Device)
    entry f o = elim o as (λ x. Run (List Device)) [ none ↦ fault | some e ↦ done (f e) ]

    later :
        (o : Option Device)
        → Then (SameIeees ds) (entry (λ e. set ds i (off e)) o)
        → Then (SameIeees (d ∷ ds)) (entry (λ e. d ∷ set ds i (off e)) o)
    later none h = tt
    later (some e) h = ap (◌∷◌ d.ieee) h
