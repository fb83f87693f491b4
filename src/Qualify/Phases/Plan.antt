-- ===== src/Qualify/Phases/Plan.antt =====
-- What is expected of the binding of a device, and steps that come through.
use dm_matter_zigbee_bridge.Prelude.{
  ℕ, true, ◌&&◌, none, some, Option-cases, List, [], ◌∷◌, ◌++◌, ◌≡◌, refl, ap, ◌∙◌, inl, inr,
  length, Run, done, ◌>>=◌,
}
use dm_matter_zigbee_bridge.Zcb.{Call}
use dm_matter_zigbee_bridge.Devices.{Attribute, valid_node_id, valid_endpoint}
use dm_matter_zigbee_bridge.Devices.Adding.{take_row, add_new_attribute}
use dm_matter_zigbee_bridge.Devices.Adding.Counts.{has_in_device, count_attribute-Counted}
use dm_matter_zigbee_bridge.Qualify.{Work}
use dm_matter_zigbee_bridge.Qualify.Phases.{Place, add_attribute, bound_attributes, bind_request}

-- The attribute table with one more entry, if there is room.
abbrev pub fill : ℕ → ℕ → ℕ → ℕ → List Attribute → List Attribute
fill id ep cluster attribute rows = elim (take_row id ep cluster attribute 0x80 rows) [
  | none ↦ rows
  | some added ↦ added
]

unfoldable pub fill_all : ℕ → ℕ → ℕ → List ℕ → List Attribute → List Attribute
fill_all id ep cluster [] rows = rows
fill_all id ep cluster (a ∷ more) rows = fill_all id ep cluster more (fill id ep cluster a rows)

unfoldable pub fill_places : ℕ → List Place → List Attribute → List Attribute
fill_places id [] rows = rows
fill_places id (p ∷ ps) rows =
    fill_places id ps (fill_all id p.ep p.cluster (bound_attributes p.device_type p.cluster) rows)

-- The bind requests, one for each place with attributes.
abbrev pub request_for : ℕ → ℕ → Place → List ℕ → List Call
request_for own_mac mac p [] = []
request_for own_mac mac p (a ∷ more) = bind_request own_mac mac p.ep p.cluster ∷ []

unfoldable pub requests_for : ℕ → ℕ → List Place → List Call
requests_for own_mac mac [] = []
requests_for own_mac mac (p ∷ ps) =
    request_for own_mac mac p (bound_attributes p.device_type p.cluster)
    ++ requests_for own_mac mac ps

-- A step that comes through: the new tables and requests, and what it leaves alone.
pub record Grows (w : Work) (r : Run Work) (rows : List Attribute) (log : List Call) : Type 0 where
  pub u : Work
  pub runs : r ≡ done u
  pub rows_are : u.attributes ≡ rows
  pub log_is : u.log ≡ log
  pub mac_is : u.own_mac ≡ w.own_mac
  pub same : (i e c : ℕ) → has_in_device i e c u.devices ≡ has_in_device i e c w.devices
  pub as_long : length u.devices ≡ length w.devices

pub Grows-self : (w : Work) → Grows w (done w) w.attributes w.log
Grows-self w = record {
  u = w;
  runs = refl;
  rows_are = refl;
  log_is = refl;
  mac_is = refl;
  same = λ i e c. refl;
  as_long = refl;
}

abbrev pub CanCount : ℕ → ℕ → ℕ → Work → Type 0
CanCount id ep cluster w =
    ((valid_node_id id && valid_endpoint ep) ≡ true)
    × (has_in_device id ep cluster w.devices ≡ true)

pub add_attribute-Grows :
    (id ep cluster attribute : ℕ) (w : Work)
    → CanCount id ep cluster w
    → Grows w
        (add_attribute id ep cluster attribute 0x80 w)
        (fill id ep cluster attribute w.attributes)
        w.log
unfolding add_new_attribute
add_attribute-Grows id ep cluster attribute w (valid, has) =
    elim (Option-cases (take_row id ep cluster attribute 0x80 w.attributes)) [
      | inl n ↦ record {
        u = w;
        runs = rw (add_new_attribute, valid, n);
        rows_are = rw (fill, n);
        log_is = refl;
        mac_is = refl;
        same = λ i e c. refl;
        as_long = refl;
      }
      | inr (added, y) ↦
          let k = count_attribute-Counted id ep cluster w.devices has in
          record {
            u = record w { devices = k.out; attributes = added };
            runs = rw (add_new_attribute, valid, y) (rw k.runs);
            rows_are = rw (fill, y);
            log_is = refl;
            mac_is = refl;
            same = k.same;
            as_long = k.as_long;
          }
    ]

-- One step behind another.
pub Grows->>= :
    (w : Work) (r : Run Work) (f : Work → Run Work) (rows rows' : List Attribute)
    (log log' : List Call)
    → (g : Grows w r rows log) → Grows g.u (f g.u) rows' log'
    → Grows w (r >>= f) rows' log'
Grows->>= w r f rows rows' log log' g h = record {
  u = h.u;
  runs = ap (λ x. x >>= f) g.runs ∙ h.runs;
  rows_are = h.rows_are;
  log_is = h.log_is;
  mac_is = h.mac_is ∙ g.mac_is;
  same = λ i e c. h.same i e c ∙ g.same i e c;
  as_long = h.as_long ∙ g.as_long;
}

-- The conditions still hold behind a step.
pub CanCount-later :
    (id ep cluster : ℕ) (w : Work) (r : Run Work) (rows : List Attribute) (log : List Call)
    → (g : Grows w r rows log) → CanCount id ep cluster w
    → CanCount id ep cluster g.u
CanCount-later id ep cluster w r rows log g (valid, has) = (valid, g.same id ep cluster ∙ has)

-- The rows and requests named otherwise.
pub Grows-named :
    (w : Work) (r : Run Work) (rows rows' : List Attribute) (log log' : List Call)
    → rows ≡ rows'
    → log ≡ log'
    → Grows w r rows log
    → Grows w r rows' log'
Grows-named w r rows rows' log log' p q g = record {
  u = g.u;
  runs = g.runs;
  rows_are = g.rows_are ∙ p;
  log_is = g.log_is ∙ q;
  mac_is = g.mac_is;
  same = g.same;
  as_long = g.as_long;
}
