-- ===== src/Qualify/Phases/Reads.antt =====
-- Reading the model identifiers comes through, and leaves an entry for the answer.
use dm_matter_zigbee_bridge.Prelude.{
  ℕ, zero, suc, Bool, true, false, Bool-cases, Option, Option-cases, none, some, List, [], ◌∷◌, All,
  map, ◌==◌, ==→eq, eq→==, ◌≡◌, refl, sym, ap, ◌∙◌, subst, ◌⊎◌, inl, inr, if◌then◌else◌, Run, done,
  ◌>>=◌,
}
use dm_matter_zigbee_bridge.Devices.{Attribute}
use dm_matter_zigbee_bridge.Devices.Attributes.{is_attribute, scan_attribute}
use dm_matter_zigbee_bridge.Devices.Adding.{row_later, take_row, add_new_attribute}
use dm_matter_zigbee_bridge.Devices.Adding.Counts.{has_in_device, count_attribute-Counted}
use dm_matter_zigbee_bridge.Qualify.{Reply, unsent, unanswered, answered, Work, reply_of, exchange}
use dm_matter_zigbee_bridge.Qualify.Phases.{
  Place, add_attribute, read_model, read_rounds, read_place, read_places,
}
use dm_matter_zigbee_bridge.Qualify.Phases.Outcome.{Then}
use dm_matter_zigbee_bridge.Qualify.Phases.Plan.{CanCount}
use dm_matter_zigbee_bridge.Qualify.Phases.Binds.{Bindable}
use dm_matter_zigbee_bridge.Qualify.Phases.Bare.{
  bare, SameDevices, add_attribute-SameDevices, has_in_device-Same,
}

-- The attribute table has an entry for the model identifier.
abbrev pub Finds : ℕ → ℕ → List Attribute → Type 0
Finds id ep rows = (a : Attribute) × (scan_attribute id ep 0 5 rows ≡ some a)

-- It has room for one.
abbrev pub HasRoom : ℕ → ℕ → List Attribute → Type 0
HasRoom id ep rows = (added : List Attribute) × (take_row id ep 0 5 0x81 rows ≡ some added)

-- One of the clusters is the basic cluster.
unfoldable pub has_basic : List Place → Bool
has_basic [] = false
has_basic (p ∷ ps) = if p.cluster == 0 then true else has_basic ps

never_false : true ≡ false → ⊥
never_false p = cc

never_some {ℓ} : {A : Type ℓ} (a : A) → none ≡ some a → ⊥
never_some a p = cc

some_inj {ℓ} : {A : Type ℓ} (a b : A) → some a ≡ some b → a ≡ b
some_inj a b p = cc

Finds-cons :
    (id ep : ℕ) (a : Attribute) (rows : List Attribute) → Finds id ep rows → Finds id ep (a ∷ rows)
unfolding scan_attribute
Finds-cons id ep a rows (b, h) = elim (Bool-cases (is_attribute id ep 0 5 a)) [
  | inl y ↦ (a, rw (scan_attribute, y) refl)
  | inr n ↦ (b, rw (scan_attribute, n) h)
]

-- An entry that was taken for the attribute is found.
take_row-Finds :
    (id ep : ℕ) (rows added : List Attribute)
    → take_row id ep 0 5 0x81 rows ≡ some added
    → Finds id ep added
unfolding take_row scan_attribute
take_row-Finds id ep [] added h = absurd (never_some added h)
take_row-Finds id ep (a ∷ rows) added h = elim (Bool-cases (a.node_id == 0)) [
  | inl y ↦ subst (Finds id ep) (some_inj _ added (rw y at h)) (first rows)
  | inr n ↦
      behind (take_row id ep 0 5 0x81 rows) (λ more e. take_row-Finds id ep rows more e) refl
        (rw n at h)
]
  where
    row : Attribute
    row = record a { node_id = id; endpoint = ep; cluster = 0; id = 5; kind = 0x81 }

    first : (rest : List Attribute) → Finds id ep (row ∷ rest)
    first rest = (row, rw (scan_attribute, eq→== id id refl, eq→== ep ep refl) refl)

    behind :
        (o : Option (List Attribute))
        → ((more : List Attribute) → take_row id ep 0 5 0x81 rows ≡ some more → Finds id ep more)
        → take_row id ep 0 5 0x81 rows ≡ o
        → row_later a o ≡ some added
        → Finds id ep added
    behind none rec e q = absurd (never_some added q)
    behind (some more) rec e q =
        subst (Finds id ep) (some_inj (a ∷ more) added q) (Finds-cons id ep a more (rec more e))

-- A step that comes through.
pub record Reads (id ep : ℕ) (w : Work) (r : Run Work) : Type 0 where
  pub u : Work
  pub runs : r ≡ done u
  pub same : SameDevices w.devices u.devices
  pub finds : Finds id ep u.attributes

-- The waits for the answer change neither table.
read_rounds-tables :
    (n id ep : ℕ) (w : Work)
    → ((read_rounds n id ep w).devices ≡ w.devices)
      × ((read_rounds n id ep w).attributes ≡ w.attributes)
read_rounds-tables zero id ep w = (refl, refl)
read_rounds-tables (suc n) id ep w =
    let asked = exchange (read_model id ep) w in
    on_reply asked (read_rounds n id ep asked) (reply_of w.replies)
      (read_rounds-tables n id ep asked)
  where
    on_reply :
        (u v : Work) (r : Reply)
        → (v.devices ≡ u.devices) × (v.attributes ≡ u.attributes)
        → let x = elim r as (λ q. Work) [ answered ↦ u | _ ↦ v ] in
          (x.devices ≡ u.devices) × (x.attributes ≡ u.attributes)
    on_reply u v answered h = (refl, refl)
    on_reply u v unsent h = h
    on_reply u v unanswered h = h

-- What an entry is taken in, or not.
abbrev taken : ℕ → ℕ → List Attribute → List Attribute
taken id ep rows = elim (take_row id ep 0 5 0x81 rows) [ none ↦ rows | some added ↦ added ]

record Adds (w : Work) (r : Run Work) (rows : List Attribute) : Type 0 where
  u : Work
  runs : r ≡ done u
  same : SameDevices w.devices u.devices
  rows_are : u.attributes ≡ rows

add_attribute-Adds :
    (id ep : ℕ) (w : Work)
    → CanCount id ep 0 w
    → Adds w (add_attribute id ep 0 5 0x81 w) (taken id ep w.attributes)
unfolding add_new_attribute
add_attribute-Adds id ep w (valid, has) =
    elim (Option-cases (take_row id ep 0 5 0x81 w.attributes)) [
      | inl n ↦ record {
        u = w;
        runs = rw (add_new_attribute, valid, n) refl;
        same = refl;
        rows_are = rw (taken, n) refl;
      }
      | inr (added, y) ↦
          let k = count_attribute-Counted id ep 0 w.devices has in
          let u = record w { devices = k.out; attributes = added } in
          let runs : add_attribute id ep 0 5 0x81 w ≡ done u =
            rw (add_new_attribute, valid, y) (rw k.runs refl) in
          record {
            u = u;
            runs = runs;
            same =
                subst (Then (λ v. SameDevices w.devices v.devices)) runs
                  (add_attribute-SameDevices id ep 0 5 0x81 w);
            rows_are = rw (taken, y) refl;
          }
    ]

-- A table that has the entry, or room for it, has it afterwards.
taken-Finds :
    (id ep : ℕ) (rows : List Attribute)
    → Finds id ep rows ⊎ HasRoom id ep rows
    → Finds id ep (taken id ep rows)
taken-Finds id ep rows ready = elim (Option-cases (take_row id ep 0 5 0x81 rows)) [
  | inl n ↦ rw (taken, n) (already n ready)
  | inr (added, y) ↦ rw (taken, y) (take_row-Finds id ep rows added y)
]
  where
    already :
        take_row id ep 0 5 0x81 rows ≡ none
        → Finds id ep rows ⊎ HasRoom id ep rows
        → Finds id ep rows
    already n (inl f) = f
    already n (inr (added, y)) = absurd (never_some added (sym n ∙ y))

pub Bindable-Same :
    (id : ℕ) (w u : Work) (ps : List Place)
    → SameDevices w.devices u.devices
    → All (Bindable id w) ps
    → All (Bindable id u) ps
Bindable-Same id w u [] same a = tt
Bindable-Same id w u (p ∷ ps) same (b, rest) = (
  (b.0, has_in_device-Same id p.ep p.cluster w.devices u.devices same ∙ b.1),
  Bindable-Same id w u ps same rest,
)

-- The entry is there, or there is room for it and a basic cluster is still to come.
abbrev pub IsReady : ℕ → ℕ → List Place → List Attribute → Type 0
IsReady id ep ps rows = Finds id ep rows ⊎ (HasRoom id ep rows × (has_basic ps ≡ true))

Reads->>= :
    (id ep : ℕ) (w : Work) (r : Run Work) (f : Work → Run Work)
    → (g : Reads id ep w r) → Reads id ep g.u (f g.u)
    → Reads id ep w (r >>= f)
Reads->>= id ep w r f g h = record {
  u = h.u;
  runs = ap (λ x. x >>= f) g.runs ∙ h.runs;
  same = h.same ∙ g.same;
  finds = h.finds;
}

ready_or_room :
    (id ep : ℕ) (ps : List Place) (rows : List Attribute)
    → IsReady id ep ps rows
    → Finds id ep rows ⊎ HasRoom id ep rows
ready_or_room id ep ps rows (inl f) = inl f
ready_or_room id ep ps rows (inr (r, b)) = inr r

-- A place of a basic cluster.
basic-Reads :
    (id : ℕ) (p : Place) (w : Work)
    → CanCount id p.ep 0 w
    → Finds id p.ep w.attributes ⊎ HasRoom id p.ep w.attributes
    → (p.cluster == 0) ≡ true
    → Reads id p.ep w (read_place id p w)
basic-Reads id p w can ready y =
    let g = add_attribute-Adds id p.ep w can in
    let t = read_rounds-tables 2 id p.ep g.u in
    record {
      u = read_rounds 2 id p.ep g.u;
      runs = rw (read_place, y) (rw g.runs refl);
      same = ap (map bare) t.0 ∙ g.same;
      finds =
          subst (Finds id p.ep) (sym (t.1 ∙ g.rows_are)) (taken-Finds id p.ep w.attributes ready);
    }

pub read_places-Reads :
    (id ep : ℕ) (ps : List Place) (w : Work)
    → All (λ p. p.ep ≡ ep) ps
    → All (Bindable id w) ps
    → IsReady id ep ps w.attributes
    → Reads id ep w (read_places id ps w)
unfolding read_places has_basic
read_places-Reads id ep [] w eps can (inl f) = record { u = w; runs = refl; same = refl; finds = f }
read_places-Reads id ep [] w eps can (inr (r, b)) = absurd (never_false (sym b))
read_places-Reads id ep (p ∷ ps) w (e, eps) (b, can) ready = elim (Bool-cases (p.cluster == 0)) [
  | inl y ↦
      let g =
        subst (λ x. Reads id x w (read_place id p w)) e
          (basic-Reads id p w (basic_can b y)
            (subst (λ x. Finds id x w.attributes ⊎ HasRoom id x w.attributes) (sym e)
              (ready_or_room id ep (p ∷ ps) w.attributes ready))
            y) in
      Reads->>= id ep w (read_place id p w) (read_places id ps) g
        (read_places-Reads id ep ps g.u eps (Bindable-Same id w g.u ps g.same can) (inl g.finds))
  | inr n ↦ rw (read_place, n) (read_places-Reads id ep ps w eps can (later n ready))
]
  where
    basic_can : Bindable id w p → (p.cluster == 0) ≡ true → CanCount id p.ep 0 w
    basic_can b y =
        (b.0, ap (λ c. has_in_device id p.ep c w.devices) (sym (==→eq p.cluster 0 y)) ∙ b.1)

    later :
        (p.cluster == 0) ≡ false
        → IsReady id ep (p ∷ ps) w.attributes
        → IsReady id ep ps w.attributes
    later n (inl f) = inl f
    later n (inr (r, h)) = inr (r, rw n at h)
