-- ===== src/Nodes/Leave/Shift.antt =====
-- The shift of the stored entries over one that is removed.
use dm_matter_zigbee_bridge.Prelude.{
  if-behind, ==→eq, ℕ, suc, Bool-cases, none, some, List, [], ◌∷◌, ◌++◌, ◌≡◌, refl, inl, inr,
  length, ◌==◌, eq→==, ne→==, if◌then◌else◌, done, fault,
}
use dm_matter_zigbee_bridge.Nodes.{Node}
use dm_matter_zigbee_bridge.Nodes.Store.{scan}
use dm_matter_zigbee_bridge.Nodes.Store.Lookup.{node_at}
use dm_matter_zigbee_bridge.Nodes.Leave.{shift}
use dm_matter_zigbee_bridge.Nodes.Leave.Forgets.{NotAt}

shift-front :
    (x y : Node) (mid tail : List Node)
    → shift 0 (suc (length mid)) (x ∷ (mid ++ (y ∷ tail))) ≡ done (mid ++ (y ∷ y ∷ tail))
unfolding shift
shift-front x y [] tail = refl
shift-front x y (z ∷ mid) tail = rw (shift, shift-front z y mid tail)

pub shift-at :
    (before : List Node) (x y : Node) (mid tail : List Node)
    → shift (length before) (suc (length mid)) (before ++ (x ∷ (mid ++ (y ∷ tail))))
      ≡ done (before ++ (mid ++ (y ∷ y ∷ tail)))
unfolding shift
shift-at [] x y mid tail = shift-front x y mid tail
shift-at (b ∷ before) x y mid tail = rw (shift, shift-at before x y mid tail)

shift-end : (x : Node) (mid : List Node) → shift 0 (suc (length mid)) (x ∷ mid) ≡ fault
unfolding shift
shift-end x [] = refl
shift-end x (z ∷ mid) = rw (shift, shift-end z mid)

pub shift-full :
    (before : List Node) (x : Node) (mid : List Node)
    → shift (length before) (suc (length mid)) (before ++ (x ∷ mid)) ≡ fault
unfolding shift
shift-full [] x mid = shift-end x mid
shift-full (b ∷ before) x mid = rw (shift, shift-full before x mid)

pub scan-at :
    (before : List Node) (x : Node) (mid rest : List Node)
    → NotAt x.mac before
    → scan x.mac (before ++ (x ∷ rest)) (length (before ++ (x ∷ mid))) ≡ done (some (length before))
unfolding scan
scan-at [] x mid rest n = rw (eq→== x.mac x.mac refl)
scan-at (b ∷ before) x mid rest n =
    rw (scan, ne→== b.mac x.mac n.0) (rw (scan-at before x mid rest n.1))

node_at-front :
    (m : ℕ) (mid r r' : List Node)
    → node_at m (mid ++ r) (length mid) ≡ node_at m (mid ++ r') (length mid)
unfolding node_at
node_at-front m [] r r' = refl
node_at-front m (z ∷ mid) r r' = rw (node_at, node_at-front m mid r r')

node_at-NotAt :
    (mac : ℕ) (mid r : List Node) → NotAt mac mid → node_at mac (mid ++ r) (length mid) ≡ none
unfolding node_at
node_at-NotAt mac [] r n = refl
node_at-NotAt mac (z ∷ mid) r n = rw (ne→== z.mac mac n.0) (node_at-NotAt mac mid r n.1)

pub node_at-without :
    (m : ℕ) (before : List Node) (x : Node) (mid r r' : List Node)
    → NotAt x.mac before
    → NotAt x.mac mid
    → node_at m (before ++ (mid ++ r)) (length (before ++ mid)) ≡ (
        if x.mac == m
        then none
        else node_at m (before ++ (x ∷ (mid ++ r'))) (length (before ++ (x ∷ mid))))
unfolding node_at
node_at-without m [] x mid r r' n n' = elim (Bool-cases (x.mac == m)) [
  | inl y ↦ rw y (rw (==→eq x.mac m y) at (node_at-NotAt x.mac mid r n'))
  | inr y ↦ rw y (node_at-front m mid r r')
]
node_at-without m (b ∷ before) x mid r r' n n' =
    if-behind b.mac x.mac m (some b) none _ _ n.0 (node_at-without m before x mid r r' n.1 n')
