-- ===== src/Nodes/Store/Lookup.antt =====
-- The flash file as a table from MAC addresses to nodes, and what storing a node does to it.
use dm_matter_zigbee_bridge.Prelude.{
  some-none, if-behind, ==→ne, ==→eq, ℕ, zero, suc, ◌≤◌, ◌<◌, Bool-cases, Option, none, some, List,
  [], ◌∷◌, ◌≡◌, ◌≢◌, refl, sym, ◌∙◌, inl, inr, arith, length, set, ◌==◌, ne→==, if◌then◌else◌, Run,
  done, fault, spin, ◌>>=◌,
}
use dm_matter_zigbee_bridge.Nodes.{Node, Saved}
use dm_matter_zigbee_bridge.Nodes.Store.{one_later, scan, replaced}

-- The node stored for a MAC address: the first among the first `count` entries.
unfoldable pub node_at : ℕ → List Node → ℕ → Option Node
node_at mac ns zero = none
node_at mac [] (suc count) = none
node_at mac (n ∷ ns) (suc count) = if n.mac == mac then some n else node_at mac ns count

abbrev pub stored : ℕ → Saved → Option Node
stored mac s = node_at mac s.nodes s.total

-- The file's table has its five places, and no more entries than that.
pub record IsTable (s : Saved) : Type 0 where
  pub room : length s.nodes ≡ 5
  pub bound : s.total ≤ 5

-- What a search comes to.
abbrev pub Scanned : ℕ → List Node → ℕ → Run (Option ℕ) → Type 0
Scanned mac ns count (done none) = node_at mac ns count ≡ none
Scanned mac ns count (done (some i)) =
    (new : Node) (m : ℕ)
    → new.mac ≡ mac
    → node_at m (replaced new i ns) count ≡ (if new.mac == m then some new else node_at m ns count)
Scanned mac ns count fault = ⊥
Scanned mac ns count _ = ⊥

found_here :
    (n new : Node) (ns : List Node) (count m : ℕ)
    → n.mac ≡ new.mac
    → node_at m (record n { type = new.type; short = new.short; ep = new.ep } ∷ ns) (suc count)
      ≡ (if new.mac == m then some new else node_at m (n ∷ ns) (suc count))
unfolding node_at
found_here n new ns count m e = elim (Bool-cases (new.mac == m)) [
  | inl y ↦ rw (e, y)
  | inr y ↦ rw (e, y)
]

scan_later :
    (mac : ℕ) (n : Node) (ns : List Node) (count : ℕ) (r : Run (Option ℕ))
    → n.mac ≢ mac
    → Scanned mac ns count r
    → Scanned mac (n ∷ ns) (suc count) (r >>= one_later)
unfolding node_at replaced
scan_later mac n ns count (done none) ne h = rw (ne→== n.mac mac ne) h
scan_later mac n ns count (done (some i)) ne h = λ new m e.
    if-behind n.mac new.mac m (some n) (some new) (node_at m (replaced new i ns) count)
      (node_at m ns count) (λ q. ne (q ∙ e)) (h new m e)
scan_later mac n ns count fault ne h = h
scan_later mac n ns count spin ne h = h

pub scan-Scanned :
    (mac : ℕ) (ns : List Node) (count : ℕ)
    → count ≤ length ns
    → Scanned mac ns count (scan mac ns count)
unfolding scan node_at replaced
scan-Scanned mac ns zero h = refl
scan-Scanned mac [] (suc count) h = absurd (omega arith)
scan-Scanned mac (n ∷ ns) (suc count) h = elim (Bool-cases (n.mac == mac)) [
  | inl y ↦ rw y (λ new m e. found_here n new ns count m (==→eq n.mac mac y ∙ sym e))
  | inr y ↦ rw y (
      scan_later mac n ns count (scan mac ns count) (==→ne n.mac mac y)
        (scan-Scanned mac ns count (omega arith)))
]

pub append-node_at :
    (new : Node) (ns : List Node) (count m : ℕ)
    → count < length ns
    → node_at new.mac ns count ≡ none
    → node_at m (set ns count new) (suc count)
      ≡ (if new.mac == m then some new else node_at m ns count)
unfolding node_at
append-node_at new [] count m h e = absurd (omega arith)
append-node_at new (n ∷ ns) zero m h e = refl
append-node_at new (n ∷ ns) (suc count) m h e = elim (Bool-cases (n.mac == new.mac)) [
  | inl y ↦ absurd (some-none (rw y at e))
  | inr y ↦
      (if-behind n.mac new.mac m (some n) (some new) (node_at m (set ns count new) (suc count))
        (node_at m ns count) (==→ne n.mac new.mac y)
        (append-node_at new ns count m (omega arith) (rw y at e)))
]

-- No entry is found where there is none.
pub scan-none :
    (mac : ℕ) (ns : List Node) (count : ℕ)
    → count ≤ length ns
    → node_at mac ns count ≡ none
    → scan mac ns count ≡ done none
unfolding scan node_at
scan-none mac ns zero h e = refl
scan-none mac [] (suc count) h e = absurd (omega arith)
scan-none mac (n ∷ ns) (suc count) h e = elim (Bool-cases (n.mac == mac)) [
  | inl y ↦ absurd (some-none (rw y at e))
  | inr y ↦ rw (y, scan-none mac ns count (omega arith) (rw y at e))
]
