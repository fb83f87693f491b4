-- ===== src/Nodes/Store/Keeps.antt =====
-- Storing a node: what is found afterwards, and what a full table does.
use dm_matter_zigbee_bridge.Prelude.{
  ℕ, zero, suc, ◌+◌, ◌%◌, ◌<◌, Option, none, some, List, [], ◌∷◌, ◌≡◌, ◌≢◌, refl, ap, ◌∙◌, ◌⊎◌, inl,
  inr, arith, length, length-set, set, lt→ltb, le→ltb, ◌==◌, ne→==, if◌then◌else◌, Run, done, fault,
  spin, ◌>>=◌,
}
use dm_matter_zigbee_bridge.Nodes.{Node, Saved, FlashOps, Nodes}
use dm_matter_zigbee_bridge.Nodes.Store.{
  scan, replaced, appended, put, add_new, found_or_new, store_joined_node,
}
use dm_matter_zigbee_bridge.Nodes.Store.Lookup.{
  stored, IsTable, Scanned, scan-Scanned, append-node_at, scan-none,
}

length-replaced : (new : Node) (i : ℕ) (ns : List Node) → length (replaced new i ns) ≡ length ns
unfolding replaced
length-replaced new i [] = refl
length-replaced new zero (n ∷ ns) = refl
length-replaced new (suc i) (n ∷ ns) = ap suc (length-replaced new i ns)

-- One more entry, for an address that the table does not have.
pub appended-stored :
    (new : Node) (s : Saved)
    → IsTable s
    → s.total < 5
    → stored new.mac s ≡ none
    → (q : Saved) × (appended new s ≡ done q)
      × IsTable q
      × (q.total ≡ suc s.total)
      × ((m : ℕ) → stored m q ≡ (if new.mac == m then some new else stored m s))
unfolding appended
appended-stored new s h lt e =
    let room : s.total < length s.nodes = omega (arith, h.room) in
    let next : (s.total + 1) % 256 ≡ suc s.total = omega arith in
    (
      record { total = suc s.total; nodes = set s.nodes s.total new },
      rw (lt→ltb s.total (length s.nodes) room, next),
      record { room = length-set s.nodes s.total new ∙ h.room; bound = omega arith },
      refl,
      λ m. append-node_at new s.nodes s.total m room e,
    )

module _ {ℓ} {F : Type ℓ} (ops : FlashOps F) where
  -- What storing a node comes to: the flash holds a table in which the node is found under its
  -- address and every other address finds what it found before; the rest stays.
  pub record Keeps (new : Node) (s : Saved) (t : Nodes F) (r : Run (Nodes F)) : Type ℓ where
    pub u : Nodes F
    pub q : Saved
    pub runs : r ≡ done u
    pub in_flash : ops.read u.flash ≡ some q
    pub is_table : IsTable q
    pub finds : (m : ℕ) → stored m q ≡ (if new.mac == m then some new else stored m s)
    pub joined_is : u.joined ≡ t.joined
    pub idx_is : u.idx ≡ t.idx

  pub add_new-Keeps :
      (new : Node) (s : Saved) (t : Nodes F)
      → ((f : F) (x : Saved) → ops.read (ops.save x f) ≡ some x)
      → IsTable s
      → new.type ≢ 0
      → s.total < 5
      → stored new.mac s ≡ none
      → Keeps new s t (add_new ops new s t)
  unfolding add_new
  add_new-Keeps new s t law h ne lt e =
      let (q, more, table, total, finds) = appended-stored new s h lt e in
      record {
        u = put ops q t;
        q = q;
        runs = rw (ne→== new.type 0 ne, more, ne→== q.total 0 (omega arith));
        in_flash = law t.flash q;
        is_table = table;
        finds = finds;
        joined_is = refl;
        idx_is = refl;
      }

  Scanned-Keeps :
      (new : Node) (s : Saved) (t : Nodes F) (r : Run (Option ℕ))
      → ((f : F) (x : Saved) → ops.read (ops.save x f) ≡ some x)
      → IsTable s
      → new.type ≢ 0
      → (s.total < 5) ⊎ (stored new.mac s ≢ none)
      → Scanned new.mac s.nodes s.total r
      → Keeps new s t (r >>= found_or_new ops new s t)
  Scanned-Keeps new s t (done none) law h ne (inl lt) e = add_new-Keeps new s t law h ne lt e
  Scanned-Keeps new s t (done none) law h ne (inr there) e = absurd (there e)
  Scanned-Keeps new s t (done (some i)) law h ne room finds = record {
    u = put ops (record s { nodes = replaced new i s.nodes }) t;
    q = record s { nodes = replaced new i s.nodes };
    runs = refl;
    in_flash = law t.flash (record s { nodes = replaced new i s.nodes });
    is_table = record { room = length-replaced new i s.nodes ∙ h.room; bound = h.bound };
    finds = λ m. finds new m refl;
    joined_is = refl;
    idx_is = refl;
  }
  Scanned-Keeps new s t fault law h ne room e = absurd e
  Scanned-Keeps new s t spin law h ne room e = absurd e

  -- StoreJoinedNode with a table in flash that has room or holds the node's MAC address already,
  -- for a node with a type: the call returns, the table in flash finds the node under its
  -- address, and under every other address what it found before. A read of the flash gives what
  -- was saved last.
  pub store_joined_node-Keeps :
      (new : Node) (s : Saved) (t : Nodes F)
      → ((f : F) (x : Saved) → ops.read (ops.save x f) ≡ some x)
      → ops.read t.flash ≡ some s
      → IsTable s
      → new.type ≢ 0
      → (s.total < 5) ⊎ (stored new.mac s ≢ none)
      → Keeps new s t (store_joined_node ops new t)
  unfolding store_joined_node
  store_joined_node-Keeps new s t law in_flash h ne room =
      rw (store_joined_node, in_flash)
        (Scanned-Keeps new s t (scan new.mac s.nodes s.total) law h ne room
          (scan-Scanned new.mac s.nodes s.total (omega (arith, h.room, h.bound))))

  -- The table has no room check: a node that has a type and a new MAC address, when five are
  -- stored, is written behind the end of the table.
  pub store_joined_node-full :
      (new : Node) (s : Saved) (t : Nodes F)
      → ops.read t.flash ≡ some s
      → IsTable s
      → s.total ≡ 5
      → new.type ≢ 0
      → stored new.mac s ≡ none
      → store_joined_node ops new t ≡ fault
  unfolding store_joined_node add_new appended
  store_joined_node-full new s t in_flash h full ne e =
      let none_there = scan-none new.mac s.nodes s.total (omega (arith, h.room, h.bound)) e in
      let no_room = le→ltb s.total (length s.nodes) (omega (arith, h.room)) in
      rw (store_joined_node, in_flash) (rw none_there (rw (ne→== new.type 0 ne, no_room)))
