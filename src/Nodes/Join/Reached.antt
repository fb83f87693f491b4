-- ===== src/Nodes/Join/Reached.antt =====
-- A node that joins is reached by its endpoint.
use dm_matter_zigbee_bridge.Prelude.{
  ℕ, ◌<◌, true, false, none, some, List, [], ◌∷◌, ◌++◌, ◌≡◌, ◌≢◌, refl, ap, ◌∙◌, ◌⊎◌, arith, length,
  All, get_elem?-here, set-here, eq→==, ne→==, done,
}
use dm_matter_zigbee_bridge.Zcb.Commands.{on_off}
use dm_matter_zigbee_bridge.Nodes.{Node, Saved, FlashOps, Nodes}
use dm_matter_zigbee_bridge.Nodes.Store.{store_joined_node}
use dm_matter_zigbee_bridge.Nodes.Store.Lookup.{IsTable, stored}
use dm_matter_zigbee_bridge.Nodes.Store.Keeps.{store_joined_node-Keeps}
use dm_matter_zigbee_bridge.Nodes.Bridged.{serves, find_matched_node_by_ep, bridged_on_off}
use dm_matter_zigbee_bridge.Nodes.Join.{is_free, seat, announce, update_joined_nodes}

abbrev pub NoneFree : List Node → Type 0
NoneFree ns = All (λ (n : Node). is_free n ≡ false) ns

abbrev pub NoneServes : ℕ → List Node → Type 0
NoneServes ep ns = All (λ (n : Node). serves ep n ≡ false) ns

seat-first :
    (short mac : ℕ) (before : List Node) (n : Node) (after : List Node)
    → NoneFree before
    → is_free n ≡ true
    → seat short mac (before ++ (n ∷ after))
      ≡ some (length before, before ++ (record n { type = 1; short = short; mac = mac } ∷ after))
unfolding seat
seat-first short mac [] n after b e = rw e
seat-first short mac (x ∷ before) n after b e = rw (b.0, seat-first short mac before n after b.1 e)

pub find_matched-first :
    (ep : ℕ) (before : List Node) (n : Node) (after : List Node)
    → NoneServes ep before
    → serves ep n ≡ true
    → find_matched_node_by_ep ep (before ++ (n ∷ after)) ≡ some n
unfolding find_matched_node_by_ep
find_matched-first ep [] n after b e = rw e
find_matched-first ep (x ∷ before) n after b e =
    rw (b.0, find_matched-first ep before n after b.1 e)

is_free-ep : (n : Node) → is_free n ≡ true → n.ep ≡ 0
is_free-ep n h = ground arith

module _ {ℓ} {F : Type ℓ} where
  announce-first :
      (short mac : ℕ) (t : Nodes F) (before : List Node) (n : Node) (after : List Node)
      → t.joined ≡ before ++ (n ∷ after)
      → NoneFree before
      → is_free n ≡ true
      → announce short mac t ≡ record t {
        joined = before ++ (record n { type = 1; short = short; mac = mac } ∷ after);
        idx = length before;
      }
  unfolding announce
  announce-first short mac t before n after at none_free free =
      rw (announce, at) (rw (seat-first short mac before n after none_free free))

  update_joined_nodes-known :
      (ops : FlashOps F) (t : Nodes F) (ep : ℕ) (before : List Node) (n : Node) (after : List Node)
      → n.type ≡ 1
      → n.ep ≡ 0
      → ep ≢ 0
      → update_joined_nodes ops ep
          (record t { joined = before ++ (n ∷ after); idx = length before })
        ≡ store_joined_node ops
            (record n { ep = ep })
            (record t { joined = before ++ (record n { ep = ep } ∷ after); idx = length before })
  unfolding update_joined_nodes
  update_joined_nodes-known ops t ep before n after typed blank ne =
      rw (update_joined_nodes, get_elem?-here before n after)
        (rw (set-here before n (record n { ep = ep }) after)
          (rw (ne→== n.type 0 (omega arith), eq→== n.ep 0 blank, ne→== ep 0 ne)))

-- A node announces itself while JoinedNodes has a free entry, and the Matter side then gives it
-- an endpoint that is not 0 and that no earlier entry serves: from then on an on/off command for
-- the endpoint is sent to the node's short address, and the table in flash finds the node under
-- its MAC address, if it was readable before and had room or the address already. The flash gives
-- back what was saved last.
pub update_joined_nodes-announce {ℓ} :
    {F : Type ℓ} (ops : FlashOps F) (t : Nodes F) (s : Saved) (short mac ep mode : ℕ)
    (before : List Node) (n : Node) (after : List Node)
    → ((f : F) (x : Saved) → ops.read (ops.save x f) ≡ some x)
    → ops.read t.flash ≡ some s
    → IsTable s
    → (s.total < 5) ⊎ (stored mac s ≢ none)
    → t.joined ≡ before ++ (n ∷ after)
    → NoneFree before
    → is_free n ≡ true
    → ep ≢ 0
    → NoneServes ep before
    → (u : Nodes F) × (q : Saved) × (update_joined_nodes ops ep (announce short mac t) ≡ done u)
      × (bridged_on_off ep mode u.joined ≡ some (on_off short mode))
      × (ops.read u.flash ≡ some q)
      × (stored mac q ≡ some (record { type = 1; ep = ep; short = short; mac = mac }))
unfolding announce update_joined_nodes bridged_on_off
update_joined_nodes-announce ops t s short mac ep mode before n after law in_flash h room at
      none_free free ne unserved =
    let known : Node = record n { type = 1; short = short; mac = mac } in
    let new : Node = record { type = 1; ep = ep; short = short; mac = mac } in
    let t' : Nodes _ = record t { joined = before ++ (new ∷ after); idx = length before } in
    let k = store_joined_node-Keeps ops new s t' law in_flash h (omega arith) room in
    let named = update_joined_nodes-known ops t ep before known after refl (is_free-ep n free) ne in
    let joins = announce-first short mac t before n after at none_free free in
    (
      k.u,
      k.q,
      ap (update_joined_nodes ops ep) joins ∙ named ∙ k.runs,
      rw k.joined_is
          (rw (bridged_on_off, find_matched-first ep before new after unserved (eq→== ep ep refl))),
      k.in_flash,
      k.finds mac ∙ rw (eq→== mac mac refl),
    )
