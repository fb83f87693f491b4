-- ===== src/Nodes/Leave/Removes.antt =====
-- The removal of a node from the flash file.
use dm_matter_zigbee_bridge.Prelude.{
  ℕ, suc, ◌+◌, ◌-◌, ◌%◌, ◌<◌, none, some, List, [], ◌∷◌, ◌++◌, ◌≡◌, refl, ap, ◌∙◌, arith, length,
  length-append, ◌==◌, eq→==, ne→==, if◌then◌else◌, done, fault,
}
use dm_matter_zigbee_bridge.Nodes.{Node, no_node, Saved, FlashOps, Nodes}
use dm_matter_zigbee_bridge.Nodes.Store.{put}
use dm_matter_zigbee_bridge.Nodes.Store.Lookup.{IsTable, stored}
use dm_matter_zigbee_bridge.Nodes.Leave.{remove_saved, leave_loop, leave}
use dm_matter_zigbee_bridge.Nodes.Leave.Forgets.{NotAt}
use dm_matter_zigbee_bridge.Nodes.Leave.Shift.{shift-at, shift-full, scan-at, node_at-without}

module _ {ℓ} {F : Type ℓ} (ops : FlashOps F) where
  leave_loop-NotAt :
      (unset mac : ℕ) (ns : List Node) (t : Nodes F)
      → NotAt mac ns
      → leave_loop ops unset mac ns t ≡ done (ns, t)
  unfolding leave_loop
  leave_loop-NotAt unset mac [] t n = refl
  leave_loop-NotAt unset mac (x ∷ ns) t n =
      rw (ne→== x.mac mac n.0) (rw (leave_loop-NotAt unset mac ns t n.1))

  leave_loop-once :
      (unset mac : ℕ) (before : List Node) (j : Node) (after : List Node) (t u : Nodes F)
      → NotAt mac before
      → NotAt mac after
      → j.mac ≡ mac
      → remove_saved ops unset mac t ≡ done u
      → leave_loop ops unset mac (before ++ (j ∷ after)) t ≡ done (before ++ (no_node ∷ after), u)
  unfolding leave_loop
  leave_loop-once unset mac [] j after t u n n' e removed =
      rw (eq→== j.mac mac e) (rw removed (rw (leave_loop-NotAt unset mac after u n')))
  leave_loop-once unset mac (x ∷ before) j after t u n n' e removed =
      rw (ne→== x.mac mac n.0) (rw (leave_loop-once unset mac before j after t u n.1 n' e removed))

  leave_loop-fault :
      (unset mac : ℕ) (before : List Node) (j : Node) (after : List Node) (t : Nodes F)
      → NotAt mac before
      → j.mac ≡ mac
      → remove_saved ops unset mac t ≡ fault
      → leave_loop ops unset mac (before ++ (j ∷ after)) t ≡ fault
  unfolding leave_loop
  leave_loop-fault unset mac [] j after t n e removed = rw (eq→== j.mac mac e) (rw removed)
  leave_loop-fault unset mac (x ∷ before) j after t n e removed =
      rw (ne→== x.mac mac n.0) (rw (leave_loop-fault unset mac before j after t n.1 e removed))

  -- The flash file's table with the entry removed.
  remove_saved-at :
      (unset : ℕ) (b : Node) (before : List Node) (x : Node) (mid : List Node) (y : Node)
      (tail : List Node) (t : Nodes F)
      → ops.read t.flash
        ≡ some (record {
          total = length ((b ∷ before) ++ (x ∷ mid));
          nodes = (b ∷ before) ++ (x ∷ (mid ++ (y ∷ tail)));
        })
      → length ((b ∷ before) ++ (x ∷ mid)) < 256
      → NotAt x.mac (b ∷ before)
      → remove_saved ops unset x.mac t
        ≡ done (
            put ops
              (record {
                total = length ((b ∷ before) ++ mid);
                nodes = (b ∷ before) ++ (mid ++ (y ∷ y ∷ tail));
              })
              t)
  unfolding remove_saved
  remove_saved-at unset b before x mid y tail t in_flash small n =
      let bs = b ∷ before in
      let one = length-append bs (x ∷ mid) in
      let two = length-append bs mid in
      let steps : length (bs ++ (x ∷ mid)) - length bs ≡ suc (length mid) = omega arith in
      let less : (length (bs ++ (x ∷ mid)) + 255) % 256 ≡ length (bs ++ mid) = omega arith in
      let first = ne→== (length bs) 0 (omega arith) in
      let left = ne→== (length (bs ++ mid)) 0 (omega arith) in
      rw (remove_saved, in_flash)
        (rw (scan-at bs x mid (mid ++ (y ∷ tail)) n)
          (rw steps (rw (shift-at bs x y mid tail) (rw (less, first, left)))))

  remove_saved-full :
      (unset : ℕ) (b : Node) (before : List Node) (x : Node) (mid : List Node) (t : Nodes F)
      → ops.read t.flash
        ≡ some (record {
          total = length ((b ∷ before) ++ (x ∷ mid));
          nodes = (b ∷ before) ++ (x ∷ mid);
        })
      → NotAt x.mac (b ∷ before)
      → remove_saved ops unset x.mac t ≡ fault
  unfolding remove_saved
  remove_saved-full unset b before x mid t in_flash n =
      let bs = b ∷ before in
      let one = length-append bs (x ∷ mid) in
      let steps : length (bs ++ (x ∷ mid)) - length bs ≡ suc (length mid) = omega arith in
      let first = ne→== (length bs) 0 (omega arith) in
      rw (remove_saved, in_flash)
        (rw (scan-at bs x mid mid n) (rw steps (rw (shift-full bs x mid, first))))

  -- A node leaves that stands once in JoinedNodes and once in the flash file, which has at most
  -- four entries, and there not first: it is cleared from JoinedNodes, the flash no longer finds
  -- it, and finds every other address as before. The flash gives back what was saved last.
  pub leave-forgets :
      (unset : ℕ) (b : Node) (before : List Node) (x : Node) (mid : List Node) (y : Node)
      (tail : List Node) (front : List Node) (j : Node) (back : List Node) (t : Nodes F)
      → ((f : F) (s : Saved) → ops.read (ops.save s f) ≡ some s)
      → ops.read t.flash
        ≡ some (record {
          total = length ((b ∷ before) ++ (x ∷ mid));
          nodes = (b ∷ before) ++ (x ∷ (mid ++ (y ∷ tail)));
        })
      → length ((b ∷ before) ++ (x ∷ (mid ++ (y ∷ tail)))) ≡ 5
      → NotAt x.mac (b ∷ before)
      → NotAt x.mac mid
      → t.joined ≡ front ++ (j ∷ back)
      → NotAt x.mac front
      → NotAt x.mac back
      → j.mac ≡ x.mac
      → (u : Nodes F) × (q : Saved) × (leave ops unset x.mac t ≡ done u)
        × (u.joined ≡ front ++ (no_node ∷ back))
        × (ops.read u.flash ≡ some q)
        × IsTable q
        × ((m : ℕ)
            → stored m q ≡ (
                if x.mac == m
                then none
                else stored m (record {
                  total = length ((b ∷ before) ++ (x ∷ mid));
                  nodes = (b ∷ before) ++ (x ∷ (mid ++ (y ∷ tail)));
                })))
  unfolding leave
  leave-forgets unset b before x mid y tail front j back t law in_flash five n n' at nf nb e =
      let bs = b ∷ before in
      let q : Saved = record {
        total = length (bs ++ mid);
        nodes = bs ++ (mid ++ (y ∷ y ∷ tail));
      } in
      let one = length-append bs (x ∷ mid) in
      let two = length-append bs mid in
      let three = length-append bs (x ∷ (mid ++ (y ∷ tail))) in
      let four = length-append mid (y ∷ tail) in
      let five' = length-append bs (mid ++ (y ∷ y ∷ tail)) in
      let six = length-append mid (y ∷ y ∷ tail) in
      let removed = remove_saved-at unset b before x mid y tail t in_flash (omega arith) n in
      let loop : leave_loop ops unset x.mac t.joined t
          ≡ done (front ++ (no_node ∷ back), put ops q t) =
        ap (λ js. leave_loop ops unset x.mac js t) at
        ∙ leave_loop-once unset x.mac front j back t (put ops q t) nf nb e removed in
      (
        record (put ops q t) { joined = front ++ (no_node ∷ back) },
        q,
        rw loop,
        refl,
        law t.flash q,
        record { room = omega arith; bound = omega arith },
        λ m. node_at-without m bs x mid (y ∷ y ∷ tail) (y ∷ tail) n n',
      )

  -- With five nodes in the flash file, when a node leaves that is in JoinedNodes and does not
  -- stand first in the file, its removal reads the entry behind the end of the table.
  pub leave-full :
      (unset : ℕ) (b : Node) (before : List Node) (x : Node) (mid : List Node) (front : List Node)
      (j : Node) (back : List Node) (t : Nodes F)
      → ops.read t.flash
        ≡ some (record {
          total = length ((b ∷ before) ++ (x ∷ mid));
          nodes = (b ∷ before) ++ (x ∷ mid);
        })
      → length ((b ∷ before) ++ (x ∷ mid)) ≡ 5
      → NotAt x.mac (b ∷ before)
      → t.joined ≡ front ++ (j ∷ back)
      → NotAt x.mac front
      → j.mac ≡ x.mac
      → leave ops unset x.mac t ≡ fault
  unfolding leave
  leave-full unset b before x mid front j back t in_flash five n at nf e =
      let removed = remove_saved-full unset b before x mid t in_flash n in
      let loop : leave_loop ops unset x.mac t.joined t ≡ fault =
        ap (λ js. leave_loop ops unset x.mac js t) at
        ∙ leave_loop-fault unset x.mac front j back t nf e removed in
      rw loop
