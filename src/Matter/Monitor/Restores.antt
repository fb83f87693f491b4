-- ===== src/Matter/Monitor/Restores.antt =====
-- After a restart each stored node has a device again, under its endpoint.
use dm_matter_zigbee_bridge.Prelude.{
  ◌==◌, false, ℕ, suc, ◌+◌, ◌%◌, ◌<◌, ◌≤◌, true, some, Option, List, [], ◌∷◌, ◌++◌, append_assoc,
  append-nil, All, map, drop, set-here, get_elem?-here, length, length-append, ltb, ◌≡◌, refl, sym,
  ap, ◌∙◌, arith, Run, done, ◌>>=◌,
}
use dm_matter_zigbee_bridge.Nodes.{Node, FlashOps}
use dm_matter_zigbee_bridge.Reports.Descriptor.{Supported}
use dm_matter_zigbee_bridge.Matter.{Object, object_at}
use dm_matter_zigbee_bridge.Matter.Slots.{Answer, new_object}
use dm_matter_zigbee_bridge.Matter.Monitor.{
  Monitor, is_restored, in_g_slot, restore_node_endpoint, retrieve_joined_node, no_post, posted,
  taken, zcb_monitor, restore_posted,
}

-- The object of a restored node.
abbrev pub restored_object : Supported → Node → Object
restored_object s n = record (new_object s) { endpoint = n.ep; reachable = true }

-- The slots of as many objects, which begin with the object `h`.
unfoldable pub numbered : ℕ → List Node → List (Option ℕ)
numbered h [] = []
numbered h (n ∷ ns) = some h ∷ numbered (suc h) ns

-- The types that are restored are not 0.
has_type : (type : ℕ) → is_restored type ≡ true → (type == 0) ≡ false
has_type type h = ground arith

module _ {ℓ} {F : Type ℓ} where
  -- One node more.
  abbrev pub with_node :
      Supported → Node → List (Option ℕ) → List (Option ℕ) → Monitor F → Monitor F
  with_node s n before rest t = record t {
    manager = record t.manager {
      heap = t.manager.heap ++ (some (restored_object s n) ∷ []);
      slots = before ++ (some (length t.manager.heap) ∷ rest);
    };
    g_index = suc t.g_index;
    post = no_post;
  }

  in_g_slot-here :
      (dev : ℕ) (t : Monitor F) (before : List (Option ℕ)) (f : Option ℕ) (rest : List (Option ℕ))
      → t.manager.slots ≡ before ++ (f ∷ rest)
      → t.g_index ≡ length before
      → in_g_slot dev t
        ≡ done (record t { manager = record t.manager { slots = before ++ (some dev ∷ rest) } })
  in_g_slot-here dev t before f rest slots index =
      rw (in_g_slot, slots, index) (rw (room, set-here before f (some dev) rest) refl)
    where
      room : ltb (length before) (length (before ++ (f ∷ rest))) ≡ true
      room = rw (length-append before (f ∷ rest)) (ground arith)

  restore-here :
      (s : Supported) (n : Node) (t : Monitor F) (before : List (Option ℕ)) (f : Option ℕ)
      (rest : List (Option ℕ))
      → is_restored n.type ≡ true
      → t.manager.slots ≡ before ++ (f ∷ rest)
      → t.g_index ≡ length before
      → length before < 255
      → retrieve_joined_node s n.type n.ep t
        ≡ done (record (with_node s n before rest t) { post = t.post })
  unfolding retrieve_joined_node restore_node_endpoint
  restore-here s n t before f rest known slots index small =
      rw (retrieve_joined_node, known)
        (rw
          (restore_node_endpoint, object_at, get_elem?-here t.manager.heap (some (new_object s)) [])
          (rw (in_g_slot-here h t' before f rest slots index) (
            rw
              (
                set-here t.manager.heap (some (new_object s)) (some (restored_object s n)) [],
                counts,
              )
              refl)))
    where
      h : ℕ
      h = length t.manager.heap

      t' : Monitor F
      t' = record t {
        manager = record t.manager { heap = t.manager.heap ++ (some (new_object s) ∷ []) };
      }

      counts : (t.g_index + 1) % 256 ≡ suc t.g_index
      counts = omega (arith, index, small)

  monitor-here :
      (ops : FlashOps F) (answer : ℕ → ℕ → Answer) (fuel : ℕ) (s : Supported) (n : Node)
      (t : Monitor F) (before : List (Option ℕ)) (f : Option ℕ) (rest : List (Option ℕ))
      → is_restored n.type ≡ true
      → t.manager.slots ≡ before ++ (f ∷ rest)
      → t.g_index ≡ length before
      → length before < 255
      → zcb_monitor ops answer fuel (posted s n t) ≡ done (with_node s n before rest t)
  unfolding zcb_monitor
  monitor-here ops answer fuel s n t before f rest known slots index small =
      ap (λ r. r >>= taken) (restore-here s n (posted s n t) before f rest known slots index small)

  -- The devices of the nodes `ns` stand behind the objects and the slots that there were.
  pub record Restored (s : Supported) (ns : List Node) (before free : List (Option ℕ))
      (t : Monitor F) (r : Run (Monitor F)) : Type ℓ where
    pub u : Monitor F
    pub runs : r ≡ done u
    pub heap_is : u.manager.heap ≡ t.manager.heap ++ map (λ n. some (restored_object s n)) ns
    pub slots_are :
        u.manager.slots ≡ before ++ (numbered (length t.manager.heap) ns ++ drop (length ns) free)
    pub index_is : u.g_index ≡ length before + length ns

  Restored-none :
      (s : Supported) (before free : List (Option ℕ)) (t : Monitor F)
      → t.manager.slots ≡ before ++ free
      → t.g_index ≡ length before
      → Restored s [] before free t (done t)
  unfolding numbered
  Restored-none s before free t slots index = record {
    u = t;
    runs = refl;
    heap_is = sym (append-nil t.manager.heap);
    slots_are = slots;
    index_is = omega (arith, index);
  }

  Restored-step :
      (s : Supported) (n : Node) (ns : List Node) (before : List (Option ℕ)) (f : Option ℕ)
      (rest : List (Option ℕ)) (t : Monitor F) (q : Run (Monitor F))
      (more : Monitor F → Run (Monitor F))
      → q ≡ done (with_node s n before rest t)
      → Restored s ns
          (before ++ (some (length t.manager.heap) ∷ []))
          rest
          (with_node s n before rest t)
          (more (with_node s n before rest t))
      → Restored s (n ∷ ns) before (f ∷ rest) t (q >>= more)
  unfolding numbered
  Restored-step s n ns before f rest t q more step g = record {
    u = g.u;
    runs = ap (λ x. x >>= more) step ∙ g.runs;
    heap_is = g.heap_is ∙ append_assoc t.manager.heap _ _;
    slots_are =
        g.slots_are
        ∙ append_assoc before _ _
        ∙ ap
            (λ h.
              before ++ (some (length t.manager.heap) ∷ (numbered h ns ++ drop (length ns) rest)))
            (longer t.manager.heap);
    index_is =
        rw (g.index_is, length-append before (some (length t.manager.heap) ∷ [])) (omega arith);
  }
    where
      longer :
          (os : List (Option Object))
          → length (os ++ (some (restored_object s n) ∷ [])) ≡ suc (length os)
      longer os = rw (length-append os (some (restored_object s n) ∷ [])) (omega arith)

  -- When RestoreJoinedNodes posts nodes of the types 1 to 3, ZcbMonitor takes each before the
  -- next comes, and the slots from gIndex on are enough: each node has a new reachable device
  -- with its endpoint, the slots from gIndex on point to these devices in the order of the nodes,
  -- and gIndex counts them.
  pub restore_posted-Restored :
      (ops : FlashOps F) (answer : ℕ → ℕ → Answer) (fuel : ℕ) (s : Supported) (ns : List Node)
      (before free : List (Option ℕ)) (t : Monitor F)
      → All (λ n. is_restored n.type ≡ true) ns
      → t.manager.slots ≡ before ++ free
      → t.g_index ≡ length before
      → length ns ≤ length free
      → length before + length ns < 256
      → Restored s ns before free t (restore_posted ops answer fuel s ns t)
  unfolding restore_posted
  restore_posted-Restored ops answer fuel s [] before free t known slots index room small =
      Restored-none s before free t slots index
  restore_posted-Restored ops answer fuel s (n ∷ ns) before [] t known slots index room small =
      absurd (omega arith)
  restore_posted-Restored ops answer fuel s (n ∷ ns) before (f ∷ rest) t known slots index room
        small =
      rw (has_type n.type known.0) (
        Restored-step s n ns before f rest t (zcb_monitor ops answer fuel (posted s n t))
          (restore_posted ops answer fuel s ns)
          (monitor-here ops answer fuel s n t before f rest known.0 slots index (omega arith))
          (restore_posted-Restored ops answer fuel s ns
            (before ++ (some (length t.manager.heap) ∷ [])) rest (with_node s n before rest t)
            known.1 (sym (append_assoc before _ rest)) (longer index) (omega arith)
            (smaller small)))
    where
      longer :
          t.g_index ≡ length before
          → suc t.g_index ≡ length (before ++ (some (length t.manager.heap) ∷ []))
      longer h = rw (length-append before (some (length t.manager.heap) ∷ [])) (omega arith)

      smaller :
          length before + suc (length ns) < 256
          → length (before ++ (some (length t.manager.heap) ∷ [])) + length ns < 256
      smaller h = rw (length-append before (some (length t.manager.heap) ∷ [])) (omega arith)
