-- ===== src/Matter/Slots/Settles.antt =====
-- The inner loop of `AddDeviceEndpoint` takes the first endpoint that the SDK does not have.
use dm_matter_zigbee_bridge.Prelude.{
  ℕ, zero, suc, ◌+◌, true, none, some, Option, List, [], ◌∷◌, set, ◌≡◌, refl, ap, ◌∙◌,
  get_elem?-bound, get_elem?-set_self, arith, Run, done, ◌>>=◌,
}
use dm_matter_zigbee_bridge.Nodes.{FlashOps, Nodes}
use dm_matter_zigbee_bridge.Nodes.Join.{update_joined_nodes}
use dm_matter_zigbee_bridge.Matter.{Object, Manager, object_at}
use dm_matter_zigbee_bridge.Matter.Slots.{
  Answer, accepted, exists, refused, next_endpoint, with_endpoint, settle,
}
use dm_matter_zigbee_bridge.Matter.Slots.Removed.{IsLive}

-- The endpoint that the loop tries after `n` that exist.
unfoldable pub endpoint_after : ℕ → ℕ → ℕ → ℕ
endpoint_after zero first e = e
endpoint_after (suc n) first e = endpoint_after n first (next_endpoint first e)

-- The first `n` endpoints exist.
unfoldable pub TakenFor : ℕ → (ℕ → Answer) → ℕ → ℕ → Type 0
TakenFor zero answer first e = Unit {0}
TakenFor (suc n) answer first e =
    (answer e ≡ exists) × TakenFor n answer first (next_endpoint first e)

set-set :
    (xs : List (Option Object)) (i : ℕ) (a b : Option Object) → set (set xs i a) i b ≡ set xs i b
set-set [] i a b = refl
set-set (x ∷ xs) zero a b = refl
set-set (x ∷ xs) (suc i) a b = ap (◌∷◌ x) (set-set xs i a b)

module _ {ℓ} {F : Type ℓ} (ops : FlashOps F) where
  -- The manager once the object has the endpoint.
  abbrev pub placed : ℕ → Object → ℕ → Manager F → Nodes F → Manager F
  placed dev o e m ns = record m {
    heap = set m.heap dev (some (record o { reachable = true; endpoint = e }));
    current = e;
    nodes = ns;
  }

  -- What the loop comes to for an endpoint.
  abbrev pub placing : ℕ → ℕ → Object → ℕ → Manager F → Run (Manager F × Option ℕ)
  placing i dev o e m =
      update_joined_nodes ops e m.nodes >>= λ ns. done (placed dev o e m ns, some i)

  settle-now :
      (answer : ℕ → Answer) (k i dev : ℕ) (o : Object) (m : Manager F)
      → IsLive dev o m
      → answer m.current ≡ accepted
      → settle ops answer (suc k) i dev m ≡ placing i dev o m.current m
  unfolding settle
  settle-now answer k i dev o m live ok =
      rw (settle, object_at, live)
        (rw ok (
          ap
            (λ h. update_joined_nodes ops m.current m.nodes >>= λ ns.
              done (record m { heap = h; nodes = ns }, some i))
            (set-set m.heap dev _ _)))

  settle-on :
      (answer : ℕ → Answer) (k i dev : ℕ) (o : Object) (m : Manager F)
      → IsLive dev o m
      → answer m.current ≡ exists
      → settle ops answer (suc k) i dev m
        ≡ settle ops answer k i dev (record m {
          heap = set m.heap dev (some (with_endpoint o m.current));
          current = next_endpoint m.first m.current;
        })
  unfolding settle
  settle-on answer k i dev o m live ok = rw (settle, object_at, live) (rw ok refl)

  pub settle-after :
      (answer : ℕ → Answer) (n k i dev : ℕ) (o : Object) (m : Manager F)
      → IsLive dev o m
      → TakenFor n answer m.first m.current
      → answer (endpoint_after n m.first m.current) ≡ accepted
      → settle ops answer (suc (n + k)) i dev m
        ≡ placing i dev o (endpoint_after n m.first m.current) m
  unfolding TakenFor endpoint_after
  settle-after answer zero k i dev o m live taken ok =
      ap (λ f. settle ops answer (suc f) i dev m) (omega arith)
      ∙ settle-now answer k i dev o m live ok
  settle-after answer (suc n) k i dev o m live taken ok =
      let m' = record m {
        heap = set m.heap dev (some (with_endpoint o m.current));
        current = next_endpoint m.first m.current;
      } in
      let live' : IsLive dev (with_endpoint o m.current) m' =
        get_elem?-set_self m.heap dev _ (get_elem?-bound m.heap dev (some o) live) in
      let e = endpoint_after n m.first (next_endpoint m.first m.current) in
      ap (λ f. settle ops answer (suc f) i dev m) (omega arith)
      ∙ settle-on answer (suc (n + k)) i dev o m live taken.0
      ∙ settle-after answer n k i dev (with_endpoint o m.current) m' live' taken.1 ok
      ∙ ap
          (λ h. update_joined_nodes ops e m.nodes >>= λ ns.
            done (record m { heap = h; current = e; nodes = ns }, some i))
          (set-set m.heap dev _ _)

  -- The manager when the SDK refuses an endpoint: the object keeps it, without being reachable.
  abbrev pub given_up : ℕ → Object → ℕ → Manager F → Manager F
  given_up dev o e m = record m { heap = set m.heap dev (some (with_endpoint o e)); current = e }

  settle-refused_now :
      (answer : ℕ → Answer) (k i dev : ℕ) (o : Object) (m : Manager F)
      → IsLive dev o m
      → answer m.current ≡ refused
      → settle ops answer (suc k) i dev m ≡ done (given_up dev o m.current m, none)
  unfolding settle
  settle-refused_now answer k i dev o m live no_ok = rw (settle, object_at, live) (rw no_ok refl)

  pub settle-refused :
      (answer : ℕ → Answer) (n k i dev : ℕ) (o : Object) (m : Manager F)
      → IsLive dev o m
      → TakenFor n answer m.first m.current
      → answer (endpoint_after n m.first m.current) ≡ refused
      → settle ops answer (suc (n + k)) i dev m
        ≡ done (given_up dev o (endpoint_after n m.first m.current) m, none)
  unfolding TakenFor endpoint_after
  settle-refused answer zero k i dev o m live taken no_ok =
      ap (λ f. settle ops answer (suc f) i dev m) (omega arith)
      ∙ settle-refused_now answer k i dev o m live no_ok
  settle-refused answer (suc n) k i dev o m live taken no_ok =
      let m' = record m {
        heap = set m.heap dev (some (with_endpoint o m.current));
        current = next_endpoint m.first m.current;
      } in
      let live' : IsLive dev (with_endpoint o m.current) m' =
        get_elem?-set_self m.heap dev _ (get_elem?-bound m.heap dev (some o) live) in
      let e = endpoint_after n m.first (next_endpoint m.first m.current) in
      ap (λ f. settle ops answer (suc f) i dev m) (omega arith)
      ∙ settle-on answer (suc (n + k)) i dev o m live taken.0
      ∙ settle-refused answer n k i dev (with_endpoint o m.current) m' live' taken.1 no_ok
      ∙ ap (λ h. done (record m { heap = h; current = e }, none)) (set-set m.heap dev _ _)
