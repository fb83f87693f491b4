-- ===== src/Qualify/Process/Ends.antt =====
-- The process comes to an end after at most two rounds, whatever the device answers.
use dm_matter_zigbee_bridge.Prelude.{
  ℕ, zero, suc, ◌+◌, Bool, true, false, Bool-cases, none, some, List, [], ◌∷◌, ◌≡◌, ◌≢◌, refl, sym,
  subst, ap, ◌∙◌, inl, inr, arith, ◌⊎◌, get_elem?, set, ◌==◌, if◌then◌else◌, Run, done, fault, spin,
  ◌>>=◌,
}
use dm_matter_zigbee_bridge.Devices.{Device}
use dm_matter_zigbee_bridge.Zcb.Requests.{active_endpoint_request}
use dm_matter_zigbee_bridge.Qualify.{
  Reply, unsent, unanswered, answered, Work, new_joined, active, get_cluster, bind_cluster,
  read_attribute, device_at, put_at, reply_of, exchange,
}
use dm_matter_zigbee_bridge.Qualify.Phases.{join_reply, second_round, join}
use dm_matter_zigbee_bridge.Qualify.Phases.Ends.{
  Ends, Ends->>=, device_at-Ends, ask_descriptor-Ends, read_models-Ends, bind_clusters-Ends,
}
use dm_matter_zigbee_bridge.Qualify.Process.{
  last_round, phase, round, rounds, reset_index, new_device_qualify_process,
}

-- A round that ends the loop, or faults.
abbrev Last : Run (Work × Bool) → Type 0
Last (done r) = r.1 ≡ false
Last fault = Unit {0}
Last spin = ⊥

last_round-Last : (r : Run Work) → Ends r → Last (last_round r)
last_round-Last (done w) h = refl
last_round-Last fault h = tt
last_round-Last spin h = h

Last-if : (b : Bool) (x y : Run (Work × Bool)) → Last x → Last y → Last (if b then x else y)
Last-if true x y p q = p
Last-if false x y p q = q

phase-Last : (state k : ℕ) (w : Work) → (state == new_joined) ≡ false → Last (phase state k w)
unfolding phase
phase-Last state k w h = rw h (
    Last-if (state == get_cluster) _ _ (last_round-Last _ (ask_descriptor-Ends k w)) (
      Last-if (state == read_attribute) _ _ (last_round-Last _ (read_models-Ends k w)) (
        Last-if (state == bind_cluster) _ _ (last_round-Last _ (bind_clusters-Ends k w))
          (Last-if (state == active) _ _ refl refl))))

-- After the first round the device has another state, or the loop ends.
abbrev Turns : ℕ → Run (Work × Bool) → Type 0
Turns k (done r) =
    (r.1 ≡ false) ⊎ ((d : Device) × (device_at k r.0 ≡ done d) × (d.state ≡ get_cluster))
Turns k fault = Unit {0}
Turns k spin = ⊥

put_at-found :
    (k : ℕ) (w : Work) (d e : Device) → device_at k w ≡ done d → device_at k (put_at k e w) ≡ done e
put_at-found k w d e h = written w.devices k h
  where
    entry : List Device → ℕ → Run Device
    entry ds i = elim (get_elem? ds i) as (λ x. Run Device) [ none ↦ fault | some x ↦ done x ]

    fault_done : fault ≡ done d → ⊥
    fault_done p = cc

    written : (ds : List Device) (i : ℕ) → entry ds i ≡ done d → entry (set ds i e) i ≡ done e
    written [] i q = absurd (fault_done q)
    written (x ∷ ds) zero q = refl
    written (x ∷ ds) (suc i) q = written ds i q

join_reply-Turns :
    (k : ℕ) (d : Device) (w : Work) (r : Reply)
    → device_at k w ≡ done d
    → Turns k (done (join_reply k d true w r))
join_reply-Turns k d w answered at = inl refl
join_reply-Turns k d w unsent at =
    let e = record d { endpoint_count = 1; state = get_cluster } in
    inr (e, put_at-found k w d e at, refl)
join_reply-Turns k d w unanswered at =
    let e = record d { endpoint_count = 1; state = get_cluster } in
    inr (e, put_at-found k w d e at, refl)

second_round-Turns :
    (k : ℕ) (d : Device) (w : Work) (r : Reply)
    → device_at k w ≡ done d
    → Turns k (done (second_round k d (join_reply k d false w r)))
second_round-Turns k d w answered at = inl refl
second_round-Turns k d w unsent at = join_reply-Turns k d _ (reply_of w.replies) at
second_round-Turns k d w unanswered at = join_reply-Turns k d _ (reply_of w.replies) at

join-Turns : (k : ℕ) (d : Device) (w : Work) → device_at k w ≡ done d → Turns k (join k w)
unfolding join
join-Turns k d w at =
    rw (join, at)
      (second_round-Turns k d (exchange (active_endpoint_request d.node_id) w) (reply_of w.replies)
        at)

-- The rest of the loop behind one round, with fuel for `n` more.
abbrev Behind : ℕ → ℕ → Run (Work × Bool) → Run Work
Behind n k r = r >>= λ x. let again = rounds n k x.0 in if x.1 then again else done x.0

-- Further fuel is not used.
abbrev Settled : Run Work → Run Work → Type 0
Settled r s = (r ≡ s) × Ends s

Last-Settled : (n m k : ℕ) (r : Run (Work × Bool)) → Last r → Settled (Behind n k r) (Behind m k r)
Last-Settled n m k (done (w, b)) h = (rw h, rw h tt)
Last-Settled n m k fault h = (refl, tt)
Last-Settled n m k spin h = absurd h

get_cluster-Last :
    (k : ℕ) (w : Work) (d : Device)
    → device_at k w ≡ done d
    → d.state ≡ get_cluster
    → Last (round k w)
unfolding round
get_cluster-Last k w d at e = rw (round, at) (phase-Last d.state k w (rw e))

Turns-Settled :
    (n k : ℕ) (r : Run (Work × Bool)) → Turns k r → Settled (Behind (suc n) k r) (Behind 1 k r)
unfolding rounds
Turns-Settled n k fault h = (refl, tt)
Turns-Settled n k spin h = absurd h
Turns-Settled n k (done (w, false)) h = (refl, tt)
Turns-Settled n k (done (w, true)) (inl e) = absurd (no_turn e)
  where
    no_turn : true ≡ false → ⊥
    no_turn p = cc
Turns-Settled n k (done (w, true)) (inr (d, at, e)) =
    Last-Settled n 0 k (round k w) (get_cluster-Last k w d at e)

never_spins : (k : ℕ) (w : Work) → device_at k w ≢ spin
never_spins k w at = subst Ends at (device_at-Ends k w)

joining-Settled :
    (n k : ℕ) (w : Work) (d : Device)
    → device_at k w ≡ done d
    → (d.state == new_joined) ≡ true
    → Settled (Behind (suc n) k (phase d.state k w)) (Behind 1 k (phase d.state k w))
unfolding phase
joining-Settled n k w d at e = rw e (Turns-Settled n k (join k w) (join-Turns k d w at))

phase-Settled :
    (n k : ℕ) (w : Work) (d : Device)
    → device_at k w ≡ done d
    → Settled (Behind (suc n) k (phase d.state k w)) (Behind 1 k (phase d.state k w))
phase-Settled n k w d at = elim (Bool-cases (d.state == new_joined)) [
  | inl y ↦ joining-Settled n k w d at y
  | inr y ↦ Last-Settled (suc n) 1 k _ (phase-Last d.state k w y)
]

rounds-Settled : (n k : ℕ) (w : Work) → Settled (rounds (suc (suc n)) k w) (rounds 2 k w)
unfolding rounds round
rounds-Settled n k w = from_device (device_at k w) refl
  where
    from : Run Device → Run (Work × Bool)
    from r = r >>= λ d. phase d.state k w

    from_device :
        (r : Run Device)
        → device_at k w ≡ r
        → Settled (Behind (suc n) k (from (device_at k w))) (Behind 1 k (from (device_at k w)))
    from_device (done d) at = rw at (phase-Settled n k w d at)
    from_device fault at = rw at (refl, tt)
    from_device spin at = absurd (never_spins k w at)

reset_index-Ends : (k : ℕ) (w : Work) → Ends (reset_index k w)
reset_index-Ends k w = Ends->>= (device_at k w) _ (device_at-Ends k w) (λ d. tt)

Ends-spin {ℓ} : {A : Type ℓ} (r : Run A) → Ends r → r ≢ spin
Ends-spin r h e = subst Ends e h

-- vZDM_NewDeviceQualifyProcess comes to an end for every state of the device and whatever the
-- device answers: two rounds of its while loop are enough, and more rounds give the same result.
pub new_device_qualify_process-ends :
    (n k : ℕ) (w : Work)
    → (new_device_qualify_process k w ≢ spin)
      × (new_device_qualify_process k w ≡ (rounds (n + 2) k w >>= reset_index k))
unfolding new_device_qualify_process
new_device_qualify_process-ends n k w =
    let settled = rounds-Settled n k w in
    (
      Ends-spin _ (Ends->>= (rounds 2 k w) (reset_index k) settled.1 (reset_index-Ends k)),
      ap (λ r. r >>= reset_index k) (sym settled.0 ∙ ap (λ m. rounds m k w) (omega arith)),
    )
