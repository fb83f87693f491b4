-- ===== src/Qualify/Process/Silent.antt =====
-- A new device that does not answer.
use dm_matter_zigbee_bridge.Prelude.{
  ℕ, suc, ◌+◌, ◌%◌, ◌<◌, true, false, some, List, [], ◌∷◌, ◌++◌, ◌≡◌, refl, ap, arith, get_elem?,
  set, get_elem?-bound, get_elem?-set_self, ◌==◌, eq→==, done,
}
use dm_matter_zigbee_bridge.Zcb.Requests.{active_endpoint_request}
use dm_matter_zigbee_bridge.Devices.{Endpoint, Device}
use dm_matter_zigbee_bridge.Qualify.{
  Reply, unsent, unanswered, answered, Work, new_joined, get_cluster, device_at,
}
use dm_matter_zigbee_bridge.Qualify.Phases.{join, ask_descriptor, endpoint_before}
use dm_matter_zigbee_bridge.Qualify.Process.{phase, round, rounds, new_device_qualify_process}

abbrev pub IsSilent : Reply → Type 0
IsSilent answered = ⊥
IsSilent _ = Unit {0}

-- What is left of the device: one endpoint, and the state GET_CLUSTER.
abbrev pub defaulted : Device → Device
defaulted d = record d { endpoint_count = 1; state = get_cluster }

-- Both requests for the active endpoints are made in vain.
abbrev pub given_up_on : ℕ → Device → List Reply → Work → Work
given_up_on k d rest w =
    let request = active_endpoint_request d.node_id in
    record w {
      devices = set w.devices k (defaulted d);
      log = (w.log ++ (request ∷ [])) ++ (request ∷ []);
      replies = rest;
    }

join-silent :
    (k : ℕ) (w : Work) (d : Device) (r s : Reply) (rest : List Reply)
    → get_elem? w.devices k ≡ some d
    → IsSilent r
    → IsSilent s
    → join k (record w { replies = r ∷ s ∷ rest }) ≡ done (given_up_on k d rest w, true)
unfolding join
join-silent k w d answered s rest at p q = absurd p
join-silent k w d unsent answered rest at p q = absurd q
join-silent k w d unanswered answered rest at p q = absurd q
join-silent k w d unsent unsent rest at p q = rw (join, device_at, at)
join-silent k w d unsent unanswered rest at p q = rw (join, device_at, at)
join-silent k w d unanswered unsent rest at p q = rw (join, device_at, at)
join-silent k w d unanswered unanswered rest at p q = rw (join, device_at, at)

-- An endpoint without an identifier is skipped.
ask_descriptor-skips :
    (k : ℕ) (w : Work) (d : Device) (e : Endpoint)
    → get_elem? w.devices k ≡ some d
    → w.ep_index < 255
    → get_elem? d.endpoints w.ep_index ≡ some e
    → e.id ≡ 0
    → ask_descriptor k w ≡ done (record w { ep_index = suc w.ep_index })
unfolding ask_descriptor
ask_descriptor-skips k w d e at small here blank =
    rw (ask_descriptor, device_at, at) (rw next (rw (endpoint_before, here) (rw blank)))
  where
    next : (w.ep_index + 1) % 256 ≡ suc w.ep_index
    next = omega arith

round-silent :
    (k : ℕ) (w : Work) (d : Device) (r s : Reply) (rest : List Reply)
    → get_elem? w.devices k ≡ some d
    → d.state ≡ new_joined
    → IsSilent r
    → IsSilent s
    → round k (record w { replies = r ∷ s ∷ rest }) ≡ done (given_up_on k d rest w, true)
unfolding round phase
round-silent k w d r s rest at new p q =
    rw (round, device_at, at)
      (rw (eq→== d.state new_joined new) (join-silent k w d r s rest at p q))

round-skips :
    (k : ℕ) (w : Work) (d : Device) (e : Endpoint)
    → get_elem? w.devices k ≡ some d
    → d.state ≡ get_cluster
    → w.ep_index < 255
    → get_elem? d.endpoints w.ep_index ≡ some e
    → e.id ≡ 0
    → round k w ≡ done (record w { ep_index = suc w.ep_index }, false)
unfolding round phase
round-skips k w d e at state small here blank =
    rw (round, device_at, at)
      (rw (phase, ap (λ s. s == new_joined) state, ap (λ s. s == get_cluster) state)
        (rw (ask_descriptor-skips k w d e at small here blank)))

-- A newly joined device that answers neither request for its active endpoints, and whose endpoint
-- under the static index has no identifier yet: vZDM_NewDeviceQualifyProcess gives it one
-- endpoint and the state GET_CLUSTER, but sends no descriptor request, and leaves the static
-- index one further.
pub new_device_qualify_process-silent :
    (k : ℕ) (w : Work) (d : Device) (e : Endpoint) (r s : Reply) (rest : List Reply)
    → get_elem? w.devices k ≡ some d
    → d.state ≡ new_joined
    → w.ep_index < 255
    → get_elem? d.endpoints w.ep_index ≡ some e
    → e.id ≡ 0
    → IsSilent r
    → IsSilent s
    → new_device_qualify_process k (record w { replies = r ∷ s ∷ rest })
      ≡ done (record (given_up_on k d rest w) { ep_index = suc w.ep_index })
unfolding new_device_qualify_process rounds
new_device_qualify_process-silent k w d e r s rest at new small here blank p q =
    let g = given_up_on k d rest w in
    let found : get_elem? g.devices k ≡ some (defaulted d) =
      get_elem?-set_self w.devices k (defaulted d) (get_elem?-bound w.devices k d at) in
    rw (round-silent k w d r s rest at new p q)
      (rw (round-skips k g (defaulted d) e found refl small here blank) (rw (device_at, found)))
