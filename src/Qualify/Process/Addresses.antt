-- ===== src/Qualify/Process/Addresses.antt =====
-- No phase changes the IEEE address of a device.
use dm_matter_zigbee_bridge.Prelude.{
  ℕ, zero, suc, Bool, true, false, ◌&&◌, Option, none, some, List, [], ◌∷◌, ◌+◌, ◌%◌, map,
  get_elem?, set, ◌==◌, ◌≡◌, refl, ap, ◌∙◌, if◌then◌else◌, Run, done, fault, spin, ◌>>=◌,
}
use dm_matter_zigbee_bridge.Devices.{Device, Attribute, valid_node_id, valid_endpoint}
use dm_matter_zigbee_bridge.Devices.Adding.{
  count_in_endpoints, count_attribute, counted_row, take_row, add_new_attribute,
}
use dm_matter_zigbee_bridge.Qualify.{
  Reply, unsent, unanswered, answered, Work, new_joined, active, get_cluster, bind_cluster,
  read_attribute, device_at, put_at, reply_of, exchange,
}
use dm_matter_zigbee_bridge.Zcb.Requests.{active_endpoint_request, simple_descriptor_request}
use dm_matter_zigbee_bridge.Qualify.Phases.Outcome.{Then, Then->>=, Then-if, Any, Then-Any}
use dm_matter_zigbee_bridge.Qualify.Phases.{
  Place, places, ask_descriptor, endpoint_before, is_skipped, descriptor_rounds, add_attribute,
  read_rounds, read_model, read_place, read_places, read_models, add_attributes, bind_place,
  bind_places, bound, bound_attributes, bind_clusters, join_reply, second_round, join,
}
use dm_matter_zigbee_bridge.Qualify.Process.{
  last_round, phase, round, rounds, new_device_qualify_process,
}

abbrev pub ieees : List Device → List ℕ
ieees ds = map (λ d. d.ieee) ds

-- A table with the same addresses.
abbrev pub SameIeees : List Device → List Device → Type 0
SameIeees ds es = ieees es ≡ ieees ds

count_attribute-SameIeees :
    (id ep cluster : ℕ) (ds : List Device) → Then (SameIeees ds) (count_attribute id ep cluster ds)
unfolding count_attribute
count_attribute-SameIeees id ep cluster [] = tt
count_attribute-SameIeees id ep cluster (d ∷ ds) =
    Then-if (SameIeees (d ∷ ds)) (d.node_id == id) _ _
      (Then->>= Any (SameIeees (d ∷ ds)) (count_in_endpoints ep cluster d.endpoints) _ (Then-Any _)
        (λ es h. refl))
      (Then->>= (SameIeees ds) (SameIeees (d ∷ ds)) _ _ (count_attribute-SameIeees id ep cluster ds)
        (λ es h. ap (◌∷◌ d.ieee) h))

-- A step of the process.
abbrev pub Same : Work → Work → Type 0
Same w u = SameIeees w.devices u.devices

add_attribute-Same :
    (id ep cluster attribute kind : ℕ) (w : Work)
    → Then (Same w) (add_attribute id ep cluster attribute kind w)
unfolding add_new_attribute
add_attribute-Same id ep cluster attribute kind w =
    Then->>= Tables (Same w) _ _
      (Then-if Tables (valid_node_id id && valid_endpoint ep) _ _
        (row (take_row id ep cluster attribute kind w.attributes)) refl)
      (λ t h. h)
  where
    Tables : List Device × List Attribute → Type 0
    Tables t = SameIeees w.devices t.0

    row :
        (o : Option (List Attribute))
        → Then Tables (counted_row id ep cluster w.devices w.attributes o)
    row none = refl
    row (some rows) =
        Then->>= (SameIeees w.devices) Tables _ _
          (count_attribute-SameIeees id ep cluster w.devices) (λ es h. h)

Same-later : (w u : Work) → Same w u → (r : Run Work) → Then (Same u) r → Then (Same w) r
Same-later w u p (done v) q = q ∙ p
Same-later w u p fault q = tt
Same-later w u p spin q = tt

-- One step behind another.
Same->>= :
    (w : Work) (m : Run Work) (f : Work → Run Work)
    → Then (Same w) m
    → ((u : Work) → Then (Same u) (f u))
    → Then (Same w) (m >>= f)
Same->>= w m f h k = Then->>= (Same w) (Same w) m f h (λ u p. Same-later w u p (f u) (k u))

Same-reply :
    (w u v : Work) (r : Reply)
    → Same w u
    → Same w v
    → Same w (elim r as (λ x. Work) [ answered ↦ u | _ ↦ v ])
Same-reply w u v answered p q = p
Same-reply w u v unsent p q = q
Same-reply w u v unanswered p q = q

read_rounds-Same : (n id ep : ℕ) (w : Work) → Same w (read_rounds n id ep w)
read_rounds-Same zero id ep w = refl
read_rounds-Same (suc n) id ep w =
    let asked = exchange (read_model id ep) w in
    Same-reply w asked (read_rounds n id ep asked) (reply_of w.replies) refl
      (read_rounds-Same n id ep asked)

descriptor_rounds-Same : (n id : ℕ) (w : Work) → Same w (descriptor_rounds n id w)
descriptor_rounds-Same zero id w = refl
descriptor_rounds-Same (suc n) id w =
    let asked = exchange (simple_descriptor_request id 1) w in
    Same-reply w asked (descriptor_rounds n id asked) (reply_of w.replies) refl
      (descriptor_rounds-Same n id asked)

read_places-Same : (id : ℕ) (ps : List Place) (w : Work) → Then (Same w) (read_places id ps w)
unfolding read_places
read_places-Same id [] w = refl
read_places-Same id (p ∷ ps) w =
    Same->>= w (read_place id p w) _
      (Then-if (Same w) (p.cluster == 0) _ _
        (Same->>= w _ _ (add_attribute-Same id p.ep 0 5 0x81 w) (λ u. read_rounds-Same 2 id p.ep u))
        refl)
      (λ u. read_places-Same id ps u)

add_attributes-Same :
    (id ep cluster : ℕ) (added : List ℕ) (w : Work)
    → Then (Same w) (add_attributes id ep cluster added w)
unfolding add_attributes
add_attributes-Same id ep cluster [] w = refl
add_attributes-Same id ep cluster (a ∷ more) w =
    Same->>= w _ _ (add_attribute-Same id ep cluster a 0x80 w)
      (λ u. add_attributes-Same id ep cluster more u)

bound-Same :
    (mac ep cluster : ℕ) (added : List ℕ) (w : Work) → Same w (bound mac ep cluster added w)
bound-Same mac ep cluster [] w = refl
bound-Same mac ep cluster (a ∷ more) w = refl

bind_places-Same :
    (id mac : ℕ) (ps : List Place) (w : Work) → Then (Same w) (bind_places id mac ps w)
unfolding bind_places
bind_places-Same id mac [] w = refl
bind_places-Same id mac (p ∷ ps) w =
    let added = bound_attributes p.device_type p.cluster in
    Same->>= w (bind_place id mac p w) _
      (Same->>= w _ _ (add_attributes-Same id p.ep p.cluster added w)
        (λ u. bound-Same mac p.ep p.cluster added u))
      (λ u. bind_places-Same id mac ps u)

-- The entry that is read.
pub IsAt : ℕ → Work → Device → Type 0
IsAt k w d = get_elem? w.devices k ≡ some d

pub device_at-IsAt : (k : ℕ) (w : Work) → Then (IsAt k w) (device_at k w)
unfolding IsAt
device_at-IsAt k w = found (get_elem? w.devices k) refl
  where
    found :
        (o : Option Device)
        → get_elem? w.devices k ≡ o
        → Then (IsAt k w) (elim o as (λ x. Run Device) [ none ↦ fault | some d ↦ done d ])
    found none h = tt
    found (some d) h = h

-- An entry that is changed but for its address.
pub put_at-Same :
    (k : ℕ) (w : Work) (d e : Device) → IsAt k w d → e.ieee ≡ d.ieee → Same w (put_at k e w)
unfolding IsAt
put_at-Same k w d e h same = written w.devices k h
  where
    written : (ds : List Device) (i : ℕ) → get_elem? ds i ≡ some d → SameIeees ds (set ds i e)
    written [] i q = refl
    written (x ∷ ds) zero q = ap (λ i. i ∷ ieees ds) (same ∙ ap (λ y. y.ieee) (some_is x d q))
      where
        some_is : (a b : Device) → some a ≡ some b → b ≡ a
        some_is a b q = cc
    written (x ∷ ds) (suc i) q = ap (◌∷◌ x.ieee) (written ds i q)

-- A step that begins with the read of an entry.
pub device_at-Same :
    (k : ℕ) (w : Work) (f : Device → Run Work)
    → ((d : Device) → IsAt k w d → Then (Same w) (f d))
    → Then (Same w) (device_at k w >>= f)
device_at-Same k w f h = Then->>= (IsAt k w) (Same w) (device_at k w) f (device_at-IsAt k w) h

ask_descriptor-Same : (k : ℕ) (w : Work) → Then (Same w) (ask_descriptor k w)
unfolding ask_descriptor
ask_descriptor-Same k w = device_at-Same k w _ (λ d h.
    let i = (w.ep_index + 1) % 256 in
    Then->>= Any (Same w) (endpoint_before i d.endpoints) _ (Then-Any _)
      (λ e t. next (is_skipped e.id) d (record w { ep_index = i }) refl))
  where
    next :
        (b : Bool) (d : Device) (u : Work)
        → u.devices ≡ w.devices
        → Same w (if b then u else descriptor_rounds 2 d.node_id u)
    next true d u e = ap ieees e
    next false d u e = descriptor_rounds-Same 2 d.node_id u ∙ ap ieees e

read_models-Same : (k : ℕ) (w : Work) → Then (Same w) (read_models k w)
unfolding read_models
read_models-Same k w = device_at-Same k w _ (λ d h.
    Then->>= Any (Same w) (places d.endpoint_count d.endpoints) _ (Then-Any _)
      (λ ps t. read_places-Same d.node_id ps w))

bind_clusters-Same : (k : ℕ) (w : Work) → Then (Same w) (bind_clusters k w)
unfolding bind_clusters
bind_clusters-Same k w = device_at-Same k w _ (λ d h.
    Then->>= Any (Same w) (places d.endpoint_count d.endpoints) _ (Then-Any _) (λ ps t.
      Same->>= w (bind_places d.node_id d.ieee ps w) _ (bind_places-Same d.node_id d.ieee ps w)
        (λ u.
          device_at-Same k u _ (λ e at. put_at-Same k u e (record e { state = active }) at refl))))

-- A round of the loop.
abbrev SameRound : Work → Work × Bool → Type 0
SameRound w r = Same w r.0

last_round-Same : (w : Work) (m : Run Work) → Then (Same w) m → Then (SameRound w) (last_round m)
last_round-Same w m h = Then->>= (Same w) (SameRound w) m _ h (λ u p. p)

join_reply-Same :
    (k : ℕ) (d : Device) (second : Bool) (w : Work) (r : Reply)
    → IsAt k w d
    → SameRound w (join_reply k d second w r)
join_reply-Same k d second w answered at = refl
join_reply-Same k d false w unsent at = refl
join_reply-Same k d false w unanswered at = refl
join_reply-Same k d true w unsent at =
    put_at-Same k w d (record d { endpoint_count = 1; state = get_cluster }) at refl
join_reply-Same k d true w unanswered at =
    put_at-Same k w d (record d { endpoint_count = 1; state = get_cluster }) at refl

second_round-Same :
    (k : ℕ) (d : Device) (w : Work) (r : Reply)
    → IsAt k w d
    → SameRound w (second_round k d (join_reply k d false w r))
unfolding IsAt
second_round-Same k d w answered at = refl
second_round-Same k d w unsent at =
    join_reply-Same k d true (exchange (active_endpoint_request d.node_id) w) (reply_of w.replies)
      at
second_round-Same k d w unanswered at =
    join_reply-Same k d true (exchange (active_endpoint_request d.node_id) w) (reply_of w.replies)
      at

join-Same : (k : ℕ) (w : Work) → Then (SameRound w) (join k w)
unfolding join IsAt
join-Same k w = Then->>= (IsAt k w) (SameRound w) (device_at k w) _ (device_at-IsAt k w) (λ d at.
    second_round-Same k d (exchange (active_endpoint_request d.node_id) w) (reply_of w.replies) at)

phase-Same : (state k : ℕ) (w : Work) → Then (SameRound w) (phase state k w)
unfolding phase
phase-Same state k w =
    let P = SameRound w in
    Then-if P (state == new_joined) _ _ (join-Same k w) (
      Then-if P (state == get_cluster) _ _ (last_round-Same w _ (ask_descriptor-Same k w)) (
        Then-if P (state == read_attribute) _ _ (last_round-Same w _ (read_models-Same k w)) (
          Then-if P (state == bind_cluster) _ _ (last_round-Same w _ (bind_clusters-Same k w))
            (Then-if P (state == active) _ _ refl refl))))

round-Same : (k : ℕ) (w : Work) → Then (SameRound w) (round k w)
unfolding round
round-Same k w =
    Then->>= (IsAt k w) (SameRound w) (device_at k w) _ (device_at-IsAt k w)
      (λ d at. phase-Same d.state k w)

rounds-Same : (n k : ℕ) (w : Work) → Then (Same w) (rounds n k w)
unfolding rounds
rounds-Same zero k w = tt
rounds-Same (suc n) k w =
    Then->>= (SameRound w) (Same w) (round k w) _ (round-Same k w)
      (λ r h. again r h (rounds n k r.0) (rounds-Same n k r.0))
  where
    again :
        (r : Work × Bool)
        → SameRound w r
        → (more : Run Work) → Then (Same r.0) more
        → Then (Same w) (if r.1 then more else done r.0)
    again (u, true) h more q = Same-later w u h more q
    again (u, false) h more q = h

pub new_device_qualify_process-Same :
    (k : ℕ) (w : Work) → Then (Same w) (new_device_qualify_process k w)
unfolding new_device_qualify_process
new_device_qualify_process-Same k w = Same->>= w (rounds 2 k w) _ (rounds-Same 2 k w) (λ u.
    device_at-Same k u _ (λ d at. unchanged (d.state == active) u (record u { ep_index = 0 }) refl))
  where
    unchanged : (b : Bool) (u v : Work) → v.devices ≡ u.devices → Same u (if b then v else u)
    unchanged true u v e = ap ieees e
    unchanged false u v e = refl
