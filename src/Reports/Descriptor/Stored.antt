-- ===== src/Reports/Descriptor/Stored.antt =====
-- The clusters that the loop stores.
use dm_matter_zigbee_bridge.Prelude.{
  ℕ, suc, ◌+◌, true, false, Bool-cases, none, List, [], ◌∷◌, ◌++◌, append_assoc, ◌≡◌, refl, sym, ap,
  ◌∙◌, inl, inr, arith, length, length-append, get_elem?, get_elem?-here, set-here, leb,
  if◌then◌else◌, Run, done, fault, ◌>>=◌,
}
use dm_matter_zigbee_bridge.Devices.{Cluster}
use dm_matter_zigbee_bridge.Reports.Descriptor.{is_left_out, store_cluster, store_clusters}

-- The clusters that are not left out, in their order.
unfoldable pub kept : List ℕ → List ℕ
kept [] = []
kept (c ∷ cs) = let rest = kept cs in if is_left_out c then rest else c ∷ rest

-- The first entries get the identifiers; what else they hold stays.
unfoldable pub overwrite : List ℕ → List Cluster → List Cluster
overwrite [] es = es
overwrite (c ∷ cs) [] = []
overwrite (c ∷ cs) (e ∷ es) = record e { id = c } ∷ overwrite cs es

get_elem?-beyond : (before : List Cluster) → get_elem? (before ++ []) (length before) ≡ none
get_elem?-beyond [] = refl
get_elem?-beyond (b ∷ before) = get_elem?-beyond before

store_cluster-here :
    (c : ℕ) (before : List Cluster) (e : Cluster) (after : List Cluster)
    → store_cluster c (before ++ (e ∷ after), length before)
      ≡ done (before ++ (record e { id = c } ∷ after), suc (length before))
store_cluster-here c before e after =
    rw (store_cluster, get_elem?-here before e after)
      (rw (set-here before e (record e { id = c }) after))

-- What the loop makes of the entries that are still to be written.
abbrev pub written : List Cluster → List Cluster → List ℕ → Run (List Cluster × ℕ)
written before after cs =
    if leb (length cs) (length after)
    then done (before ++ overwrite cs after, length before + length cs)
    else fault

leb-suc : (a b : ℕ) → leb (suc a) (suc b) ≡ leb a b
leb-suc a b = ground arith

written-next :
    (before : List Cluster) (e : Cluster) (after : List Cluster) (c : ℕ) (cs : List ℕ)
    → written (before ++ (record e { id = c } ∷ [])) after cs ≡ written before (e ∷ after) (c ∷ cs)
unfolding overwrite
written-next before e after c cs = elim (Bool-cases (leb (length cs) (length after))) [
  | inl y ↦
      rw (leb-suc (length cs) (length after), y)
        (ap (λ s. done s)
          (ap (λ n. (before ++ (record e { id = c } ∷ []) ++ overwrite cs after, n)) counts
            ∙ ap (λ es. (es, length before + suc (length cs)))
                (append_assoc before (record e { id = c } ∷ []) (overwrite cs after))))
  | inr n ↦ rw (leb-suc (length cs) (length after), n)
]
  where
    counts :
        length (before ++ (record e { id = c } ∷ [])) + length cs ≡ length before + suc (length cs)
    counts = rw (length-append before (record e { id = c } ∷ [])) (omega arith)

store_clusters-appended :
    (cs : List ℕ) (before : List Cluster) (f : Cluster) (es : List Cluster)
    → store_clusters cs (before ++ (f ∷ es), suc (length before))
      ≡ store_clusters cs ((before ++ (f ∷ [])) ++ es, length (before ++ (f ∷ [])))
store_clusters-appended cs before f es =
    ap (λ xs. store_clusters cs (xs, suc (length before))) (sym (append_assoc before (f ∷ []) es))
    ∙ ap (λ n. store_clusters cs ((before ++ (f ∷ [])) ++ es, n)) counts
  where
    counts : suc (length before) ≡ length (before ++ (f ∷ []))
    counts = rw (length-append before (f ∷ [])) (omega arith)

store_clusters-step :
    (c : ℕ) (cs : List ℕ) (before es : List Cluster)
    → ((b a : List Cluster) → store_clusters cs (b ++ a, length b) ≡ written b a (kept cs))
    → (store_cluster c (before ++ es, length before) >>= λ t. store_clusters cs t)
      ≡ written before es (c ∷ kept cs)
store_clusters-step c cs before [] rest =
    rw (store_cluster, get_elem?-beyond before) (rw (written, no_room (length (kept cs))))
  where
    no_room : (n : ℕ) → leb (suc n) 0 ≡ false
    no_room n = ground arith
store_clusters-step c cs before (e ∷ es) rest =
    ap (λ r. r >>= λ t. store_clusters cs t) (store_cluster-here c before e es)
    ∙ store_clusters-appended cs before (record e { id = c }) es
    ∙ rest (before ++ (record e { id = c } ∷ [])) es
    ∙ written-next before e es c (kept cs)

store_clusters-from :
    (cs : List ℕ) (before after : List Cluster)
    → store_clusters cs (before ++ after, length before) ≡ written before after (kept cs)
unfolding store_clusters kept overwrite
store_clusters-from [] before after =
    rw (nothing (length after)) (ap (λ n. done (before ++ after, n)) (omega arith))
  where
    nothing : (n : ℕ) → leb 0 n ≡ true
    nothing n = ground arith
store_clusters-from (c ∷ cs) before after = elim (Bool-cases (is_left_out c)) [
  | inl y ↦ rw y (store_clusters-from cs before after)
  | inr n ↦ rw n (store_clusters-step c cs before after (λ b a. store_clusters-from cs b a))
]

-- The loop over the clusters of a simple descriptor: when the clusters that are not left out are
-- no more than the entries of the endpoint, they get into its first entries in their order and
-- are counted; when they are more, the loop writes behind the entries.
pub store_clusters-kept :
    (cs : List ℕ) (clusters : List Cluster)
    → store_clusters cs (clusters, 0) ≡ (
        if leb (length (kept cs)) (length clusters)
        then done (overwrite (kept cs) clusters, length (kept cs))
        else fault)
store_clusters-kept cs clusters =
    store_clusters-from cs [] clusters
    ∙ ap
        (λ n.
          if leb (length (kept cs)) (length clusters)
          then done (overwrite (kept cs) clusters, n)
          else fault)
        (omega arith)
