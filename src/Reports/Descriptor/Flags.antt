-- ===== src/Reports/Descriptor/Flags.antt =====
-- The bits of `uSupportedClusters` after a simple descriptor.
use dm_matter_zigbee_bridge.Prelude.{
  ℕ, ◌≤◌, Bool, true, false, ◌||◌, List, [], ◌∷◌, ◌≡◌, refl, subst, ap, ◌∙◌, arith, length, take,
  leb, ◌==◌, done,
}
use dm_matter_zigbee_bridge.Devices.{Cluster}
use dm_matter_zigbee_bridge.Reports.Descriptor.{
  Supported, cleared, clusters_of, is_readable, mark, classify, describe,
}
use dm_matter_zigbee_bridge.Reports.Descriptor.Stored.{kept, overwrite, store_clusters-kept}

abbrev pub contains : ℕ → List ℕ → Bool
contains c [] = false
contains c (x ∷ xs) = x == c || contains c xs

-- The bits are those of before, and those of the clusters in the list.
abbrev pub Marked : List ℕ → Supported → Supported → Type 0
Marked cs s u =
    (u.on_off ≡ (s.on_off || contains 6 cs))
    × (u.dimmable ≡ (s.dimmable || contains 8 cs))
    × (u.color ≡ (s.color || contains 0x0300 cs))
    × (u.illuminance ≡ (s.illuminance || contains 0x0400 cs))
    × (u.temperature ≡ (s.temperature || contains 0x0402 cs))
    × (u.occupancy ≡ (s.occupancy || contains 0x0406 cs))

marks : (c : ℕ) (s : Supported) (type : ℕ) → Marked (c ∷ []) s (mark c (s, type)).0
marks c s type =
    (ground arith, ground arith, ground arith, ground arith, ground arith, ground arith)

or_later : (a b c u v : Bool) → v ≡ (a || (b || false)) → u ≡ (v || c) → u ≡ (a || (b || c))
or_later true b c u v e f = f ∙ ap (λ x. x || c) e
or_later false true c u v e f = f ∙ ap (λ x. x || c) e
or_later false false c u v e f = f ∙ ap (λ x. x || c) e

Marked-later :
    (c : ℕ) (cs : List ℕ) (s v u : Supported)
    → Marked (c ∷ []) s v
    → Marked cs v u
    → Marked (c ∷ cs) s u
Marked-later c cs s v u (a1, a2, a3, a4, a5, a6) (b1, b2, b3, b4, b5, b6) = (
  or_later s.on_off (c == 6) (contains 6 cs) u.on_off v.on_off a1 b1,
  or_later s.dimmable (c == 8) (contains 8 cs) u.dimmable v.dimmable a2 b2,
  or_later s.color (c == 0x0300) (contains 0x0300 cs) u.color v.color a3 b3,
  or_later s.illuminance (c == 0x0400) (contains 0x0400 cs) u.illuminance v.illuminance a4 b4,
  or_later s.temperature (c == 0x0402) (contains 0x0402 cs) u.temperature v.temperature a5 b5,
  or_later s.occupancy (c == 0x0406) (contains 0x0406 cs) u.occupancy v.occupancy a6 b6,
)

keeps : (b : Bool) → b ≡ (b || false)
keeps true = refl
keeps false = refl

abbrev pub ids : List Cluster → List ℕ
ids [] = []
ids (e ∷ es) = e.id ∷ ids es

classify-Marked :
    (es : List Cluster) (s : Supported) (type : ℕ) → Marked (ids es) s (classify es (s, type)).0
unfolding classify
classify-Marked [] s type = (
  keeps s.on_off,
  keeps s.dimmable,
  keeps s.color,
  keeps s.illuminance,
  keeps s.temperature,
  keeps s.occupancy,
)
classify-Marked (e ∷ es) s type =
    let v = mark e.id (s, type) in
    Marked-later e.id (ids es) s v.0 (classify es v).0 (marks e.id s type)
      (classify-Marked es v.0 v.1)

ids-overwrite :
    (cs : List ℕ) (es : List Cluster)
    → length cs ≤ length es
    → ids (take (length cs) (overwrite cs es)) ≡ cs
unfolding overwrite
ids-overwrite [] es h = refl
ids-overwrite (c ∷ cs) [] h = absurd (omega arith)
ids-overwrite (c ∷ cs) (e ∷ es) h = ap (◌∷◌ c) (ids-overwrite cs es (omega arith))

-- ZCB_HandleSimpleDescriptorResponse on a message that has all the clusters it counts, at most
-- 15, and whose clusters, less those that are left out, fit into the endpoint: the first entries
-- of the endpoint get these clusters in their order, the count is their number, and each bit of
-- uSupportedClusters is set just if its cluster is among them.
pub describe-Marked :
    (m : List ℕ) (clusters : List Cluster) (type : ℕ)
    → is_readable m ≡ true
    → length (kept (clusters_of m)) ≤ length clusters
    → (u : Supported) × (type' : ℕ) × (describe m clusters type
        ≡ done (
          (overwrite (kept (clusters_of m)) clusters, length (kept (clusters_of m))),
          (u, type'),
        ))
      × Marked (kept (clusters_of m)) cleared u
unfolding describe
describe-Marked m clusters type readable h =
    let cs = kept (clusters_of m) in
    let es = take (length cs) (overwrite cs clusters) in
    let s = classify es (cleared, type) in
    (
      s.0,
      s.1,
      rw (
        readable,
        store_clusters-kept (clusters_of m) clusters,
        fits (length cs) (length clusters) h,
      ),
      subst (λ xs. Marked xs cleared s.0) (ids-overwrite cs clusters h)
          (classify-Marked es cleared type),
    )
  where
    fits : (a b : ℕ) → a ≤ b → leb a b ≡ true
    fits a b p = ground arith
