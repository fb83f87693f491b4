-- ===== src/Devices/Attributes/Erases.antt =====
-- What the erasure of a device does to the attributes.
use dm_matter_zigbee_bridge.Prelude.{
  ℕ, suc, Bool-cases, List, [], ◌∷◌, ◌≡◌, ◌≢◌, refl, sym, ◌⊎◌, inl, inr, All, length, replicate,
  zero, ◌==◌, ne→==, ==→eq, ==→ne, done, fault,
}
use dm_matter_zigbee_bridge.Devices.{Attribute, no_attribute}
use dm_matter_zigbee_bridge.Devices.Attributes.{erase_later, erase_attributes}

abbrev pub NoneOf : ℕ → List Attribute → Type 0
NoneOf id rows = All (λ (a : Attribute). a.node_id ≢ id) rows

erase_later-blank :
    (id count : ℕ)
    → id ≢ 0
    → erase_later id (replicate count no_attribute) ≡ done (replicate count no_attribute)
unfolding erase_later
erase_later-blank id zero ne = refl
erase_later-blank id (suc count) ne =
    rw (ne→== 0 id (λ q. ne (sym q)), erase_later-blank id count ne)

erase_later-cases :
    (id : ℕ) (rows : List Attribute)
    → (NoneOf id rows × (erase_later id rows ≡ done rows)) ⊎ (erase_later id rows ≡ fault)
unfolding erase_later
erase_later-cases id [] = inl (tt, refl)
erase_later-cases id (a ∷ rows) = elim (Bool-cases (a.node_id == id)) [
  | inl y ↦ inr (rw y)
  | inr y ↦ elim (erase_later-cases id rows) [
    | inl (other, runs) ↦ inl ((==→ne a.node_id id y, other), rw (y, runs))
    | inr runs ↦ inr (rw (y, runs))
  ]
]

-- bZDM_EraseAttributeInfoByNodeId never erases just the attributes of one node, given by an
-- identifier that is not 0: if the first entry of the table is an attribute of the node, all
-- attributes of all nodes are cleared; if only a later one is, the memset runs over the end of
-- the table; if none is, the table stays.
pub erase_attributes-cases :
    (id : ℕ) (a : Attribute) (rows : List Attribute)
    → id ≢ 0
    → ((a.node_id ≡ id)
        × (erase_attributes id (a ∷ rows) ≡ done (replicate (suc (length rows)) no_attribute)))
      ⊎ (((a.node_id ≢ id) × (erase_attributes id (a ∷ rows) ≡ fault))
          ⊎ (NoneOf id (a ∷ rows) × (erase_attributes id (a ∷ rows) ≡ done (a ∷ rows))))
unfolding erase_attributes
erase_attributes-cases id a rows ne = elim (Bool-cases (a.node_id == id)) [
  | inl y ↦ inl (==→eq a.node_id id y, rw (y, erase_later-blank id (length rows) ne))
  | inr y ↦ elim (erase_later-cases id rows) [
    | inl (other, runs) ↦ inr (inr ((==→ne a.node_id id y, other), rw (y, runs)))
    | inr runs ↦ inr (inl (==→ne a.node_id id y, rw (y, runs)))
  ]
]
