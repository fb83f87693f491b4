-- ===== src/Matter/Slots/Removed.antt =====
-- What `RemoveDevice` does with an object that it deletes at one of its first tests.
use dm_matter_zigbee_bridge.Prelude.{
  ℕ, Bool, true, false, Bool-cases, ◌||◌, none, some, set, ◌≡◌, refl, inl, inr, get_elem?,
  get_elem?-bound, get_elem?-set_self, done, fault,
}
use dm_matter_zigbee_bridge.Reports.Descriptor.{Supported}
use dm_matter_zigbee_bridge.Matter.{Object, Manager, object_at}
use dm_matter_zigbee_bridge.Matter.Slots.{clear_slot, delete_if, remove_device}

module _ {ℓ} {F : Type ℓ} where
  -- The object is there, or was deleted.
  abbrev pub IsLive : ℕ → Object → Manager F → Type 0
  IsLive dev o m = get_elem? m.heap dev ≡ some (some o)

  abbrev pub IsDeleted : ℕ → Manager F → Type 0
  IsDeleted dev m = get_elem? m.heap dev ≡ some none

  abbrev pub deleted : ℕ → Manager F → Manager F
  deleted dev m = record m { heap = set m.heap dev none }

  deleted-IsDeleted :
      (dev : ℕ) (o : Object) (m : Manager F) → IsLive dev o m → IsDeleted dev (deleted dev m)
  deleted-IsDeleted dev o m h =
      get_elem?-set_self m.heap dev none (get_elem?-bound m.heap dev (some o) h)

  delete_if-yes :
      (has : Supported → Bool) (dev : ℕ) (o : Object) (m : Manager F)
      → IsLive dev o m
      → has o.supported ≡ true
      → delete_if has dev m ≡ done (deleted dev m)
  delete_if-yes has dev o m h y = rw (delete_if, object_at, h) (rw y refl)

  delete_if-no :
      (has : Supported → Bool) (dev : ℕ) (o : Object) (m : Manager F)
      → IsLive dev o m
      → has o.supported ≡ false
      → delete_if has dev m ≡ done m
  delete_if-no has dev o m h n = rw (delete_if, object_at, h) (rw n refl)

  delete_if-deleted :
      (has : Supported → Bool) (dev : ℕ) (m : Manager F)
      → IsDeleted dev m
      → delete_if has dev m ≡ fault
  delete_if-deleted has dev m h = rw (delete_if, object_at, h) refl

  -- RemoveDevice of a device with the on/off or the level control cluster uses the device after
  -- it has deleted it.
  pub remove_device-freed :
      (dev : ℕ) (o : Object) (m : Manager F)
      → IsLive dev o m
      → (o.supported.on_off || o.supported.dimmable) ≡ true
      → remove_device dev m ≡ fault
  unfolding remove_device
  remove_device-freed dev o m h has = elim (Bool-cases o.supported.on_off) [
    | inl y ↦
        rw (delete_if-yes _ dev o m' h y) (rw (delete_if-deleted _ dev (deleted dev m') gone) refl)
    | inr n ↦ rw (delete_if-no _ dev o m' h n) (
        rw (delete_if-yes _ dev o m' h (rw n at has))
          (rw (delete_if-deleted _ dev (deleted dev m') gone) refl))
  ]
    where
      m' : Manager F
      m' = record m { slots = clear_slot dev m.slots }

      gone : IsDeleted dev (deleted dev m')
      gone = deleted-IsDeleted dev o m' h
