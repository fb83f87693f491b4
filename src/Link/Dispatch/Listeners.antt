-- ===== src/Link/Dispatch/Listeners.antt =====
-- Which callback a message type finds.
use dm_matter_zigbee_bridge.Prelude.{
  ℕ, Bool, true, false, Option, none, some, List, [], ◌∷◌, ◌≡◌, refl, arith, ◌==◌, if◌then◌else◌,
}
use dm_matter_zigbee_bridge.Link.Dispatch.{Listener, add_listener, find_listener}

-- What a search finds when the entries before the new one are searched first.
abbrev pub or_else {ℓ} : {A : Type ℓ} → Option A → Option A → Option A
or_else (some a) o = some a
or_else none o = o

or_else-none {ℓ} : {A : Type ℓ} (o : Option A) → o ≡ or_else o none
or_else-none none = refl
or_else-none (some a) = refl

-- Registering a callback by eSL_AddListener leaves every earlier registration in force: the first
-- callback registered for a type is the one found, and the new one is found for its type only if
-- there was none. Without memory nothing changes.
pub find_listener-add_listener {ℓ} :
    {C : Type ℓ} (memory : Bool) (type t : ℕ) (callback : C) (user : ℕ) (list : List (Listener C))
    → find_listener t (add_listener memory type callback user list).1
      ≡ or_else (find_listener t list) (
          if memory
          then if type == t
            then some (record { type = type; callback = callback; user = user })
            else none
          else none)
unfolding add_listener find_listener
find_listener-add_listener false type t callback user list = or_else-none (find_listener t list)
find_listener-add_listener true type t callback user [] = refl
find_listener-add_listener true type t callback user (e ∷ list) =
    ground (arith, find_listener-add_listener true type t callback user list)
