-- ===== src/Zcb/Init/Registered.antt =====
-- Which callback a message is offered with, for any list of registrations.
use dm_matter_zigbee_bridge.Prelude.{
  ℕ, true, Option, none, some, List, [], ◌∷◌, ◌≡◌, ◌≢◌, refl, ap, ◌∙◌, arith, ne→==, ◌==◌,
  if◌then◌else◌,
}
use dm_matter_zigbee_bridge.Link.{Message}
use dm_matter_zigbee_bridge.Link.Dispatch.{
  Listener, add_listener, find_listener, callback_data, offered,
}
use dm_matter_zigbee_bridge.Link.Dispatch.Listeners.{or_else, find_listener-add_listener}
use dm_matter_zigbee_bridge.Zcb.Init.{Handler, register}

-- The handler of the first registration for a type.
unfoldable pub first_for : ℕ → List (ℕ × Handler) → Option Handler
first_for t [] = none
first_for t ((type, handler) ∷ rest) = if type == t then some handler else first_for t rest

-- As a listener without user data.
abbrev pub listener_for : ℕ → Option Handler → Option (Listener Handler)
listener_for t none = none
listener_for t (some handler) = some (record { type = t; callback = handler; user = 0 })

one_more :
    (t type : ℕ) (handler : Handler) (rest : List (ℕ × Handler)) (o : Option (Listener Handler))
    → or_else
        (or_else o
          (if type == t then some (record { type = type; callback = handler; user = 0 }) else none))
        (listener_for t (first_for t rest))
      ≡ or_else o (listener_for t (first_for t ((type, handler) ∷ rest)))
unfolding first_for
one_more t type handler rest (some l) = refl
one_more t type handler rest none = ground arith

find_listener-register :
    (t : ℕ) (rs : List (ℕ × Handler)) (list : List (Listener Handler))
    → find_listener t (register true rs list)
      ≡ or_else (find_listener t list) (listener_for t (first_for t rs))
unfolding register first_for
find_listener-register t [] list = nothing_more (find_listener t list)
  where
    nothing_more : (o : Option (Listener Handler)) → o ≡ or_else o none
    nothing_more none = refl
    nothing_more (some l) = refl
find_listener-register t ((type, handler) ∷ rest) list =
    find_listener-register t rest (add_listener true type handler 0 list).1
    ∙ ap (λ o. or_else o (listener_for t (first_for t rest)))
        (find_listener-add_listener true type t handler 0 list)
    ∙ one_more t type handler rest (find_listener t list)

-- For any list of registrations that are made in its order by eSL_AddListener with memory for
-- each, as eZCB_Init makes its own: a message whose type is registered, and is none of the three
-- node lists 0x8003 to 0x8005, is offered by serialReadTask to the callback queue with the
-- handler of the first registration for its type, and without user data.
pub offered-register :
    (m : Message) (rs : List (ℕ × Handler)) (handler : Handler)
    → first_for m.type rs ≡ some handler
    → m.type ≢ 0x8003
    → m.type ≢ 0x8004
    → m.type ≢ 0x8005
    → offered m (register true rs []) ≡ some (record { message = m; callback = handler; user = 0 })
unfolding offered find_listener
offered-register m rs handler first a b c =
    rw (ne→== m.type 0x8003 a, ne→== m.type 0x8004 b, ne→== m.type 0x8005 c)
      (ap (callback_data m) (find_listener-register m.type rs [] ∙ ap (listener_for m.type) first))
