-- ===== src/Qualify/Phases/Outcome.antt =====
-- Predicates on what a step comes to.
use dm_matter_zigbee_bridge.Prelude.{
  Bool, true, false, if◌then◌else◌, Run, done, fault, spin, ◌>>=◌,
}

-- What holds of each result that comes back.
abbrev pub Then {ℓ} : {A : Type ℓ} → (A → Type 0) → Run A → Type 0
Then P (done a) = P a
Then P fault = Unit {0}
Then P spin = Unit {0}

pub Then->>= {ℓ κ} :
    {A : Type ℓ} {B : Type κ} (P : A → Type 0) (Q : B → Type 0) (m : Run A) (f : A → Run B)
    → Then P m
    → ((a : A) → P a → Then Q (f a))
    → Then Q (m >>= f)
Then->>= P Q (done a) f h k = k a h
Then->>= P Q fault f h k = tt
Then->>= P Q spin f h k = tt

pub Then-if {ℓ} :
    {A : Type ℓ} (P : A → Type 0) (b : Bool) (x y : Run A)
    → Then P x
    → Then P y
    → Then P (if b then x else y)
Then-if P true x y p q = p
Then-if P false x y p q = q

-- Nothing is known of the result.
abbrev pub Any {ℓ} : {A : Type ℓ} → A → Type 0
Any a = Unit {0}

pub Then-Any {ℓ} : {A : Type ℓ} (m : Run A) → Then Any m
Then-Any (done a) = tt
Then-Any fault = tt
Then-Any spin = tt
