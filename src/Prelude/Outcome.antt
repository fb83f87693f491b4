-- ===== src/Prelude/Outcome.antt =====
-- What running a piece of C code can come to.

-- `fault` is an access outside its array, which C leaves undefined, and `spin` says that the
-- fuel of a loop ran out.
pub data Run {ℓ} (A : Type ℓ) : Type ℓ where
  done : A → Run A
  fault spin : Run A

infixl 5 ◌>>=◌
abbrev pub ◌>>=◌ {ℓ κ} : {A : Type ℓ} {B : Type κ} → Run A → (A → Run B) → Run B
done a >>= f = f a
fault >>= f = fault
spin >>= f = spin
