-- ===== src/Exec.antt =====
-- Methods that change a store and may throw. A throw leaves what was written before it, unless a
-- transaction around it rolls the store back, as `db.transaction` of better-sqlite3 does.
pub mod Leads
pub mod Ends
use dona.Prelude.{Bool, true, false}

pub data Result {ℓ} (E A : Type ℓ) : Type ℓ where
  ok : A → Result E A
  err : E → Result E A

-- A chain of checks that throw and change nothing.
abbrev pub and_then {ℓ} : {E A B : Type ℓ} → Result E A → (A → Result E B) → Result E B
and_then (ok a) f = f a
and_then (err e) f = err e

abbrev pub Exec {ℓ} : Type ℓ → Type ℓ → Type ℓ → Type ℓ
Exec E S A = S → Result E A × S

module _ {ℓ} {E S A : Type ℓ} where
  unfoldable pub pure : A → Exec E S A
  pure a s = (ok a, s)

  unfoldable pub raise : E → Exec E S A
  raise e s = (err e, s)

  unfoldable pub gets : (S → A) → Exec E S A
  gets f s = (ok (f s), s)

  abbrev rollback : S → Result E A × S → Result E A × S
  rollback s (ok a, s') = (ok a, s')
  rollback s (err e, s') = (err e, s)

  unfoldable pub transaction : Exec E S A → Exec E S A
  transaction m s = rollback s (m s)

  abbrev pub handle : Result E A → (E → Exec E S A) → Exec E S A
  handle (ok a) h s = (ok a, s)
  handle (err e) h s = h e s

  -- `try … catch`: what was written before the throw stays.
  unfoldable pub catching : Exec E S A → (E → Exec E S A) → Exec E S A
  catching m h s = let (r, s') = m s in handle r h s'

module _ {ℓ} {E S A B : Type ℓ} where
  abbrev pub continue : Result E A → (A → Exec E S B) → Exec E S B
  continue (ok a) f s = f a s
  continue (err e) f s = (err e, s)

  infixl 10 ◌>>=◌
  unfoldable pub ◌>>=◌ : Exec E S A → (A → Exec E S B) → Exec E S B
  unfolding pure raise gets
  ◌>>=◌ m f s = let (r, s') = m s in continue r f s'

module _ {E S B : Type 0} where
  infixl 10 ◌>>◌
  abbrev pub ◌>>◌ : Exec E S (Unit {0}) → Exec E S B → Exec E S B
  m >> n = m >>= λ _. n

module _ {E S : Type 0} where
  unfoldable pub modify : (S → S) → Exec E S (Unit {0})
  modify f s = (ok tt, f s)

  -- `if (!test) throw e`.
  unfoldable pub require : Bool → E → Exec E S (Unit {0})
  require true e s = (ok tt, s)
  require false e s = (err e, s)
