-- ===== src/Prelude/Table.antt =====
-- A table of a database as the list of its rows, oldest first, with the statements that the
-- programs send to it: SELECT of the first row, UPDATE … WHERE with its count of changes, DELETE.
use Prim.Native.Nat.{ℕ, suc}
use mathlib.Core.Path.{◌≡◌, refl}
use mathlib.Core.Bool.{Bool, true}
use mathlib.Core.Option
use mathlib.Core.Option.{Option, none, some}
use mathlib.Core.List.{List, [], ◌∷◌, ◌++◌}
use native.Mathlib.Omega.{arith}
use dona.Prelude.Tests.{if◌then◌else◌}

module _ {ℓ} {A : Type ℓ} where
  unfoldable pub find? : (A → Bool) → List A → Option A
  find? p [] = none
  find? p (r ∷ rs) = let rest = find? p rs in if p r then some r else rest

  unfoldable pub update_where : (A → Bool) → (A → A) → List A → List A
  update_where p f [] = []
  update_where p f (r ∷ rs) = (if p r then f r else r) ∷ update_where p f rs

  unfoldable pub count_where : (A → Bool) → List A → ℕ
  count_where p [] = 0
  count_where p (r ∷ rs) = let rest = count_where p rs in if p r then suc rest else rest

  unfoldable pub delete_where : (A → Bool) → List A → List A
  delete_where p [] = []
  delete_where p (r ∷ rs) = let rest = delete_where p rs in if p r then rest else r ∷ rest

  unfoldable pub select_where : (A → Bool) → List A → List A
  select_where p [] = []
  select_where p (r ∷ rs) = let rest = select_where p rs in if p r then r ∷ rest else rest

module _ {ℓ} {A : Type ℓ} where
  pub find?-holds : (p : A → Bool) (rs : List A) (r : A) → find? p rs ≡ some r → p r ≡ true
  unfolding find?
  find?-holds p [] r e = cc
  find?-holds p (x ∷ rs) r e = ground (arith, find?-holds p rs r)

  -- An update that leaves the test `q` as it is at the rows that it changes.
  pub find?-update_where :
      (q p : A → Bool) (f : A → A) (rs : List A)
      → ((r : A) → p r ≡ true → q (f r) ≡ q r)
      → find? q (update_where p f rs) ≡ Option.map (λ r. if p r then f r else r) (find? q rs)
  unfolding find? update_where
  find?-update_where q p f [] h = refl
  find?-update_where q p f (r ∷ rs) h = ground (arith, h r, find?-update_where q p f rs h)

  pub find?-append :
      (q : A → Bool) (rs ts : List A) (r : A) → find? q rs ≡ some r → find? q (rs ++ ts) ≡ some r
  unfolding find?
  find?-append q [] ts r e = cc
  find?-append q (x ∷ rs) ts r e = ground (arith, find?-append q rs ts r)

  -- An UPDATE that changes no row changes nothing.
  pub update_where-none :
      (p : A → Bool) (f : A → A) (rs : List A) → count_where p rs ≡ 0 → update_where p f rs ≡ rs
  unfolding update_where count_where
  update_where-none p f [] h = refl
  update_where-none p f (r ∷ rs) h = ground (arith, update_where-none p f rs)
