-- ===== src/Prelude/Lists.antt =====
-- Lists measured and cut by native numbers, under the library's names.
use Prim.Native.Nat.{ℕ, zero, suc, ◌+◌, min}
use mathlib.Core.Path.{◌≡◌, refl, subst}
use mathlib.Core.Logic.{◌⊎◌}
use mathlib.Core.List.{List, [], ◌∷◌, ◌++◌}
use mathlib.Core.Bool.{Bool, true, false}
use mathlib.Core.Option.{Option, none, some}
use native.Mathlib.Omega.{arith}
use dona.Prelude.Tests.{leb, if◌then◌else◌}
use dona.Prelude.Table.{select_where}

module _ {ℓ} {A : Type ℓ} where
  abbrev pub length : List A → ℕ
  length [] = 0
  length (x ∷ xs) = suc (length xs)

  abbrev pub get_elem? : List A → ℕ → Option A
  get_elem? [] i = none
  get_elem? (x ∷ xs) zero = some x
  get_elem? (x ∷ xs) (suc i) = get_elem? xs i

  abbrev pub take : ℕ → List A → List A
  take zero xs = []
  take (suc n) [] = []
  take (suc n) (x ∷ xs) = x ∷ take n xs

  pub length-append : (xs ys : List A) → length (xs ++ ys) ≡ length xs + length ys
  length-append [] ys = omega arith
  length-append (x ∷ xs) ys = omega (arith, length-append xs ys)

  pub length-take : (n : ℕ) (xs : List A) → length (take n xs) ≡ min n (length xs)
  length-take zero xs = omega arith
  length-take (suc n) [] = omega arith
  length-take (suc n) (x ∷ xs) = omega (arith, length-take n xs)

-- A predicate that holds of every entry.
abbrev pub All {ℓ κ} : {A : Type ℓ} → (A → Type κ) → List A → Type κ
All P [] = Unit
All P (x ∷ xs) = P x × All P xs

-- A predicate that holds of some entry.
abbrev pub Any {ℓ} : {A : Type ℓ} → (A → Type 0) → List A → Type 0
Any P [] = ⊥
Any P (x ∷ xs) = P x ⊎ Any P xs

-- A stable sort: each entry goes before the sorted entries that need not stand before it.
module _ {ℓ} {A : Type ℓ} (le : A → A → Bool) where
  unfoldable pub insert_sorted : A → List A → List A
  insert_sorted a [] = a ∷ []
  insert_sorted a (x ∷ xs) = if le a x then a ∷ x ∷ xs else x ∷ insert_sorted a xs

  unfoldable pub sort_with : List A → List A
  unfolding insert_sorted
  sort_with [] = []
  sort_with (x ∷ xs) = insert_sorted x (sort_with xs)

-- `ORDER BY` a number, of rows that are given oldest first.
unfoldable pub sort_by {ℓ} : {A : Type ℓ} → (A → ℕ) → List A → List A
unfolding sort_with
sort_by key = sort_with (λ a b. leb (key a) (key b))

-- What holds of every entry holds of every entry in order.
module _ {ℓ} {A : Type ℓ} (P : A → Type 0) (le : A → A → Bool) where
  All-insert_sorted : (a : A) (xs : List A) → P a → All P xs → All P (insert_sorted le a xs)
  unfolding insert_sorted
  All-insert_sorted a [] p ps = (p, tt)
  All-insert_sorted a (x ∷ xs) p (q, qs) = placed (le a x) (All-insert_sorted a xs p qs)
    where
      placed :
          (b : Bool)
          → All P (insert_sorted le a xs)
          → All P (if b then a ∷ x ∷ xs else x ∷ insert_sorted le a xs)
      placed true rest = (p, (q, qs))
      placed false rest = (q, rest)

  pub All-sort_with : (xs : List A) → All P xs → All P (sort_with le xs)
  unfolding sort_with
  All-sort_with [] ps = tt
  All-sort_with (x ∷ xs) (p, ps) = All-insert_sorted x (sort_with le xs) p (All-sort_with xs ps)

abbrev pub head {ℓ} : {A : Type ℓ} → List A → Option A
head [] = none
head (x ∷ xs) = some x

pub All-head :
    {A : Type 0} (P : A → Type 0) (xs : List A) (a : A) → All P xs → head xs ≡ some a → P a
All-head P [] a ps e = cc
All-head P (x ∷ xs) a (p, ps) e = let i : x ≡ a = cc in subst P i p

pub All-select_where :
    {A : Type 0} (p : A → Bool) (xs : List A) → All (λ x. p x ≡ true) (select_where p xs)
unfolding select_where
All-select_where p [] = tt
All-select_where p (x ∷ xs) = chosen (p x) refl (All-select_where p xs)
  where
    chosen :
        (b : Bool)
        → p x ≡ b
        → All (λ y. p y ≡ true) (select_where p xs)
        → All (λ y. p y ≡ true) (if b then x ∷ select_where p xs else select_where p xs)
    chosen true h rest = (h, rest)
    chosen false h rest = rest
