-- ===== src/Scheduler/Order.antt =====
-- The order of occurrences: what the sort, the removal of equal instants and the cut to a page of
-- dispatcher/src/scheduler/calculator.ts keep.
use dona.Prelude.{
  ℕ, zero, suc, Bool, true, false, List, [], ◌∷◌, ◌≡◌, subst, ◌∙◌, ◌⊎◌, inl, inr, Bool-cases, leb,
  leb→le, ◌==◌, ◌≤◌, ◌<◌, arith, All, Any, length, take, sort_by, sort_with, insert_sorted,
}
use dona.Scheduler.Calculator.{Occurrence, unique_after, unique, last_of}

-- No entry is before the one it follows, or each is after it.
abbrev pub IsSorted : List Occurrence → Type 0
IsSorted [] = Unit
IsSorted (a ∷ os) = All (λ b. a.occurrence_at ≤ b.occurrence_at) os × IsSorted os

abbrev pub IsRising : List Occurrence → Type 0
IsRising [] = Unit
IsRising (a ∷ os) = All (λ b. a.occurrence_at < b.occurrence_at) os × IsRising os

abbrev pub Has : ℕ → List Occurrence → Type 0
Has u os = Any (λ a. a.occurrence_at ≡ u) os

abbrev le : Occurrence → Occurrence → Bool
le a b = leb a.occurrence_at b.occurrence_at

pub All-map :
    {P Q : Occurrence → Type 0}
    → ((a : Occurrence) → P a → Q a)
    → (os : List Occurrence) → All P os
    → All Q os
All-map f [] h = tt
All-map f (a ∷ os) h = (f a h.0, All-map f os h.1)

module _ (P : Occurrence → Type 0) where
  All-insert_sorted :
      (a : Occurrence) (os : List Occurrence) → P a → All P os → All P (insert_sorted le a os)
  unfolding insert_sorted
  All-insert_sorted a [] p h = (p, tt)
  All-insert_sorted a (b ∷ os) p h = elim (Bool-cases (le a b)) [
    | inl e ↦ rw e (p, h)
    | inr e ↦ rw e (h.0, All-insert_sorted a os p h.1)
  ]

  pub All-sort_by : (os : List Occurrence) → All P os → All P (sort_by Occurrence.occurrence_at os)
  unfolding sort_by sort_with
  All-sort_by [] h = tt
  All-sort_by (a ∷ os) h = All-insert_sorted a (sort_with le os) h.0 (All-sort_by os h.1)

  Any-insert_sorted :
      (a : Occurrence) (os : List Occurrence) → P a ⊎ Any P os → Any P (insert_sorted le a os)
  unfolding insert_sorted
  Any-insert_sorted a [] h = h
  Any-insert_sorted a (b ∷ os) h = elim (Bool-cases (le a b)) [
    | inl e ↦ rw e h
    | inr e ↦ rw e (after_head (Any-insert_sorted a os) h)
  ]
    where
      after_head :
          (P a ⊎ Any P os → Any P (insert_sorted le a os))
          → P a ⊎ (P b ⊎ Any P os)
          → P b ⊎ Any P (insert_sorted le a os)
      after_head f (inl p) = inr (f (inl p))
      after_head f (inr (inl p)) = inl p
      after_head f (inr (inr p)) = inr (f (inr p))

  pub Any-sort_by : (os : List Occurrence) → Any P os → Any P (sort_by Occurrence.occurrence_at os)
  unfolding sort_by sort_with
  Any-sort_by [] h = h
  Any-sort_by (a ∷ os) (inl p) = Any-insert_sorted a (sort_with le os) (inl p)
  Any-sort_by (a ∷ os) (inr h) = Any-insert_sorted a (sort_with le os) (inr (Any-sort_by os h))

  All-unique_after : (a : Occurrence) (os : List Occurrence) → All P os → All P (unique_after a os)
  unfolding unique_after
  All-unique_after a [] h = tt
  All-unique_after a (b ∷ os) h = elim (Bool-cases (a.occurrence_at == b.occurrence_at)) [
    | inl e ↦ rw e (All-unique_after b os h.1)
    | inr e ↦ rw e (h.0, All-unique_after b os h.1)
  ]

  pub All-unique : (os : List Occurrence) → All P os → All P (unique os)
  unfolding unique
  All-unique [] h = tt
  All-unique (a ∷ os) h = (h.0, All-unique_after a os h.1)

  pub All-take : (n : ℕ) (os : List Occurrence) → All P os → All P (take n os)
  All-take zero os h = tt
  All-take (suc n) [] h = tt
  All-take (suc n) (a ∷ os) h = (h.0, All-take n os h.1)

insert_sorted-IsSorted :
    (a : Occurrence) (os : List Occurrence) → IsSorted os → IsSorted (insert_sorted le a os)
unfolding insert_sorted
insert_sorted-IsSorted a [] h = (tt, tt)
insert_sorted-IsSorted a (b ∷ os) h = elim (Bool-cases (le a b)) [
  | inl e ↦ rw e (
    (
      leb→le a.occurrence_at b.occurrence_at e,
      All-map (λ c k. omega (arith, k, leb→le a.occurrence_at b.occurrence_at e)) os h.0,
    ),
    h,
  )
  | inr e ↦ rw e (
    All-insert_sorted (λ c. b.occurrence_at ≤ c.occurrence_at) a os
        (not_leb a.occurrence_at b.occurrence_at e) h.0,
    insert_sorted-IsSorted a os h.1,
  )
]
  where
    not_leb : (m n : ℕ) → leb m n ≡ false → n ≤ m
    not_leb m n e = ground arith

pub sort_by-IsSorted : (os : List Occurrence) → IsSorted (sort_by Occurrence.occurrence_at os)
unfolding sort_by sort_with
sort_by-IsSorted [] = tt
sort_by-IsSorted (a ∷ os) = insert_sorted-IsSorted a (sort_with le os) (sort_by-IsSorted os)

eq→≡ : (m n : ℕ) → (m == n) ≡ true → m ≡ n
eq→≡ m n e = ground arith

-- After a sorted list has lost its equal neighbours, each entry is after the one before.
unique_after-IsRising :
    (a : Occurrence) (os : List Occurrence) → IsSorted (a ∷ os) → IsRising (a ∷ unique_after a os)
unfolding unique_after
unique_after-IsRising a [] h = (tt, tt)
unique_after-IsRising a (b ∷ os) h = elim (Bool-cases (a.occurrence_at == b.occurrence_at)) [
  | inl e ↦
      let r = unique_after-IsRising b os h.1 in
      rw e (
        All-map (λ c k. omega (arith, k, eq→≡ a.occurrence_at b.occurrence_at e))
            (unique_after b os) r.0,
        r.1,
      )
  | inr e ↦
      let r = unique_after-IsRising b os h.1 in
      let l = before_it a.occurrence_at b.occurrence_at h.0.0 e in
      rw e ((l, All-map (λ c k. omega (arith, k, l)) (unique_after b os) r.0), r)
]
  where
    before_it : (m n : ℕ) → m ≤ n → (m == n) ≡ false → m < n
    before_it m n le e = ground arith

pub unique-IsRising : (os : List Occurrence) → IsSorted os → IsRising (unique os)
unfolding unique
unique-IsRising [] h = tt
unique-IsRising (a ∷ os) h = unique_after-IsRising a os h

Has-unique_after :
    (u : ℕ) (a : Occurrence) (os : List Occurrence) → Has u (a ∷ os) → Has u (a ∷ unique_after a os)
unfolding unique_after
Has-unique_after u a os (inl e) = inl e
Has-unique_after u a [] (inr h) = absurd h
Has-unique_after u a (b ∷ os) (inr h) = elim (Bool-cases (a.occurrence_at == b.occurrence_at)) [
  | inl e ↦ rw e (same (eq→≡ a.occurrence_at b.occurrence_at e) (Has-unique_after u b os h))
  | inr e ↦ rw e (inr (Has-unique_after u b os h))
]
  where
    same :
        a.occurrence_at ≡ b.occurrence_at
        → Has u (b ∷ unique_after b os)
        → Has u (a ∷ unique_after b os)
    same e (inl k) = inl (e ∙ k)
    same e (inr k) = inr k

pub Has-unique : (u : ℕ) (os : List Occurrence) → Has u os → Has u (unique os)
unfolding unique
Has-unique u [] h = h
Has-unique u (a ∷ os) h = Has-unique_after u a os h

pub take-IsRising : (n : ℕ) (os : List Occurrence) → IsRising os → IsRising (take n os)
take-IsRising zero os h = tt
take-IsRising (suc n) [] h = tt
take-IsRising (suc n) (a ∷ os) h =
    (All-take (λ b. a.occurrence_at < b.occurrence_at) n os h.0, take-IsRising n os h.1)

All-Has :
    {P : Occurrence → Type 0} (Q : ℕ → Type 0)
    → ((a : Occurrence) → P a → Q a.occurrence_at)
    → (u : ℕ) (os : List Occurrence) → All P os
    → Has u os
    → Q u
All-Has Q f u [] h k = absurd k
All-Has Q f u (a ∷ os) h (inl e) = subst Q e (f a h.0)
All-Has Q f u (a ∷ os) h (inr k) = All-Has Q f u os h.1 k

-- An instant of a rising list is on the page, or after all of a page that was cut.
pub Has-take :
    (u n : ℕ) (os : List Occurrence)
    → IsRising os
    → Has u os
    → Has u (take n os) ⊎ ((n < length os) × All (λ a. a.occurrence_at < u) (take n os))
Has-take u n [] r h = absurd h
Has-take u zero (a ∷ os) r h = inr (omega arith, tt)
Has-take u (suc n) (a ∷ os) r (inl e) = inl (inl e)
Has-take u (suc n) (a ∷ os) r (inr h) = elim (Has-take u n os r.1 h) [
  | inl k ↦ inl (inr k)
  | inr k ↦
      inr (omega (arith, k.0), (All-Has (λ v. a.occurrence_at < v) (λ b l. l) u os r.0 h, k.1))
]

pub last_of-All :
    (P : ℕ → Type 0) (a : Occurrence) (os : List Occurrence)
    → P a.occurrence_at
    → All (λ b. P b.occurrence_at) os
    → P (last_of a os)
last_of-All P a [] p h = p
last_of-All P a (b ∷ os) p h = last_of-All P b os h.0 h.1

-- The last instant of a rising list is the latest.
pub last_of-IsRising :
    (a : Occurrence) (os : List Occurrence)
    → IsRising (a ∷ os)
    → All (λ b. b.occurrence_at ≤ last_of a os) (a ∷ os)
last_of-IsRising a [] r = (omega arith, tt)
last_of-IsRising a (b ∷ os) r =
    let rest = last_of-IsRising b os r.1 in (omega (arith, r.0.0, rest.0), rest)
