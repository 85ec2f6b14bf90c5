-- ===== src/Scheduler/Cursor.antt =====
-- The cursor of a page of dispatcher/src/scheduler/calculator.ts: the last instant of a page that
-- was cut.
use dona.Prelude.{
  ℕ, suc, Bool, true, false, List, [], ◌∷◌, Option, none, some, is_some, ◌≡◌, refl, subst, inl, inr,
  Bool-cases, ltb, lt→ltb, ◌≤◌, ◌<◌, arith, All, length, take, if◌then◌else◌,
}
use dona.Scheduler.Calculator.{Occurrence, last_of, last_at}
use dona.Scheduler.Resolution.{some_injective}
use dona.Scheduler.Order.{IsRising, last_of-All, last_of-IsRising}

-- The cursor that a page of a list gets.
abbrev pub cursor_of : ℕ → List Occurrence → Option ℕ
cursor_of limit us = if ltb limit (length us) then last_at (take limit us) else none

pub cursor_cut :
    (n : ℕ) (us : List Occurrence) → ltb (suc n) (length us) ≡ is_some (cursor_of (suc n) us)
cursor_cut n [] = ground arith
cursor_cut n (a ∷ us) = elim (Bool-cases (ltb (suc n) (length (a ∷ us)))) [
  | inl e ↦ rw e refl
  | inr e ↦ rw e refl
]

pub cursor_before :
    (n u : ℕ) (us : List Occurrence)
    → suc n < length us
    → All (λ a. a.occurrence_at < u) (take (suc n) us)
    → (c : ℕ) × (cursor_of (suc n) us ≡ some c) × (c < u)
cursor_before n u [] l h = absurd (omega arith)
cursor_before n u (a ∷ us) l h = (
  last_of a (take n us),
  rw (lt→ltb (suc n) (length (a ∷ us)) l) refl,
  last_of-All (λ c. c < u) a (take n us) h.0 h.1,
)

pub cursor_latest :
    (n c : ℕ) (us : List Occurrence)
    → IsRising (take (suc n) us)
    → cursor_of (suc n) us ≡ some c
    → All (λ o. o.occurrence_at ≤ c) (take (suc n) us)
cursor_latest n c [] r e = tt
cursor_latest n c (a ∷ us) r e = by_cut (ltb (suc n) (length (a ∷ us))) e
  where
    by_cut :
        (b : Bool)
        → (if b then some (last_of a (take n us)) else none) ≡ some c
        → All (λ o. o.occurrence_at ≤ c) (a ∷ take n us)
    by_cut true h =
        subst (λ d. All (λ o. o.occurrence_at ≤ d) (a ∷ take n us)) (some_injective h)
          (last_of-IsRising a (take n us) r)
    by_cut false h = cc
