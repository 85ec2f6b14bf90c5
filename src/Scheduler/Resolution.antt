-- ===== src/Scheduler/Resolution.antt =====
-- The instant of a wall-clock time: `resolveLocal` of dispatcher/src/scheduler/timezone.ts.
use dona.Prelude.{
  ℕ, List, [], ◌∷◌, Option, none, some, ◌≡◌, refl, sym, ap, subst, ◌∙◌, ◌⊎◌, inl, inr, true, false,
  Bool-cases, min, ◌≤◌, arith, Any, is_yes, ltb,
}
use dona.Exec.{Result, ok, err, and_then}
use dona.Scheduler.Calendar.{ScheduleError, format_utc}
use dona.Scheduler.Timezone.{
  ℤ, ℤ_discrete, Zone, shift, offset_at, has_offset, sooner, earliest, unless, without, distinct,
  resolved, resolve_wall,
}

-- The instant reads as the wall-clock time, by an offset of the list that is the zone's then.
abbrev pub IsReading : Zone → ℕ → ℕ → ℤ → Type 0
IsReading zone wall u o = (u ≡ shift wall o) × (offset_at zone u ≡ some o)

abbrev pub ReadsAs : Zone → ℕ → List ℤ → ℕ → Type 0
ReadsAs zone wall os u = Any (IsReading zone wall u) os

false_ne : false ≡ true → ⊥
false_ne e = ground arith

module _ (P : ℤ → Type 0) where
  Any-unless :
      {a b : ℤ} (d : Dec (a ≡ b)) (rest bs : List ℤ)
      → (Any P bs → P a ⊎ Any P rest)
      → Any P (b ∷ bs)
      → P a ⊎ Any P (unless d b rest)
  Any-unless (yes e) rest bs f (inl h) = inl (subst P (sym e) h)
  Any-unless (yes e) rest bs f (inr h) = f h
  Any-unless (no n) rest bs f (inl h) = inr (inl h)
  Any-unless (no n) rest bs f (inr h) = elim (f h) [ inl q ↦ inl q | inr q ↦ inr (inr q) ]

  unless-Any :
      {a b : ℤ} (d : Dec (a ≡ b)) (rest bs : List ℤ)
      → (Any P rest → Any P bs)
      → Any P (unless d b rest)
      → Any P (b ∷ bs)
  unless-Any (yes e) rest bs f h = inr (f h)
  unless-Any (no n) rest bs f (inl h) = inl h
  unless-Any (no n) rest bs f (inr h) = inr (f h)

  Any-without : (a : ℤ) (os : List ℤ) → Any P os → P a ⊎ Any P (without a os)
  unfolding without
  Any-without a [] h = absurd h
  Any-without a (b ∷ bs) h = Any-unless (ℤ_discrete a b) (without a bs) bs (Any-without a bs) h

  Any-distinct : (os : List ℤ) → Any P os → Any P (distinct os)
  unfolding distinct
  Any-distinct [] h = absurd h
  Any-distinct (a ∷ os) (inl h) = inl h
  Any-distinct (a ∷ os) (inr h) = Any-without a (distinct os) (Any-distinct os h)

  without-Any : (a : ℤ) (os : List ℤ) → Any P (without a os) → Any P os
  unfolding without
  without-Any a [] h = absurd h
  without-Any a (b ∷ bs) h = unless-Any (ℤ_discrete a b) (without a bs) bs (without-Any a bs) h

  distinct-Any : (os : List ℤ) → Any P (distinct os) → Any P os
  unfolding distinct
  distinct-Any [] h = absurd h
  distinct-Any (a ∷ os) (inl h) = inl h
  distinct-Any (a ∷ os) (inr h) = inr (distinct-Any os (without-Any a (distinct os) h))

-- What the minimum over the candidates of a list is, given the earliest before.
abbrev IsEarliest : Zone → ℕ → List ℤ → Option ℕ → Option ℕ → Type 0
IsEarliest zone wall os best none = (best ≡ none) × ((u : ℕ) → ReadsAs zone wall os u → ⊥)
IsEarliest zone wall os best (some t) =
    (ReadsAs zone wall os t ⊎ (best ≡ some t))
    × ((u : ℕ) → ReadsAs zone wall os u → t ≤ u)
    × ((b : ℕ) → best ≡ some b → t ≤ b)

pub some_injective : {A : Type 0} {a b : A} → some a ≡ some b → a ≡ b
some_injective h = cc

has_offset-some : (o : ℤ) (p : Option ℤ) → has_offset o p ≡ true → p ≡ some o
has_offset-some o none h = cc
has_offset-some o (some p) h = ap some (decided (ℤ_discrete p o) h)
  where
    decided : (d : Dec (p ≡ o)) → is_yes d ≡ true → p ≡ o
    decided (yes e) k = e
    decided (no n) k = cc

has_offset_same : (o : ℤ) (p : Option ℤ) → p ≡ some o → has_offset o p ≡ true
has_offset_same o none h = cc
has_offset_same o (some p) h = decided (ℤ_discrete p o) (some_injective h)
  where
    decided : (d : Dec (p ≡ o)) → p ≡ o → is_yes d ≡ true
    decided (yes e) k = refl
    decided (no n) k = absurd (n k)

sooner_le : (c : ℕ) (best : Option ℕ) → sooner c best ≤ c
sooner_le c none = omega arith
sooner_le c (some b) = omega arith

sooner_le_best : (c b : ℕ) (best : Option ℕ) → best ≡ some b → sooner c best ≤ b
sooner_le_best c b none e = cc
sooner_le_best c b (some d) e = omega (arith, some_injective e)

sooner_one : (c : ℕ) (best : Option ℕ) → (sooner c best ≡ c) ⊎ (best ≡ some (sooner c best))
sooner_one c none = inl refl
sooner_one c (some b) = elim (Bool-cases (ltb b c)) [
  | inl h ↦ inr (ap some (sym (min_right b c h)))
  | inr h ↦ inl (min_left b c h)
]
  where
    min_right : (b c : ℕ) → ltb b c ≡ true → min b c ≡ b
    min_right b c h = ground arith

    min_left : (b c : ℕ) → ltb b c ≡ false → min b c ≡ c
    min_left b c h = ground arith

module _ (zone : Zone) (wall : ℕ) (o : ℤ) (os : List ℤ) where
  hit :
      (best r : Option ℕ)
      → offset_at zone (shift wall o) ≡ some o
      → IsEarliest zone wall os (some (sooner (shift wall o) best)) r
      → IsEarliest zone wall (o ∷ os) best r
  hit best none h e = cc
  hit best (some t) h (is_one, least, below) = (one is_one, least_too, below_too)
    where
      t_le : t ≤ sooner (shift wall o) best
      t_le = below (sooner (shift wall o) best) refl

      this : t ≡ shift wall o → IsReading zone wall t o
      this e = (e, ap (offset_at zone) e ∙ h)

      one :
          ReadsAs zone wall os t ⊎ (some (sooner (shift wall o) best) ≡ some t)
          → ReadsAs zone wall (o ∷ os) t ⊎ (best ≡ some t)
      one (inl q) = inl (inr q)
      one (inr q) = elim (sooner_one (shift wall o) best) [
        | inl e ↦ inl (inl (this (sym (some_injective q) ∙ e)))
        | inr e ↦ inr (e ∙ q)
      ]

      least_too : (u : ℕ) → ReadsAs zone wall (o ∷ os) u → t ≤ u
      least_too u (inl q) = omega (arith, t_le, sooner_le (shift wall o) best, q.0)
      least_too u (inr q) = least u q

      below_too : (b : ℕ) → best ≡ some b → t ≤ b
      below_too b e = omega (arith, t_le, sooner_le_best (shift wall o) b best e)

  miss :
      (best r : Option ℕ)
      → (offset_at zone (shift wall o) ≡ some o → ⊥)
      → IsEarliest zone wall os best r
      → IsEarliest zone wall (o ∷ os) best r
  miss best none n (e, never) =
      (e, λ u q. elim q [ inl i ↦ n (sym (ap (offset_at zone) i.0) ∙ i.1) | inr q ↦ never u q ])
  miss best (some t) n (is_one, least, below) = (
    elim is_one [ inl q ↦ inl (inr q) | inr e ↦ inr e ],
    (λ u q. elim q [
      | inl i ↦ absurd (n (sym (ap (offset_at zone) i.0) ∙ i.1))
      | inr q ↦ least u q
    ]),
    below,
  )

module _ (zone : Zone) (wall : ℕ) where
  earliest_lem :
      (os : List ℤ) (best : Option ℕ) → IsEarliest zone wall os best (earliest zone wall os best)
  unfolding earliest
  earliest_lem [] none = (refl, λ u h. h)
  earliest_lem [] (some t) = (inr refl, (λ u h. absurd h), λ b e. omega (arith, some_injective e))
  earliest_lem (o ∷ os) best = elim (Bool-cases (has_offset o (offset_at zone (shift wall o)))) [
    | inl h ↦ rw h (
        hit zone wall o os best (earliest zone wall os (some (sooner (shift wall o) best)))
          (has_offset-some o (offset_at zone (shift wall o)) h)
          (earliest_lem os (some (sooner (shift wall o) best))))
    | inr h ↦ rw h (
        miss zone wall o os best (earliest zone wall os best)
          (λ e. false_ne (sym h ∙ has_offset_same o (offset_at zone (shift wall o)) e))
          (earliest_lem os best))
  ]

-- The instants that read as a wall-clock time in a zone.
abbrev pub Reads : Zone → ℕ → ℕ → Type 0
Reads zone wall u = ReadsAs zone wall zone.offsets u

abbrev pub IsFirstReading : Zone → ℕ → ℕ → Type 0
IsFirstReading zone wall t = Reads zone wall t × ((u : ℕ) → Reads zone wall u → t ≤ u)

abbrev pub IsResolved : Zone → ℕ → Result ScheduleError (Option ℕ) → Type 0
IsResolved zone wall (ok none) = (u : ℕ) → Reads zone wall u → ⊥
IsResolved zone wall (ok (some t)) = IsFirstReading zone wall t × (format_utc t ≡ ok t)
IsResolved zone wall (err e) = (t : ℕ) × IsFirstReading zone wall t × (format_utc t ≡ err e)

format_utc_same : (t u : ℕ) → format_utc t ≡ ok u → u ≡ t
unfolding format_utc
format_utc_same t u h = ground arith

IsEarliest-IsResolved :
    (zone : Zone) (wall : ℕ) (r : Option ℕ)
    → IsEarliest zone wall (distinct zone.offsets) none r
    → IsResolved zone wall (resolved r)
unfolding resolved
IsEarliest-IsResolved zone wall none e =
    λ u q. e.1 u (Any-distinct (IsReading zone wall u) zone.offsets q)
IsEarliest-IsResolved zone wall (some t) (is_one, least, below) = outcome (format_utc t) refl
  where
    first : IsFirstReading zone wall t
    first = (
      elim is_one [ inl q ↦ distinct-Any (IsReading zone wall t) zone.offsets q | inr e ↦ cc ],
      λ u q. least u (Any-distinct (IsReading zone wall u) zone.offsets q),
    )

    outcome :
        (f : Result ScheduleError ℕ)
        → format_utc t ≡ f
        → IsResolved zone wall (and_then f λ u. ok (some u))
    outcome (ok u) e =
        subst (λ v. IsFirstReading zone wall v × (format_utc v ≡ ok v))
          (sym (format_utc_same t u e)) (first, e ∙ ap ok (format_utc_same t u e))
    outcome (err x) e = (t, first, e)

-- A wall-clock time resolves to the first instant that reads as it in the zone, or to nothing
-- where no instant does, and it throws only what the text of the first such instant throws.
pub resolve_wall-IsResolved :
    (zone : Zone) (wall : ℕ) → IsResolved zone wall (resolve_wall zone wall)
unfolding resolve_wall
resolve_wall-IsResolved zone wall =
    IsEarliest-IsResolved zone wall (earliest zone wall (distinct zone.offsets) none)
      (earliest_lem zone wall (distinct zone.offsets) none)
