-- ===== src/Scheduler/Loop.antt =====
-- The loop over the days in `calculateOccurrences` of dispatcher/src/scheduler/calculator.ts.
use dona.Prelude.{
  ℕ, zero, suc, String, true, false, List, Option, none, some, ◌≡◌, refl, sym, ap, ◌∙◌, subst, ◌⊎◌,
  inl, inr, Bool-cases, ◌+◌, ◌≤◌, ◌<◌, ltb, leb, ◌||◌, arith, All,
}
use dona.Exec.{Result, ok, err, and_then}
use dona.Scheduler.Calendar.{ScheduleError, civil}
use dona.Scheduler.Timezone.{Zone, resolve_local}
use dona.Scheduler.Definition.{Common, ScheduleDefinition}
use dona.Scheduler.Calculator.{
  Occurrence, matches, is_out_of_range, padded, in_window, push, append, occurrence_of, on_day,
  on_days,
}
use dona.Scheduler.Padding.{some_same}
use dona.Scheduler.Order.{Has, All-map}

outside : (u a b : ℕ) → (leb u a || ltb b u) ≡ true → (a < u) × (u ≤ b) → ⊥
outside u a b h w = ground arith

inside : (u a b : ℕ) → (leb u a || ltb b u) ≡ false → (a < u) × (u ≤ b)
inside u a b h = (ground arith, ground arith)

err_some :
    {A : Type 0} {e : ScheduleError} {a : A} → ◌≡◌ {A = Result ScheduleError A} (err e) (ok a) → ⊥
err_some h = cc

none-some : {u : ℕ} → ◌≡◌ {A = Result ScheduleError (Option ℕ)} (ok none) (ok (some u)) → ⊥
none-some h = cc

false-true : false ≡ true → ⊥
false-true h = cc

first_or :
    (day n k : ℕ) → day ≤ k → k < day + suc n → (k ≡ day) ⊎ ((suc day ≤ k) × (k < suc day + n))
first_or day n k low high = elim (Bool-cases (leb k day)) [
  | inl h ↦ inl (ground arith)
  | inr h ↦ inr (ground arith, omega arith)
]

module _ (zones : String → Option Zone) (d : ScheduleDefinition) (c : Common) where
  abbrev pub resolution : ℕ → Result ScheduleError (Option ℕ)
  resolution k = resolve_local zones (civil k) c.local_time c.timezone c.tzdb_version

  -- The day is one of the recurrence, and its wall-clock time resolves to the instant.
  pub record Occurs (k u : ℕ) : Type 0 where
    pub on_beat : matches c d.recurrence (civil k) ≡ true
    pub resolves : resolution k ≡ ok (some u)

  pub record Throws (k : ℕ) (e : ScheduleError) : Type 0 where
    pub throws_on_beat : matches c d.recurrence (civil k) ≡ true
    pub throws : resolution k ≡ err e

abbrev pub InWindow : ℕ → ℕ → ℕ → Type 0
InWindow after before u = (after < u) × (u ≤ before)

pub window_cases :
    (after before u : ℕ)
    → (InWindow after before u × (in_window after before (some u) ≡ some u))
      ⊎ ((InWindow after before u → ⊥) × (in_window after before (some u) ≡ none))
window_cases after before u = elim (Bool-cases (leb u after || ltb before u)) [
  | inl h ↦ inr (outside u after before h, rw h refl)
  | inr h ↦ inl (inside u after before h, rw h refl)
]

module _ (zones : String → Option Zone) (d : ScheduleDefinition) (after before : ℕ)
    (c : Common) where
  -- What a turn of the loop gives.
  abbrev DayOutcome : ℕ → Result ScheduleError (Option Occurrence) → Type 0
  DayOutcome k (ok none) = (u : ℕ) → Occurs zones d c k u → InWindow after before u → ⊥
  DayOutcome k (ok (some o)) =
      Occurs zones d c k o.occurrence_at × InWindow after before o.occurrence_at
  DayOutcome k (err e) = Throws zones d c k e

  -- What the turns for some days from a day on give.
  abbrev pub LoopOutcome : ℕ → ℕ → Result ScheduleError (List Occurrence) → Type 0
  LoopOutcome day n (ok os) =
      All
        (λ o.
          ((k : ℕ) × (day ≤ k) × (k < day + n) × Occurs zones d c k o.occurrence_at)
          × InWindow after before o.occurrence_at)
        os
      × ((k u : ℕ)
          → day ≤ k
          → k < day + n
          → Occurs zones d c k u
          → InWindow after before u
          → Has u os)
  LoopOutcome day n (err e) = (k : ℕ) × (day ≤ k) × (k < day + n) × Throws zones d c k e

  in_case :
      (k t : ℕ) (x : Option ℕ)
      → Occurs zones d c k t
      → (InWindow after before t × (x ≡ some t)) ⊎ ((InWindow after before t → ⊥) × (x ≡ none))
      → DayOutcome k (ok (append zones d after before (occurrence_of zones d after before c k) x))
  in_case k t none o (inl (w, e)) = cc
  in_case k t none o (inr (n, e)) =
      λ u p w. n (subst (InWindow after before) (some_same (sym p.resolves ∙ o.resolves)) w)
  in_case k t (some v) o (inl (w, e)) =
      subst (λ v. Occurs zones d c k v × InWindow after before v) (sym (same e)) (o, w)
    where
      same : some v ≡ some t → v ≡ t
      same e = cc
  in_case k t (some v) o (inr (n, e)) = cc

  resolved_day :
      (k : ℕ) (r : Result ScheduleError (Option ℕ))
      → matches c d.recurrence (civil k) ≡ true
      → resolution zones d c k ≡ r
      → DayOutcome k (
          and_then (padded r) λ t. ok (
            append zones d after before
              (occurrence_of zones d after before c k)
              (in_window after before t)))
  resolved_day k (ok none) m e = λ u o w. none-some (sym e ∙ o.resolves)
  resolved_day k (ok (some t)) m e =
      in_case k t (in_window after before (some t)) (record { on_beat = m; resolves = e })
        (window_cases after before t)
  resolved_day k (err x) m e = elim (Bool-cases (is_out_of_range x)) [
    | inl h ↦ rw h (λ u o w. err_some (sym e ∙ o.resolves))
    | inr h ↦ rw h (record { throws_on_beat = m; throws = e })
  ]

  on_day-DayOutcome : (k : ℕ) → DayOutcome k (on_day zones d after before c k)
  unfolding on_day
  on_day-DayOutcome k = elim (Bool-cases (matches c d.recurrence (civil k))) [
    | inl m ↦ rw m (resolved_day k (resolution zones d c k) m refl)
    | inr m ↦ rw m (λ u o w. false-true (sym m ∙ o.on_beat))
  ]

  push-LoopOutcome :
      (day n : ℕ) (r : Result ScheduleError (Option Occurrence))
      (rest : Result ScheduleError (List Occurrence))
      → DayOutcome day r
      → LoopOutcome (suc day) n rest
      → LoopOutcome day (suc n) (push r rest)
  push-LoopOutcome day n (err e) rest t l = (day, omega arith, omega arith, t)
  push-LoopOutcome day n (ok none) (err e) t (k, low, high, l) = (k, omega arith, omega arith, l)
  push-LoopOutcome day n (ok (some o)) (err e) t (k, low, high, l) =
      (k, omega arith, omega arith, l)
  push-LoopOutcome day n (ok none) (ok os) t (sound, complete) = (
    All-map (λ o ((k, low, high, q), w). ((k, omega arith, omega arith, q), w)) os sound,
    λ k u low high q w. elim (first_or day n k low high) [
      | inl e ↦ absurd (t u (subst (λ k. Occurs zones d c k u) e q) w)
      | inr m ↦ complete k u m.0 m.1 q w
    ],
  )
  push-LoopOutcome day n (ok (some o)) (ok os) t (sound, complete) = (
    (
      ((day, omega arith, omega arith, t.0), t.1),
      All-map (λ o ((k, low, high, q), w). ((k, omega arith, omega arith, q), w)) os sound,
    ),
    λ k u low high q w. elim (first_or day n k low high) [
      | inl e ↦ inl (some_same (sym t.0.resolves ∙ ap (resolution zones d c) (sym e) ∙ q.resolves))
      | inr m ↦ inr (complete k u m.0 m.1 q w)
    ],
  )

  pub on_days-LoopOutcome : (day n : ℕ) → LoopOutcome day n (on_days zones d after before c day n)
  unfolding on_days
  on_days-LoopOutcome day zero = (tt, λ k u low high. absurd (omega arith))
  on_days-LoopOutcome day (suc n) =
      push-LoopOutcome day n (on_day zones d after before c day)
        (on_days zones d after before c (suc day) n) (on_day-DayOutcome day)
        (on_days-LoopOutcome (suc day) n)
