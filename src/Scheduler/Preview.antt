-- ===== src/Scheduler/Preview.antt =====
-- What a preview of dispatcher/src/scheduler/calculator.ts holds, against the instants that a
-- definition means, described without a window, a sort or a page.
use dona.Prelude.{
  ℕ, zero, suc, String, List, [], ◌∷◌, Option, none, some, is_some, ◌≡◌, refl, sym, ◌∙◌, subst, ◌⊎◌,
  inl, inr, ◌+◌, ◌-◌, ◌≤◌, ◌<◌, arith, All, length, take, length-take, sort_by,
}
use dona.Exec.{Result, ok, err, and_then}
use dona.Scheduler.Calendar.{ScheduleError, day_number}
use dona.Scheduler.Timezone.{Zone}
use dona.Scheduler.Definition.{
  Common, Recurrence, once, daily, weekly, monthly, common_of, ScheduleDefinition,
}
use dona.Scheduler.Resolution.{some_injective}
use dona.Scheduler.Padding.{HasSmallOffsets, resolve_local_near}
use dona.Scheduler.Loop.{Occurs, Throws, InWindow, window_cases, LoopOutcome, on_days-LoopOutcome}
use dona.Scheduler.Order.{
  IsSorted, IsRising, Has, All-map, All-sort_by, Any-sort_by, sort_by-IsSorted, All-unique,
  unique-IsRising, Has-unique, All-take, take-IsRising, Has-take,
}
use dona.Scheduler.Cursor.{cursor_of, cursor_cut, cursor_before, cursor_latest}
use dona.Scheduler.Calculator.{
  Occurrence, in_window, push, append, once_at, OccurrencePreview, last_date, first_day, last_day,
  found, unique, page_of, calculate_occurrences,
}

once_same : {u v : ℕ} → once u ≡ once v → u ≡ v
once_same h = cc

module _ (zones : String → Option Zone) (d : ScheduleDefinition) where
  -- A rule's instant: the one of `once`, or the one that the wall-clock time of a matching day from
  -- the start date on, until the last public day, resolves to.
  abbrev pub ScheduledBy : Option Common → ℕ → Type 0
  ScheduledBy none u = d.recurrence ≡ once u
  ScheduledBy (some c) u =
      (k : ℕ) × (day_number c.start_date ≤ k) × (k ≤ day_number last_date) × Occurs zones d c k u

  abbrev pub IsScheduled : ℕ → Type 0
  IsScheduled u = ScheduledBy (common_of d.recurrence) u

  -- The wall-clock time of a matching day that cannot be resolved.
  abbrev pub ThrowsBy : Option Common → ScheduleError → Type 0
  ThrowsBy none e = ⊥
  ThrowsBy (some c) e = (k : ℕ) × Throws zones d c k e

  -- A preview lists scheduled instants of the window, each after the one before and at most `limit`
  -- of them. A scheduled instant of the window that it does not list is after the cursor.
  pub record IsPreview (after before limit : ℕ) (p : OccurrencePreview) : Type 0 where
    pub rising : IsRising p.occurrences
    pub scheduled : All (λ o. IsScheduled o.occurrence_at) p.occurrences
    pub in_the_window :
        All (λ o. (after < o.occurrence_at) × (o.occurrence_at ≤ before)) p.occurrences
    pub bounded : length p.occurrences ≤ limit
    pub complete :
        (u : ℕ)
        → IsScheduled u
        → after < u
        → u ≤ before
        → Has u p.occurrences ⊎ ((c : ℕ) × (p.cursor ≡ some c) × (c < u))
    pub latest : (c : ℕ) → p.cursor ≡ some c → All (λ o. o.occurrence_at ≤ c) p.occurrences
    pub cut : p.truncated ≡ is_some p.cursor

  abbrev pub PreviewOutcome : ℕ → ℕ → ℕ → Result ScheduleError OccurrencePreview → Type 0
  PreviewOutcome after before limit (ok p) = IsPreview after before limit p
  PreviewOutcome after before limit (err e) = ThrowsBy (common_of d.recurrence) e

  -- The same of the occurrences before they are made unique and cut to a page.
  abbrev Good : ℕ → ℕ → Option Common → Occurrence → Type 0
  Good after before c o = ScheduledBy c o.occurrence_at × InWindow after before o.occurrence_at

  abbrev FoundOutcome : ℕ → ℕ → Option Common → Result ScheduleError (List Occurrence) → Type 0
  FoundOutcome after before c (ok os) =
      IsSorted os
      × All (Good after before c) os
      × ((u : ℕ) → ScheduledBy c u → InWindow after before u → Has u os)
  FoundOutcome after before c (err e) = ThrowsBy c e

  in_days :
      (after before : ℕ) (c : Common)
      → HasSmallOffsets zones
      → (k u : ℕ) → day_number c.start_date ≤ k
      → k ≤ day_number last_date
      → Occurs zones d c k u
      → InWindow after before u
      → (first_day zones d after before c ≤ k)
        × (k
            < first_day zones d after before c
              + (last_day zones d after before + 1 - first_day zones d after before c))
  in_days after before c small k u low high o w =
      let near =
        resolve_local_near zones small k u c.local_time c.timezone c.tzdb_version o.resolves in
      (omega (arith, near.0, low, w.0), omega (arith, near.0, near.1, low, high, w.0, w.1))

  sort-FoundOutcome :
      (after before : ℕ) (c : Common)
      → HasSmallOffsets zones
      → (r : Result ScheduleError (List Occurrence))
      → LoopOutcome zones d after before c
          (first_day zones d after before c)
          (last_day zones d after before + 1 - first_day zones d after before c)
          r
      → FoundOutcome after before
          (some c)
          (and_then r λ os. ok (sort_by Occurrence.occurrence_at os))
  sort-FoundOutcome after before c small (err e) (k, low, high, t) = (k, t)
  sort-FoundOutcome after before c small (ok os) (sound, complete) = (
    sort_by-IsSorted os,
    All-sort_by (Good after before (some c)) os (
        All-map
          (λ o ((k, low, high, q), w). ((k, omega (arith, low), omega (arith, low, high), q), w)) os
          sound),
    λ u (k, low, high, q) w.
        let (l, h) = in_days after before c small k u low high q w in
        Any-sort_by (λ a. a.occurrence_at ≡ u) os (complete k u l h q w),
  )

  once_case :
      (after before at : ℕ)
      → d.recurrence ≡ once at
      → (x : Option ℕ)
      → (InWindow after before at × (x ≡ some at)) ⊎ ((InWindow after before at → ⊥) × (x ≡ none))
      → FoundOutcome after before none
          (push (ok (append zones d after before (once_at zones d after before) x)) (ok []))
  once_case after before at e none (inl (w, h)) = cc
  once_case after before at e none (inr (n, h)) =
      (tt, tt, λ u s w. absurd (n (subst (InWindow after before) (once_same (sym s ∙ e)) w)))
  once_case after before at e (some v) (inl (w, h)) =
      subst (λ v. FoundOutcome after before none (ok (once_at zones d after before v ∷ [])))
        (sym (some_injective h))
        ((tt, tt), ((e, w), tt), λ u s w'. inl (sym (once_same (sym s ∙ e))))
  once_case after before at e (some v) (inr (n, h)) = cc

  found-FoundOutcome :
      (after before : ℕ)
      → HasSmallOffsets zones
      → (r : Recurrence) → d.recurrence ≡ r
      → FoundOutcome after before (common_of r) (found zones d after before r)
  unfolding found
  found-FoundOutcome after before small (once at) e =
      once_case after before at e (in_window after before (some at)) (window_cases after before at)
  found-FoundOutcome after before small (daily c interval) e =
      sort-FoundOutcome after before c small _ (on_days-LoopOutcome zones d after before c _ _)
  found-FoundOutcome after before small (weekly c interval weekdays) e =
      sort-FoundOutcome after before c small _ (on_days-LoopOutcome zones d after before c _ _)
  found-FoundOutcome after before small (monthly c interval day) e =
      sort-FoundOutcome after before c small _ (on_days-LoopOutcome zones d after before c _ _)

  page_of-IsPreview :
      (after before limit : ℕ) (os : List Occurrence)
      → 0 < limit
      → FoundOutcome after before (common_of d.recurrence) (ok os)
      → IsPreview after before limit (page_of limit (unique os))
  unfolding page_of
  page_of-IsPreview after before zero os pos_limit good = absurd (omega arith)
  page_of-IsPreview after before (suc n) os pos_limit (sorted, good, complete) = record {
    rising = take-IsRising (suc n) (unique os) rising_all;
    scheduled = All-map (λ o g. g.0) (take (suc n) (unique os)) page_good;
    in_the_window = All-map (λ o g. g.1) (take (suc n) (unique os)) page_good;
    bounded = omega (arith, length-take (suc n) (unique os));
    complete = λ u s after_it before_it. on_page u (
        Has-take u (suc n) (unique os) rising_all
          (Has-unique u os (complete u s (after_it, before_it))));
    latest = λ c e. cursor_latest n c (unique os) (take-IsRising (suc n) (unique os) rising_all) e;
    cut = cursor_cut n (unique os);
  }
    where
      rising_all : IsRising (unique os)
      rising_all = unique-IsRising os sorted

      page_good : All (Good after before (common_of d.recurrence)) (take (suc n) (unique os))
      page_good =
          All-take (Good after before (common_of d.recurrence)) (suc n) (unique os)
            (All-unique (Good after before (common_of d.recurrence)) os good)

      on_page :
          (u : ℕ)
          → Has u (take (suc n) (unique os))
            ⊎ ((suc n < length (unique os))
                × All (λ a. a.occurrence_at < u) (take (suc n) (unique os)))
          → Has u (take (suc n) (unique os))
            ⊎ ((c : ℕ) × (cursor_of (suc n) (unique os) ≡ some c) × (c < u))
      on_page u (inl h) = inl h
      on_page u (inr (l, h)) = inr (cursor_before n u (unique os) l h)

  found-PreviewOutcome :
      (after before limit : ℕ) (r : Result ScheduleError (List Occurrence))
      → 0 < limit
      → FoundOutcome after before (common_of d.recurrence) r
      → PreviewOutcome after before limit (and_then r λ os. ok (page_of limit (unique os)))
  found-PreviewOutcome after before limit (ok os) pos_limit f =
      page_of-IsPreview after before limit os pos_limit f
  found-PreviewOutcome after before limit (err e) pos_limit f = f

  -- Where each offset of the zones is less than a day and the limit is not 0, the calculation gives a
  -- preview: it lists scheduled instants of the window only, in order and each once, at most as many
  -- as the limit, and leaves out only those after its cursor, which it has when it is truncated. It
  -- throws only what the resolution of some matching day throws.
  pub calculate_occurrences-PreviewOutcome :
      (after before limit : ℕ)
      → HasSmallOffsets zones
      → 0 < limit
      → PreviewOutcome after before limit (calculate_occurrences zones d after before limit)
  unfolding calculate_occurrences
  calculate_occurrences-PreviewOutcome after before limit small pos_limit =
      found-PreviewOutcome after before limit (found zones d after before d.recurrence) pos_limit
        (found-FoundOutcome after before small d.recurrence refl)
