-- ===== src/Scheduler/Calculator.antt =====
-- dispatcher/src/scheduler/calculator.ts: the occurrences of a definition in a window. A key, the
-- JSON text of a schedule's id and an instant, is the pair of them.
use dona.Prelude.{
  ℕ, zero, suc, String, Bool, true, false, not, List, [], ◌∷◌, Option, none, some, ltb, leb, ◌==◌,
  ◌&&◌, ◌||◌, ◌-◌, ◌+◌, ◌*◌, ◌/◌, ◌%◌, if◌then◌else◌, min, max, sort_by, take, length, get_elem?,
}
use dona.Exec.{Result, ok, err, and_then}
use dona.Scheduler.Calendar.{
  ScheduleError, out_of_range, invalid_preview_limit, LocalDate, date_ltb, day_ms, day_number,
  civil, wall_clock,
}
use dona.Scheduler.Timezone.{Zone, resolve_local}
use dona.Scheduler.Definition.{
  Common, Recurrence, once, daily, weekly, monthly, ScheduleDefinition, parse_definition,
  preview_count, preview_days,
}

pub record Occurrence : Type 0 where
  pub key : String × ℕ
  pub occurrence_at : ℕ
  pub local : ℕ
  pub timezone : String
  pub tzdb_version : Option String
  pub revision : ℕ

pub record PreviewRequest : Type 0 where
  pub after : ℕ
  pub before_or_equal : ℕ
  pub limit : ℕ

pub record OccurrencePreview : Type 0 where
  pub occurrences : List Occurrence
  pub truncated : Bool
  pub cursor : Option ℕ

-- The day of the week, Monday being 1: 0000-03-01 was a Wednesday.
abbrev weekday : ℕ → ℕ
weekday day = (day + 2) % 7 + 1

abbrev includes : ℕ → List ℕ → Bool
includes n [] = false
includes n (w ∷ ws) = (w == n) || includes n ws

abbrev month_count : LocalDate → ℕ
month_count d = d.year * 12 + d.month

-- The tests of `matches` after the one on the start date.
abbrev keeps_beat : Recurrence → LocalDate → Bool
keeps_beat (once at) date = false
keeps_beat (daily c interval) date = (day_number date - day_number c.start_date) % interval == 0
keeps_beat (weekly c interval weekdays) date =
    let day = day_number date in
    let anchor = day_number c.start_date in
    let weeks = (day + weekday anchor - 1 - anchor) / 7 in
    (weeks % interval == 0) && includes (weekday day) weekdays
keeps_beat (monthly c interval day) date =
    ((month_count date - month_count c.start_date) % interval == 0) && (date.day == day)

unfoldable pub matches : Common → Recurrence → LocalDate → Bool
unfolding day_number
matches c recurrence date = not (date_ltb date c.start_date) && keeps_beat recurrence date

-- `2499-12-31`.
abbrev pub last_date : LocalDate
last_date = record { year = 2499; month = 12; day = 31 }

abbrev pub is_out_of_range : ScheduleError → Bool
is_out_of_range out_of_range = true
is_out_of_range e = false

-- What `resolveLocal` threw is passed over when it is the public range that was left.
abbrev pub padded : Result ScheduleError (Option ℕ) → Result ScheduleError (Option ℕ)
padded (ok t) = ok t
padded (err e) = if is_out_of_range e then ok none else err e

-- `append`: only an instant of the window is pushed.
abbrev pub in_window : ℕ → ℕ → Option ℕ → Option ℕ
in_window after before none = none
in_window after before (some t) = if leb t after || ltb before t then none else some t

-- The first error of a loop ends it.
abbrev pub push :
    {A : Type 0}
    → Result ScheduleError (Option A)
    → Result ScheduleError (List A)
    → Result ScheduleError (List A)
push (err e) rest = err e
push (ok none) rest = rest
push (ok (some a)) (err e) = err e
push (ok (some a)) (ok rest) = ok (a ∷ rest)

-- `occurrence_at` sorts, and of equal neighbours the first is kept.
abbrev pub keep_first : Occurrence → Occurrence → List Occurrence → List Occurrence
keep_first a b rest = if a.occurrence_at == b.occurrence_at then rest else b ∷ rest

unfoldable pub unique_after : Occurrence → List Occurrence → List Occurrence
unique_after a [] = []
unique_after a (b ∷ bs) = keep_first a b (unique_after b bs)

unfoldable pub unique : List Occurrence → List Occurrence
unfolding unique_after
unique [] = []
unique (a ∷ bs) = a ∷ unique_after a bs

abbrev pub last_of : Occurrence → List Occurrence → ℕ
last_of a [] = a.occurrence_at
last_of a (b ∷ bs) = last_of b bs

-- `page.at(-1)!`.
abbrev pub last_at : List Occurrence → Option ℕ
last_at [] = none
last_at (a ∷ bs) = some (last_of a bs)

unfoldable pub page_of : ℕ → List Occurrence → OccurrencePreview
page_of limit found = record {
  occurrences = take limit found;
  truncated = ltb limit (length found);
  cursor = if ltb limit (length found) then last_at (take limit found) else none;
}

module _ (zones : String → Option Zone) (d : ScheduleDefinition) (after before : ℕ) where
  abbrev pub occurrence_of : Common → ℕ → ℕ → Occurrence
  occurrence_of c day t = record {
    key = (d.schedule_id, t);
    occurrence_at = t;
    local = wall_clock (civil day) c.local_time;
    timezone = c.timezone;
    tzdb_version = some c.tzdb_version;
    revision = d.revision;
  }

  abbrev pub once_at : ℕ → Occurrence
  once_at t = record {
    key = (d.schedule_id, t);
    occurrence_at = t;
    local = t;
    timezone = "UTC";
    tzdb_version = none;
    revision = d.revision;
  }

  abbrev pub append {ℓ} : {A : Type ℓ} → (ℕ → A) → Option ℕ → Option A
  append f none = none
  append f (some t) = some (f t)

  -- One turn of the loop over the days.
  unfoldable pub on_day : Common → ℕ → Result ScheduleError (Option Occurrence)
  unfolding matches resolve_local wall_clock civil
  on_day c day =
      if not (matches c d.recurrence (civil day))
      then ok none
      else and_then
          (padded (resolve_local zones (civil day) c.local_time c.timezone c.tzdb_version))
          λ t. ok (append (occurrence_of c day) (in_window after before t))

  unfoldable pub on_days : Common → ℕ → ℕ → Result ScheduleError (List Occurrence)
  unfolding on_day
  on_days c day zero = ok []
  on_days c day (suc n) = push (on_day c day) (on_days c (suc day) n)

  abbrev pub first_day : Common → ℕ
  first_day c = max (day_number c.start_date) (after / day_ms - 1)

  abbrev pub last_day : ℕ
  last_day = min (day_number last_date) (before / day_ms + 1)

  unfoldable pub found : Recurrence → Result ScheduleError (List Occurrence)
  unfolding on_days day_number sort_by
  found recurrence = elim recurrence [
    | once at ↦ push (ok (append once_at (in_window after before (some at)))) (ok [])
    | daily c interval ↦ sorted c
    | weekly c interval weekdays ↦ sorted c
    | monthly c interval day ↦ sorted c
  ]
    where
      sorted : Common → Result ScheduleError (List Occurrence)
      sorted c =
          and_then (on_days c (first_day c) (last_day + 1 - first_day c))
            λ os. ok (sort_by Occurrence.occurrence_at os)

  unfoldable pub calculate_occurrences : ℕ → Result ScheduleError OccurrencePreview
  unfolding found unique page_of
  calculate_occurrences limit = and_then (found d.recurrence) λ os. ok (page_of limit (unique os))

module _ (zones : String → Option Zone) where
  abbrev in_limits : ℕ → ℕ → ℕ → Bool
  in_limits after before limit =
      leb 1 limit
      && leb limit preview_count
      && leb (after + day_ms) before
      && leb (before - after) (preview_days * day_ms)

  -- `checkedPreview`, of instants that parse.
  unfoldable pub checked_preview :
      ScheduleDefinition → PreviewRequest → Result ScheduleError ScheduleDefinition
  unfolding parse_definition
  checked_preview input request = and_then (parse_definition input) λ definition.
      if in_limits request.after request.before_or_equal request.limit
      then ok definition
      else err invalid_preview_limit

  unfoldable pub preview_occurrences :
      ScheduleDefinition → PreviewRequest → Result ScheduleError OccurrencePreview
  unfolding checked_preview calculate_occurrences
  preview_occurrences input request = and_then (checked_preview input request) λ definition.
      calculate_occurrences zones definition request.after request.before_or_equal request.limit

  unfoldable pub preview_occurrences_before :
      ScheduleDefinition → PreviewRequest → ℕ → Result ScheduleError OccurrencePreview
  unfolding checked_preview calculate_occurrences
  preview_occurrences_before input request exclusive_before =
      and_then (checked_preview input request) λ definition.
        calculate_occurrences zones definition request.after
          (min request.before_or_equal (exclusive_before - 1)) request.limit

  abbrev head_of : OccurrencePreview → Option Occurrence
  head_of p = get_elem? p.occurrences 0

  -- The instant `2499-12-31T23:59:59Z`.
  abbrev last_instant : ℕ
  last_instant = day_number last_date * day_ms + 86399000

  unfoldable pub next_occurrence :
      ScheduleDefinition → ℕ → Option ℕ → Result ScheduleError (Option Occurrence)
  unfolding preview_occurrences parse_definition calculate_occurrences day_number
  next_occurrence definition after (some before) =
      and_then
        (preview_occurrences definition
          (record { after = after; before_or_equal = before; limit = 1 }))
        λ p. ok (head_of p)
  next_occurrence definition after none = and_then (parse_definition definition) λ parsed.
      and_then
        (calculate_occurrences zones parsed after (min (after + preview_days * day_ms) last_instant)
          1)
        λ p. ok (head_of p)
