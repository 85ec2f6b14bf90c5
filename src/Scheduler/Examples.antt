-- ===== src/Scheduler/Examples.antt =====
-- The scheduler's theorems at a zone that changes its clocks twice in 2025, and a daily reminder.
use dona.Prelude.{
  true, ℕ, String, List, [], ◌∷◌, Option, some, none, ◌≡◌, refl, subst, All, map, get_elem?, arith,
  ◌+◌, ◌*◌, text_discrete, ℕ_discrete, sort_by, sort_with, insert_sorted,
}
use dona.Exec.{Result, ok, err}
use dona.Scheduler.Calendar.{
  ScheduleError, civil, day_number, day_ms, format_utc, local_date, local_time, wall_clock,
}
use dona.Scheduler.Timezone.{
  pos, ℤ_discrete, Zone, shift, unshift, search_until, offset_at, local_in, without, distinct,
  earliest, resolved, resolve_wall, timezone_name, resolve_local,
}
use dona.Scheduler.Search.{Ascending, IsFirstAfter, offset_at-IsFirstAfter}
use dona.Scheduler.Resolution.{IsResolved, some_injective, resolve_wall-IsResolved}
use dona.Scheduler.Definition.{daily, ScheduleDefinition, thread, reminder}
use dona.Scheduler.Calculator.{
  matches, Occurrence, OccurrencePreview, on_day, on_days, found, unique_after, unique, page_of,
  calculate_occurrences,
}
use dona.Scheduler.Padding.{IsSmall, HasSmallOffsets}
use dona.Scheduler.Preview.{PreviewOutcome, calculate_occurrences-PreviewOutcome}
use dona.Scheduler.Paging.{Pages, calculate_occurrences-Pages}
use dona.Scheduler.Roundtrip.{local_in-resolve_wall}

-- 9 March 2025 at 07:00 UTC, and 2 November 2025 at 06:00 UTC.
abbrev spring : ℕ
spring = 739624 * day_ms + 25200000

abbrev autumn : ℕ
autumn = 739862 * day_ms + 21600000

abbrev new_york : Zone
new_york = record {
  untils = some spring ∷ some autumn ∷ none ∷ [];
  offsets = pos 18000000 ∷ pos 14400000 ∷ pos 18000000 ∷ [];
}

abbrev zones : String → Option Zone
zones name = some new_york

-- 02:30 on 9 March is skipped by the clocks; 01:30 on 2 November comes twice.
abbrev half_past_two : ℕ
half_past_two = 739624 * day_ms + 9000000

abbrev half_past_one : ℕ
half_past_one = 739862 * day_ms + 5400000

definitions : Unit {0}
unfolding civil day_number format_utc local_date local_time wall_clock ℤ_discrete ℕ_discrete shift
    unshift search_until offset_at local_in without distinct earliest resolved resolve_wall
    timezone_name resolve_local matches on_day on_days found unique_after unique page_of
    calculate_occurrences sort_by sort_with insert_sorted text_discrete
definitions = tt

gap_skipped : resolve_wall new_york half_past_two ≡ ok none
unfolding definitions
gap_skipped = refl

first_of_two : resolve_wall new_york half_past_one ≡ ok (some (739862 * day_ms + 19800000))
unfolding definitions
first_of_two = refl

abbrev definition : ScheduleDefinition
definition = record {
  schedule_id = "sch_1";
  revision = 1;
  tenant_id = "T1";
  owner_id = "U1";
  action = reminder (thread "T1" "C1" "1.000001") "stand up";
  recurrence =
      daily
        (record {
          start_date = record { year = 2025; month = 3; day = 8 };
          local_time = record { hour = 2; minute = 30; second = 0 };
          timezone = "America/New_York";
          tzdb_version = "2025b";
        })
        1;
}

-- The window from 8 March on.
abbrev preview : ℕ → Result ScheduleError OccurrencePreview
preview limit = calculate_occurrences zones definition (739623 * day_ms) (739626 * day_ms) limit

abbrev instants : Result ScheduleError OccurrencePreview → List ℕ
instants (ok p) = map Occurrence.occurrence_at p.occurrences
instants (err e) = []

two_days : instants (preview 5) ≡ (739623 * day_ms + 27000000) ∷ (739625 * day_ms + 23400000) ∷ []
unfolding definitions
two_days = refl

new_york-Ascending : Ascending new_york.untils
unfolding Ascending
new_york-Ascending = (omega arith, (tt, tt))

offset_at-IsFirstAfter_example :
    (i : ℕ) × IsFirstAfter spring new_york.untils 0 2 i
    × (offset_at new_york spring ≡ get_elem? new_york.offsets i)
offset_at-IsFirstAfter_example =
    offset_at-IsFirstAfter new_york spring new_york-Ascending (omega arith)

resolve_wall-IsResolved_example :
    IsResolved new_york half_past_one (resolve_wall new_york half_past_one)
resolve_wall-IsResolved_example = resolve_wall-IsResolved new_york half_past_one

new_york-IsSmall : All IsSmall new_york.offsets
new_york-IsSmall = (omega arith, (omega arith, (omega arith, tt)))

zones_small : HasSmallOffsets zones
zones_small name zone e = subst (λ z. All IsSmall z.offsets) (some_injective e) new_york-IsSmall

calculate_occurrences-PreviewOutcome_example :
    PreviewOutcome zones definition (739623 * day_ms) (739626 * day_ms) 1 (preview 1)
calculate_occurrences-PreviewOutcome_example =
    calculate_occurrences-PreviewOutcome zones definition (739623 * day_ms) (739626 * day_ms) 1
      zones_small (omega arith)

local_in-resolve_wall_example :
    local_in (739862 * day_ms + 19800000) (offset_at new_york (739862 * day_ms + 19800000))
    ≡ format_utc half_past_one
local_in-resolve_wall_example =
    local_in-resolve_wall new_york half_past_one (739862 * day_ms + 19800000) new_york-IsSmall
      (omega arith) first_of_two

abbrev opened : Result ScheduleError OccurrencePreview → OccurrencePreview
opened (ok p) = p
opened (err e) = record { occurrences = []; truncated = true; cursor = none }

abbrev first_page : OccurrencePreview
first_page = opened (preview 1)

abbrev second_page : OccurrencePreview
second_page =
    opened (calculate_occurrences zones definition (739623 * day_ms + 27000000) (739626 * day_ms) 1)

calculate_occurrences-Pages_example :
    Pages zones definition
      (739623 * day_ms)
      (739626 * day_ms)
      (739623 * day_ms + 27000000)
      first_page
      second_page
unfolding definitions
calculate_occurrences-Pages_example =
    calculate_occurrences-Pages zones definition (739623 * day_ms) (739626 * day_ms) 1 1
      (739623 * day_ms + 27000000) first_page second_page zones_small (omega arith) (omega arith)
      refl refl refl
