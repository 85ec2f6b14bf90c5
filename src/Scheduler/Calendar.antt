-- ===== src/Scheduler/Calendar.antt =====
-- dispatcher/src/scheduler/calendar.ts and errors.ts: instants, civil dates and wall-clock times.
-- An instant is the count of its milliseconds since 0000-03-01T00:00:00Z, a day the count of days
-- since then: every text that the calendar accepts is later. A text that has matched its regular
-- expression is the record of its numbers.
use dona.Prelude.{
  ℕ, Bool, not, ◌&&◌, ◌||◌, ◌≡◌, refl, ltb, leb, ◌==◌, if◌then◌else◌, ◌+◌, ◌-◌, ◌*◌, ◌/◌, ◌%◌,
}
use dona.Exec.{Result, ok, err}

pub data ScheduleError : Type 0 where
  invalid_json : ScheduleError
  unknown_version : ScheduleError
  invalid_recurrence : ScheduleError
  invalid_policy : ScheduleError
  invalid_definition : ScheduleError
  invalid_timezone : ScheduleError
  tzdb_unavailable : ScheduleError
  invalid_local_date : ScheduleError
  invalid_local_time : ScheduleError
  invalid_instant : ScheduleError
  out_of_range : ScheduleError
  invalid_preview_limit : ScheduleError
  invalid_creation_time : ScheduleError
  local_time_gap : ScheduleError

abbrev pub day_ms : ℕ
day_ms = 86400000

abbrev pub min_year : ℕ
min_year = 1

abbrev pub max_year : ℕ
max_year = 2499

-- 1970-01-01, and the largest safe integer counted from it.
abbrev epoch_day : ℕ
epoch_day = 719468

abbrev last_safe : ℕ
last_safe = epoch_day * day_ms + 9007199254740991

pub record LocalDate : Type 0 where
  pub year : ℕ
  pub month : ℕ
  pub day : ℕ

pub record LocalTime : Type 0 where
  pub hour : ℕ
  pub minute : ℕ
  pub second : ℕ

-- A day inside its cycle of 400 years: the year of the cycle, counted from March, and the day in it.
abbrev pub cycle_year : ℕ → ℕ
cycle_year d = (d + d / 36524 - d / 1460 - d / 146096) / 365

abbrev pub year_start : ℕ → ℕ
year_start y = 365 * y + y / 4 - y / 100

abbrev pub month_start : ℕ → ℕ
month_start m = (153 * m + 2) / 5

abbrev pub date_of : ℕ → ℕ → ℕ → LocalDate
date_of years months day = record {
  year = if ltb months 10 then years else years + 1;
  month = if ltb months 10 then months + 3 else months - 9;
  day = day + 1;
}

abbrev pub in_year : ℕ → ℕ → LocalDate
in_year years day =
    let months = (5 * day + 2) / 153 in date_of years months (day - month_start months)

abbrev pub in_cycle : ℕ → ℕ → LocalDate
in_cycle cycle day =
    let year = cycle_year day in in_year (400 * cycle + year) (day - year_start year)

-- The date of a day in the Gregorian calendar, as `new Date(day * DAY_MS)` reads it.
unfoldable pub civil : ℕ → LocalDate
civil day = in_cycle (day / 146097) (day % 146097)

abbrev pub from_march : ℕ → ℕ → ℕ → ℕ
from_march years months day =
    146097 * (years / 400) + year_start (years % 400) + month_start months + day

-- `dayNumber(date)`.
unfoldable pub day_number : LocalDate → ℕ
day_number d =
    if ltb d.month 3
    then from_march (d.year - 1) (d.month + 9) (d.day - 1)
    else from_march d.year (d.month - 3) (d.day - 1)

-- `formatUtc(ms)`: the text of an instant stands for the instant.
unfoldable pub format_utc : ℕ → Result ScheduleError ℕ
unfolding civil
format_utc ms =
    let year = (civil (ms / day_ms)).year in
    if not (leb ms last_safe && (ms % 1000 == 0))
    then err invalid_instant
    else if ltb year min_year || ltb max_year year
    then err out_of_range
    else ok ms

abbrev pub date_eq : LocalDate → LocalDate → Bool
date_eq a b = (a.year == b.year) && (a.month == b.month) && (a.day == b.day)

-- `date < other` on the texts of two dates.
abbrev pub date_ltb : LocalDate → LocalDate → Bool
date_ltb a b =
    ltb a.year b.year
    || (a.year == b.year) && (ltb a.month b.month || (a.month == b.month) && ltb a.day b.day)

abbrev has_numbers : LocalDate → Bool
has_numbers d = leb 1 d.month && leb d.month 12 && leb 1 d.day && leb d.day 31

-- `localDate(value)`: `Date.parse` takes 30 February for a day of March, which is another text.
unfoldable pub local_date : LocalDate → Result ScheduleError LocalDate
unfolding civil day_number
local_date d =
    if not (has_numbers d)
    then err invalid_local_date
    else if ltb d.year min_year || ltb max_year d.year
    then err out_of_range
    else if date_eq (civil (day_number d)) d
    then ok d
    else err invalid_local_date

unfoldable pub local_time : LocalTime → Result ScheduleError LocalTime
local_time t =
    if ltb t.hour 24 && ltb t.minute 60 && ltb t.second 60 then ok t else err invalid_local_time

-- `Date.parse(`${date}T${time}Z`)`.
unfoldable pub wall_clock : LocalDate → LocalTime → ℕ
unfolding day_number
wall_clock d t = day_number d * day_ms + (t.hour * 3600 + t.minute * 60 + t.second) * 1000

leap_day :
    civil (day_number (record { year = 2024; month = 2; day = 29 }))
    ≡ record { year = 2024; month = 2; day = 29 }
unfolding civil day_number
leap_day = refl

epoch : day_number (record { year = 1970; month = 1; day = 1 }) ≡ epoch_day
unfolding day_number
epoch = refl
