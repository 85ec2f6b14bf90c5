-- ===== src/Scheduler/Days.antt =====
-- Days and their dates, of dispatcher/src/scheduler/calendar.ts.
use dona.Prelude.{ℕ, ◌≡◌, ◌∙◌, arith, ◌+◌, ◌-◌, ◌*◌, ◌/◌, ◌%◌, ◌≤◌, ◌<◌}
use dona.Scheduler.Calendar.{
  civil, day_number, cycle_year, year_start, month_start, date_of, in_year, in_cycle, from_march,
}

year_before : (d : ℕ) → d < 146097 → year_start (cycle_year d) ≤ d
year_before d h = omega arith

cycle_year_bound : (d : ℕ) → d < 146097 → cycle_year d < 400
cycle_year_bound d h = omega arith

year_after : (d : ℕ) → d < 146097 → d < year_start (cycle_year d) + 366
year_after d h = omega arith

month_bound : (e : ℕ) → e < 366 → (5 * e + 2) / 153 < 12
month_bound e h = omega arith

month_before : (e : ℕ) → e < 366 → month_start ((5 * e + 2) / 153) ≤ e
month_before e h = omega arith

day_number-date_of : (y m r : ℕ) → m < 12 → day_number (date_of y m r) ≡ from_march y m r
unfolding day_number
day_number-date_of y m r h = ground arith

day_number-in_year : (y e : ℕ) → e < 366 → day_number (in_year y e) ≡ from_march y 0 e
day_number-in_year y e h =
    day_number-date_of y ((5 * e + 2) / 153) (e - month_start ((5 * e + 2) / 153)) (month_bound e h)
    ∙ omega (arith, month_before e h)

from_march-cycle :
    (c y e : ℕ) → y < 400 → from_march (400 * c + y) 0 e ≡ 146097 * c + year_start y + e
from_march-cycle c y e h = omega arith

day_number-in_cycle : (c d : ℕ) → d < 146097 → day_number (in_cycle c d) ≡ 146097 * c + d
day_number-in_cycle c d h =
    day_number-in_year (400 * c + cycle_year d) (d - year_start (cycle_year d))
      (omega (arith, year_after d h, year_before d h))
    ∙ from_march-cycle c (cycle_year d) (d - year_start (cycle_year d)) (cycle_year_bound d h)
    ∙ omega (arith, year_before d h)

-- The number of the date of a day is the day.
pub day_number-civil : (d : ℕ) → day_number (civil d) ≡ d
unfolding civil
day_number-civil d = day_number-in_cycle (d / 146097) (d % 146097) (omega arith) ∙ omega arith
