-- ===== src/Scheduler/Definition.antt =====
-- dispatcher/src/scheduler/domain.ts, and the types of recurrence.ts and policy.ts: a definition
-- that has passed its schema.
use dona.Prelude.{
  ℕ, String, Bool, true, List, Option, none, some, ltb, leb, ◌&&◌, ◌-◌, ◌*◌, ◌/◌, if◌then◌else◌,
  text_eq, text_discrete,
}
use dona.Exec.{Result, ok, err, and_then}
use dona.Scheduler.Calendar.{
  ScheduleError, invalid_definition, invalid_creation_time, LocalDate, LocalTime, day_ms,
  day_number, civil,
}
use dona.Scheduler.Timezone.{Zone, timezone_name, local_identity}

-- The fields that every rule but `once` has.
pub record Common : Type 0 where
  pub start_date : LocalDate
  pub local_time : LocalTime
  pub timezone : String
  pub tzdb_version : String

pub data Recurrence : Type 0 where
  once : ℕ → Recurrence
  daily : Common → ℕ → Recurrence
  weekly : Common → ℕ → List ℕ → Recurrence
  monthly : Common → ℕ → ℕ → Recurrence

abbrev pub common_of : Recurrence → Option Common
common_of (once at) = none
common_of (daily c interval) = some c
common_of (weekly c interval weekdays) = some c
common_of (monthly c interval day) = some c

-- A target by its workspace and channel, and a thread or an owner.
pub data Target : Type 0 where
  thread : String → String → String → Target
  channel : String → String → Target
  owner_dm : String → String → String → Target

-- A reminder has a body, a piece of work has an objective.
pub data ScheduleAction : Type 0 where
  reminder : Target → String → ScheduleAction
  work : String → Option Target → ScheduleAction

-- `POLICY_V1.limits`, which is the policy of every definition.
abbrev pub preview_count : ℕ
preview_count = 100

abbrev pub preview_days : ℕ
preview_days = 366

pub record ScheduleDefinition : Type 0 where
  pub schedule_id : String
  pub revision : ℕ
  pub tenant_id : String
  pub owner_id : String
  pub action : ScheduleAction
  pub recurrence : Recurrence

abbrev destination : ScheduleAction → Option Target
destination (reminder target body) = some target
destination (work objective target) = target

unfoldable is_own : ScheduleDefinition → Option Target → Bool
unfolding text_discrete
is_own d none = true
is_own d (some (thread workspace channel_id thread_ts)) = text_eq workspace d.tenant_id
is_own d (some (channel workspace channel_id)) = text_eq workspace d.tenant_id
is_own d (some (owner_dm workspace channel_id owner)) =
    text_eq workspace d.tenant_id && text_eq owner d.owner_id

-- `parseDefinition`, of an input that matches the schema.
unfoldable pub parse_definition : ScheduleDefinition → Result ScheduleError ScheduleDefinition
unfolding is_own
parse_definition d = if is_own d (destination d.action) then ok d else err invalid_definition

-- At most 366 days ahead: the first test is on the instant of `once`, the second on a start date.
abbrev in_a_year : ℕ → ℕ → Bool
in_a_year now at = ltb now at && leb (at - now) (366 * day_ms)

abbrev starts_in_a_year : ℕ → ℕ → Bool
starts_in_a_year today start = leb today start && leb (start - today) 366

module _ (zones : String → Option Zone) where
  -- Whether a definition may be made now.
  unfoldable pub is_timely : ℕ → Recurrence → Result ScheduleError Bool
  unfolding timezone_name local_identity day_number civil
  is_timely now recurrence = elim (common_of recurrence) [
    | none ↦ ok (in_a_year now (instant_of recurrence))
    | some c ↦ and_then (timezone_name zones c.timezone c.tzdb_version) λ _.
        and_then (local_identity zones now c.timezone) λ local.
          ok (starts_in_a_year (day_number (civil (local / day_ms))) (day_number c.start_date))
  ]
    where
      instant_of : Recurrence → ℕ
      instant_of (once at) = at
      instant_of r = 0

  unfoldable pub validate_creation :
      ScheduleDefinition → ℕ → Result ScheduleError ScheduleDefinition
  unfolding parse_definition is_timely
  validate_creation input now = and_then (parse_definition input) λ definition.
      and_then (is_timely now definition.recurrence)
        λ timely. if timely then ok definition else err invalid_creation_time
