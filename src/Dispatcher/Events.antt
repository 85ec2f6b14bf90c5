-- ===== src/Dispatcher/Events.antt =====
-- dispatcher/src/types.ts and database.ts: an event of the queue, the tables, and what its methods
-- ask of the tables of jobs and schedules. A time is its count of milliseconds, a column of JSON
-- its text.
use dona.Prelude.{
  ℕ, String, Bool, false, ◌||◌, List, [], ◌∷◌, Option, none, some, find?, update_where, count_where,
  text_eq, text_discrete, is_yes, ◌==◌,
}
use dona.Exec.{Exec, Result, raise, pure, gets, modify, require, ◌>>=◌, ◌>>◌}

pub data EventStatus : Type 0 where
  queued : EventStatus
  dispatching : EventStatus
  waiting_agent : EventStatus
  completed : EventStatus
  retryable_failed : EventStatus
  blocked : EventStatus
  needs_review : EventStatus
  dead_letter : EventStatus

unfoldable pub status_discrete : Discrete EventStatus
status_discrete = hlevel

pub record EventRow : Type 0 where
  pub sequence : ℕ
  pub event_id : String
  pub schema_version : ℕ
  pub source : String
  pub external_event_id : String
  pub event_type : String
  pub occurred_at : ℕ
  pub subject_json : String
  pub payload_json : String
  pub reply_target_json : Option String
  pub trace_json : Option String
  pub status : EventStatus
  pub attempt_count : ℕ
  pub available_at : ℕ
  pub dispatch_started_at : Option ℕ
  pub prompt_accepted_at : Option ℕ
  pub completed_at : Option ℕ
  pub result_json : Option String
  pub result_path : Option String
  pub last_error_code : Option String
  pub last_error_message : Option String
  pub created_at : ℕ
  pub updated_at : ℕ
  pub schedule_access_checked_at : Option ℕ
  pub schedule_access_consumed_at : Option ℕ

pub data Fault : Type 0 where
  event_not_found : String → Fault
  not_dispatchable : String → Fault
  not_dispatching : String → Fault
  invalid_transition : String → EventStatus → Fault
  other_fault : String → Fault

-- The tables: the events in the order of their sequence, and the rest.
pub record Tables (X : Type 0) : Type 0 where
  pub events : List EventRow
  pub others : X

-- The state that a notification of a scheduled job gets.
pub data NotificationState : Type 0 where
  notify_none : NotificationState
  notify_accepted : NotificationState
  notify_failed : NotificationState
  notify_needs_review : NotificationState

-- A row of the query for notifications that are no longer authorized.
pub record Unauthorized : Type 0 where
  pub event_id : String
  pub schedule_id : String
  pub status_seen : EventStatus
  pub review_asked : Bool
  pub write_allowed : Bool

-- What the methods on events ask of the tables of job groups, job results and schedules: the
-- statements there, and the query that joins them with the events.
pub record Others (X : Type 0) : Type 0 where
  pub seal_job_group : String → ℕ → X → X
  pub seal_dispatching : List EventRow → ℕ → X → X
  pub settle_work_event : String → NotificationState → ℕ → Exec Fault X Unit
  pub set_notification : String → NotificationState → ℕ → Exec Fault X Unit
  pub complete_if_drained : String → ℕ → Exec Fault X Unit
  pub unauthorized : ℕ → List EventRow → X → List Unauthorized
  pub notifications_of : List EventRow → X → List String

abbrev pub is_in : List EventStatus → EventStatus → Bool
is_in [] s = false
is_in (t ∷ ts) s = is_yes (status_discrete s t) || is_in ts s

abbrev pub has_id : String → EventRow → Bool
has_id id r = text_eq r.event_id id

module _ {X : Type 0} where
  abbrev pub put_others : List EventRow → Result Fault Unit × X → Result Fault Unit × Tables X
  put_others events (r, x) = (r, record { events = events; others = x })

  -- A call of a method on the other tables.
  unfoldable pub in_others : Exec Fault X Unit → Exec Fault (Tables X) Unit
  in_others m s = put_others s.events (m s.others)

  unfoldable pub get : String → Tables X → Option EventRow
  unfolding text_discrete
  get id s = find? (has_id id) s.events

  abbrev pub or_missing : String → Option EventRow → Exec Fault (Tables X) EventRow
  or_missing id none = raise (event_not_found id)
  or_missing id (some r) = pure r

  unfoldable pub get_required : String → Exec Fault (Tables X) EventRow
  unfolding get
  get_required id = do row ← gets (get id); or_missing id row

  -- `UPDATE events SET … WHERE …`.
  unfoldable pub update_events :
      (EventRow → Bool) → (EventRow → EventRow) → Exec Fault (Tables X) Unit
  update_events p f = modify λ s. record s { events = update_where p f s.events }

  -- The same, and an error unless one row changed.
  unfoldable pub update_one :
      (EventRow → Bool) → (EventRow → EventRow) → Fault → Exec Fault (Tables X) Unit
  unfolding update_events
  update_one p f e = do
    changed ← gets (λ s. count_where p s.events)
    update_events p f
    require (changed == 1) e
