-- ===== src/Schedules/Rows.antt =====
-- dispatcher/src/scheduler/repository.ts and schema.ts: the rows of the scheduler's tables. A time
-- is its count of seconds, a column of JSON the value that it holds.
use dona.Prelude.{ℕ, String, Bool, List, Option}
use dona.Dispatcher.Events.{EventRow}

pub data ScheduleState : Type 0 where
  active : ScheduleState
  paused : ScheduleState
  expired : ScheduleState
  needs_review : ScheduleState
  cancelled : ScheduleState
  completed : ScheduleState

pub data Action : Type 0 where
  reminder_post : Action
  work_read_only : Action

pub data Target : Type 0 where
  no_target : Target
  thread : String → String → String → Target
  channel : String → String → Target
  owner_dm : String → String → String → Target

pub data RunStatus : Type 0 where
  materialized : RunStatus
  started : RunStatus
  completed : RunStatus
  failed : RunStatus
  cancelled : RunStatus
  skipped : RunStatus
  needs_review : RunStatus

pub data Reason : Type 0 where
  misfire : Reason
  overlap : Reason
  authorization_expired : Reason
  cancelled : Reason
  revision_replaced : Reason
  ambiguous_write : Reason

pub data OutboxKind : Type 0 where
  reminder : OutboxKind
  work_result : OutboxKind

pub data OutboxStatus : Type 0 where
  pending : OutboxStatus
  claimed : OutboxStatus
  request_started : OutboxStatus
  sent : OutboxStatus
  failed : OutboxStatus
  cancelled : OutboxStatus
  needs_review : OutboxStatus

pub data Role : Type 0 where
  owner : Role
  admin : Role

pub record Actor : Type 0 where
  pub tenant_id : String
  pub actor_id : String
  pub role : Role
  pub source_event_id : Option String

pub record Schedule : Type 0 where
  pub schedule_id : String
  pub tenant_id : String
  pub owner_id : String
  pub state : ScheduleState
  pub revision : ℕ
  pub next_due : Option ℕ
  pub high_watermark : Option ℕ
  pub created_at : ℕ
  pub updated_at : ℕ
  pub terminal_at : Option ℕ
  pub list_sequence : ℕ
  pub idempotency_key_hash : Option String
  pub create_payload_hash : String

-- A row of `schedule_claims`.
pub record Claim : Type 0 where
  pub schedule_id : String
  pub claim_owner : Option String
  pub claim_until : Option ℕ
  pub claim_fence : ℕ

-- `recurrence_json`: its text, and whether its `kind` is "once".
pub record RecurrenceJson : Type 0 where
  pub text : String
  pub is_once : Bool

pub record Revision : Type 0 where
  pub schedule_id : String
  pub revision : ℕ
  pub recurrence_json : RecurrenceJson
  pub recurrence_hash : String
  pub policy_json : String
  pub policy_version : ℕ
  pub timezone : Option String
  pub tzdb_version : Option String
  pub authorization_id : String
  pub authorization_revision : ℕ
  pub content_scope : String
  pub approver_id : String
  pub approved_at : ℕ
  pub expires_at : ℕ
  pub action : Action
  pub target_json : Target
  pub content : Option String
  pub content_hash : String
  pub content_delete_at : Option ℕ
  pub created_at : ℕ
  pub terminal_at : Option ℕ

pub record Run : Type 0 where
  pub run_id : String
  pub schedule_id : String
  pub revision : ℕ
  pub occurrence_key : String
  pub scheduled_for : ℕ
  pub status : RunStatus
  pub reason : Option Reason
  pub event_id : Option String
  pub job_id : Option String
  pub created_at : ℕ
  pub started_at : Option ℕ
  pub terminal_at : Option ℕ

pub record Outbox : Type 0 where
  pub outbox_id : String
  pub run_id : String
  pub kind : OutboxKind
  pub idempotency_key : String
  pub target_json : Target
  pub content : Option String
  pub content_hash : String
  pub status : OutboxStatus
  pub attempt : ℕ
  pub available_at : ℕ
  pub claim_token : Option String
  pub lease_until : Option ℕ
  pub request_started_at : Option ℕ
  pub receipt_id : Option String
  pub created_at : ℕ
  pub updated_at : ℕ
  pub terminal_at : Option ℕ
  pub content_delete_at : Option ℕ
  pub completion_job_status : Option String

pub record CompactSkip : Type 0 where
  pub from_time : ℕ
  pub through : ℕ
  pub count : ℕ

-- `before_json` and `after_json`.
pub record AuditBefore : Type 0 where
  pub row : Schedule
  pub revision : Revision

pub record AuditAfter : Type 0 where
  pub row : Schedule
  pub snapshot : Revision
  pub content_hash : String
  pub compact_skip : Option CompactSkip
  pub decision_code : Option String
  pub run : Option Run
  pub outbox : Option Outbox

pub record Audit : Type 0 where
  pub schedule_id : String
  pub revision : ℕ
  pub tenant_id : String
  pub actor_id : String
  pub source_event_id : Option String
  pub operation : String
  pub before_json : Option AuditBefore
  pub after_json : AuditAfter
  pub created_at : ℕ

-- The rows of other parts that the repository reads and writes.
pub record Job : Type 0 where
  pub job_id : String
  pub source_event_id : String
  pub status : String

pub data NotificationPhase : Type 0 where
  no_phase : NotificationPhase
  preflight : NotificationPhase
  write : NotificationPhase

pub data CompletionState : Type 0 where
  no_notification : CompletionState
  pending : CompletionState
  accepted : CompletionState
  failed : CompletionState
  needs_review : CompletionState

-- `job_completion_results`, its owner by the schedule and the run.
pub record CompletionResult : Type 0 where
  pub notification_event_id : Option String
  pub owner_schedule_id : String
  pub owner_run_id : String
  pub notification_state : CompletionState
  pub notification_authorization_phase : NotificationPhase

-- `event_job_bindings` of a scheduled run: its owner and its destination.
pub record Binding : Type 0 where
  pub event_id : String
  pub tenant_id : String
  pub owner_id : String
  pub schedule_id : String
  pub run_id : String
  pub revision : ℕ
  pub destination : Target

pub record Tables : Type 0 where
  pub schedules : List Schedule
  pub next_value : ℕ
  pub claims : List Claim
  pub revisions : List Revision
  pub runs : List Run
  pub outbox : List Outbox
  pub audit : List Audit
  pub events : List EventRow
  pub jobs : List Job
  pub completions : List CompletionResult
  pub bindings : List Binding
  pub uuids_drawn : ℕ
