-- ===== src/Updater/Rows.antt =====
-- The rows of the updater's database: updater/src/types.ts and the schema of
-- updater/src/database.ts. A time is its milliseconds since the epoch: the ISO texts of the columns
-- are ordered as their times. A `*_json` column holds the value whose canonical text it is.
use dona.Prelude.{
  ℕ, String, Bool, true, false, not, Option, none, some, is_yes, text_discrete, text_eq,
}
use dona.Updater.State.{UpdateState}
use native.Mathlib.Decide.{ℕ_discrete}

pub record ReplyTarget : Type 0 where
  pub workspace_id : String
  pub channel_id : String
  pub thread_ts : String

pub record Compatibility : Type 0 where
  pub protocol : ℕ
  pub config : ℕ
  pub app_schema_read_min : ℕ
  pub app_schema_read_max : ℕ
  pub app_schema_write : ℕ
  pub rollback_safe : Bool

pub record CompatibilityTransition : Type 0 where
  pub from_sha : String
  pub from : Compatibility
  pub to : Compatibility
  pub previous_release_contract : String
  pub required_control_plane_capability : String

unfoldable pub target_discrete : Discrete ReplyTarget
unfolding text_discrete
target_discrete = hlevel text_discrete

unfoldable pub compatibility_discrete : Discrete Compatibility
unfolding ℕ_discrete
compatibility_discrete = hlevel ℕ_discrete

unfoldable pub transition_discrete : Discrete (Option CompatibilityTransition)
unfolding text_discrete ℕ_discrete
transition_discrete = hlevel (text_discrete, ℕ_discrete)

abbrev pub target_eq : ReplyTarget → ReplyTarget → Bool
target_eq s t = is_yes (target_discrete s t)

pub record UpdateRow : Type 0 where
  pub request_id : String
  pub source_event_id : String
  pub reply_target_json : ReplyTarget
  pub state : UpdateState
  pub current_sha : String
  pub target_sha : String
  pub previous_sha : Option String
  pub plan_id : String
  pub plan_hash : String
  pub policy_version : String
  pub compatibility_json : Compatibility
  pub transition_json : Option CompatibilityTransition
  pub rollback_compatible : Bool
  pub approval_id : Option String
  pub approval_event_id : Option String
  pub attempt : ℕ
  pub activation_generation : ℕ
  pub restart_attempts : ℕ
  pub lease_owner : Option String
  pub lease_expires_at : Option ℕ
  pub fence : ℕ
  pub cancellation_requested : Bool
  pub cancellation_event_id : Option String
  pub last_error_code : Option String
  pub last_error_message : Option String
  pub created_at : ℕ
  pub updated_at : ℕ
  pub completed_at : Option ℕ
  pub reconcile_after : Option ℕ
  pub reconcile_deadline : Option ℕ
  pub last_reconciled_at : Option ℕ
  pub observed_active_sha : Option String

-- A text in a JavaScript condition: null and the empty text are false.
abbrev pub truthy : Option String → Bool
truthy none = false
truthy (some s) = not (text_eq s "")

pub data OutboxStatus : Type 0 where
  pending delivering delivered needs_review : OutboxStatus

unfoldable pub outbox_status_discrete : Discrete OutboxStatus
outbox_status_discrete = hlevel

abbrev pub outbox_status_eq : OutboxStatus → OutboxStatus → Bool
outbox_status_eq s t = is_yes (outbox_status_discrete s t)

-- `out_<request>_<fence>` and `update:<request>:terminal:<fence>` name a terminal state of a request
-- by the same two values.
pub record TerminalKey : Type 0 where
  pub request_id : String
  pub fence : ℕ

unfoldable pub key_discrete : Discrete TerminalKey
unfolding text_discrete ℕ_discrete
key_discrete = hlevel (text_discrete, ℕ_discrete)

abbrev pub key_eq : TerminalKey → TerminalKey → Bool
key_eq s t = is_yes (key_discrete s t)

-- The notification that the dispatcher gets.
pub record TerminalPayload : Type 0 where
  pub external_event_id : TerminalKey
  pub update_status : UpdateState
  pub occurred_at : ℕ
  pub request_id : String
  pub current_sha : String
  pub target_sha : String
  pub previous_sha : Option String
  pub plan_hash : String
  pub policy_version : String
  pub rollback_compatible : Bool
  pub active_sha : Option String
  pub error : Option (String × Option String)
  pub reply_target : ReplyTarget

pub record OutboxRow : Type 0 where
  pub outbox_id : TerminalKey
  pub request_id : String
  pub external_event_id : TerminalKey
  pub payload_json : TerminalPayload
  pub status : OutboxStatus
  pub attempt_count : ℕ
  pub last_error : Option String
  pub created_at : ℕ
  pub updated_at : ℕ
  pub dispatcher_event_id : Option String
  pub dispatcher_accepted_at : Option ℕ
  pub slack_reported_at : Option ℕ
  pub next_attempt_at : Option ℕ
  pub superseded_by_outbox_id : Option TerminalKey

-- What an entry of the audit says besides its columns.
pub data Details : Type 0 where
  bare : Details
  plan_details : (current_sha target_sha plan_hash : String) → Details
  approval_details : (approval_event_id : String) → Details
  claim_details : (lease_owner : String) → Details
  rollback_details : (plan_hash : String) → Details
  other_details : String → Details

pub record AuditRow : Type 0 where
  pub request_id : String
  pub from_state : Option UpdateState
  pub to_state : UpdateState
  pub fence : ℕ
  pub code : String
  pub details : Details
  pub occurred_at : ℕ

pub data RuntimeOperationKind : Type 0 where
  stop_main_agent stop_slack stop_dispatcher start_target_main_agent start_target_dispatcher
        start_target_slack restart_current_dispatcher restart_current_slack
        restart_target_dispatcher_after_drain restart_target_slack_after_drain
        restart_target_main_agent_after_drain stop_target_slack stop_target_dispatcher
        stop_target_main_agent start_previous_main_agent start_previous_dispatcher
        start_previous_slack legacy_confirmation :
      RuntimeOperationKind

unfoldable pub kind_discrete : Discrete RuntimeOperationKind
kind_discrete = hlevel

abbrev pub kind_eq : RuntimeOperationKind → RuntimeOperationKind → Bool
kind_eq s t = is_yes (kind_discrete s t)

pub data RuntimeOperationPhase : Type 0 where
  prepared accepted observed rejected acceptance_unknown : RuntimeOperationPhase

abbrev pub is_observed : RuntimeOperationPhase → Bool
is_observed observed = true
is_observed _ = false

-- The key `runtime:<request>:<kind>` is the pair of `request_id` and `kind`.
pub record RuntimeOperationRow : Type 0 where
  pub request_id : String
  pub fence : ℕ
  pub kind : RuntimeOperationKind
  pub phase : RuntimeOperationPhase
  pub target_ref : String
  pub expected_sha : Option String
  pub previous_session_id : Option String
  pub observed_session_id : Option String
  pub evidence_json : String
  pub created_at : ℕ
  pub updated_at : ℕ

pub record WriterLease : Type 0 where
  pub owner_token : String
  pub owner_pid : ℕ
  pub acquired_at : ℕ

pub data CaptureState : Type 0 where
  capturing complete truncated write_failed purged : CaptureState

unfoldable pub capture_state_discrete : Discrete CaptureState
capture_state_discrete = hlevel

abbrev pub capture_state_eq : CaptureState → CaptureState → Bool
capture_state_eq s t = is_yes (capture_state_discrete s t)

-- A capture as the log writer reports it.
pub record DiagnosticLogCapture : Type 0 where
  pub log_id : String
  pub request_id : String
  pub attempt : ℕ
  pub step : String
  pub relative_ref : Option String
  pub byte_size : ℕ
  pub content_sha256 : Option String
  pub capture_state : CaptureState
  pub error_code : Option String
  pub created_at : ℕ
  pub finalized_at : ℕ

pub record DiagnosticLogRow : Type 0 where
  pub log_id : String
  pub request_id : String
  pub attempt : ℕ
  pub step : String
  pub relative_ref : Option String
  pub byte_size : ℕ
  pub content_sha256 : Option String
  pub capture_state : CaptureState
  pub error_code : Option String
  pub created_at : ℕ
  pub finalized_at : Option ℕ
  pub purged_at : Option ℕ
