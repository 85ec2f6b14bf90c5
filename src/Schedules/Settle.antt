-- ===== src/Schedules/Settle.antt =====
-- dispatcher/src/scheduler/repository.ts: what ends a schedule's open work: suppression, the
-- completion of a schedule that is drained, and expiry.
use dona.Prelude.{
  ℕ, String, Bool, true, false, ◌&&◌, List, [], ◌∷◌, Option, none, some, is_none, is_some, find?,
  update_where, select_where, text_eq, text_discrete, ◌+◌, ◌*◌, min, opt_is,
}
use dona.Exec.{pure, gets, modify, ◌>>=◌, ◌>>◌}
use dona.Dispatcher.Events.{EventStatus, EventRow}
use dona.Schedules.Rows.{
  Run, RunStatus, Reason, Outbox, OutboxStatus, NotificationPhase, CompletionState,
  CompletionResult, Tables,
}
use dona.Schedules.Store.{
  Db, or_else, week, required, outbox_is, get_run, revision_of, audit_outbox, update_outbox,
  update_runs, run_is,
}

-- `status IN ('pending','claimed')`
abbrev pub is_unsent : OutboxStatus → Bool
is_unsent OutboxStatus.pending = true
is_unsent OutboxStatus.claimed = true
is_unsent s = false

abbrev pub is_ending : OutboxStatus → Bool
is_ending OutboxStatus.cancelled = true
is_ending OutboxStatus.request_started = true
is_ending s = false

abbrev is_written : OutboxStatus → Bool
is_written OutboxStatus.request_started = true
is_written OutboxStatus.needs_review = true
is_written OutboxStatus.sent = true
is_written s = false

abbrev pub is_open : OutboxStatus → Bool
is_open OutboxStatus.pending = true
is_open OutboxStatus.claimed = true
is_open OutboxStatus.request_started = true
is_open OutboxStatus.needs_review = true
is_open s = false

abbrev pub is_materialized : RunStatus → Bool
is_materialized RunStatus.materialized = true
is_materialized s = false

abbrev is_cancelled_run : RunStatus → Bool
is_cancelled_run RunStatus.cancelled = true
is_cancelled_run s = false

abbrev pub is_unresolved : RunStatus → Bool
is_unresolved RunStatus.materialized = true
is_unresolved RunStatus.started = true
is_unresolved RunStatus.needs_review = true
is_unresolved s = false

-- Whether the run of this id belongs to the schedule.
abbrev belongs : String → Option Run → Bool
belongs id none = false
belongs id (some run) = text_eq run.schedule_id id

unfoldable pub of_schedule : String → List Run → String → Bool
unfolding text_discrete
of_schedule id runs run_id = belongs id (find? (run_is run_id) runs)

unfoldable pub unsent_of : String → List Run → Outbox → Bool
unfolding of_schedule
unsent_of id runs o = of_schedule id runs o.run_id && is_unsent o.status

abbrev pub withdrawn : ℕ → Outbox → Outbox
withdrawn now o = record o {
  status = OutboxStatus.cancelled;
  terminal_at = some now;
  content_delete_at = some (now + week);
  updated_at = now;
  claim_token = none;
  lease_until = none;
}

abbrev pub delete_by : ℕ → Outbox → Outbox
delete_by deadline o = record o {
  content_delete_at = some (min (or_else o.content_delete_at deadline) deadline);
}

-- The content of what has ended goes a week after its authorization's expiry at the latest.
unfoldable pub shorten : List Outbox → Db Unit
unfolding get_run revision_of update_outbox
shorten [] = pure tt
shorten (row ∷ rows) = do
  found_run ← gets (get_run row.run_id)
  run ← required found_run
  found ← gets (revision_of run.schedule_id run.revision)
  revision ← required found
  update_outbox (outbox_is row.outbox_id) (delete_by (revision.expires_at + week))
  shorten rows

unfoldable ending_of : String → List Run → Outbox → Bool
unfolding of_schedule
ending_of id runs o = of_schedule id runs o.run_id && is_ending o.status

unfoldable pub shorten_if : Reason → String → Db Unit
unfolding shorten ending_of
shorten_if Reason.authorization_expired id = do
  expiring ← gets λ s. select_where (ending_of id s.runs) s.outbox
  shorten expiring
shorten_if reason id = pure tt

abbrev is_written_for : Run → Outbox → Bool
is_written_for run o = text_eq o.run_id run.run_id && is_written o.status

unfoldable pub is_withdrawable : String → List Outbox → Run → Bool
unfolding text_discrete
is_withdrawable id outbox run =
    text_eq run.schedule_id id
    && is_materialized run.status
    && is_none (find? (is_written_for run) outbox)

abbrev pub cancelled_run : Reason → ℕ → Run → Run
cancelled_run reason now run = record run {
  status = RunStatus.cancelled;
  reason = some reason;
  terminal_at = some now;
}

abbrev is_suppressible : EventStatus → Bool
is_suppressible EventStatus.queued = true
is_suppressible EventStatus.retryable_failed = true
is_suppressible EventStatus.dispatching = true
is_suppressible EventStatus.waiting_agent = true
is_suppressible EventStatus.blocked = true
is_suppressible s = false

abbrev pub is_resting : EventStatus → Bool
is_resting EventStatus.queued = true
is_resting EventStatus.retryable_failed = true
is_resting EventStatus.blocked = true
is_resting s = false

-- The event that a cancelled run without a job asked for.
abbrev is_dropped_run : String → EventRow → Run → Bool
is_dropped_run id e run =
    text_eq run.schedule_id id
    && is_cancelled_run run.status
    && is_none run.job_id
    && opt_is e.event_id run.event_id

unfoldable is_dropped_event : String → List Run → EventRow → Bool
unfolding text_discrete
is_dropped_event id runs e =
    is_some (find? (is_dropped_run id e) runs)
    && text_eq e.source "dona_schedule"
    && is_suppressible e.status

abbrev pub event_done : String → ℕ → EventRow → EventRow
event_done code now e = record e {
  status = EventStatus.completed;
  completed_at = some (1000 * now);
  updated_at = 1000 * now;
  last_error_code = some code;
  last_error_message = none;
}

abbrev is_pending_notice : CompletionState → Bool
is_pending_notice CompletionState.pending = true
is_pending_notice s = false

abbrev is_no_phase : NotificationPhase → Bool
is_no_phase NotificationPhase.no_phase = true
is_no_phase s = false

abbrev drops_notice : String → CompletionResult → Bool
drops_notice id c =
    text_eq c.owner_schedule_id id
    && is_pending_notice c.notification_state
    && is_no_phase c.notification_authorization_phase

abbrev is_dropped_notice : String → EventRow → CompletionResult → Bool
is_dropped_notice id e c = opt_is e.event_id c.notification_event_id && drops_notice id c

unfoldable is_dropped_notification : String → List CompletionResult → EventRow → Bool
unfolding text_discrete
is_dropped_notification id completions e =
    is_some (find? (is_dropped_notice id e) completions)
    && text_eq e.source "dona_job"
    && is_resting e.status

abbrev pub is_completed_event : EventStatus → Bool
is_completed_event EventStatus.completed = true
is_completed_event s = false

abbrev pub is_suppressed_event : CompletionResult → EventRow → Bool
is_suppressed_event c e =
    opt_is e.event_id c.notification_event_id
    && is_completed_event e.status
    && opt_is "schedule_notification_suppressed" e.last_error_code

unfoldable is_settled_notice : String → List EventRow → CompletionResult → Bool
unfolding text_discrete
is_settled_notice id events c = drops_notice id c && is_some (find? (is_suppressed_event c) events)

abbrev pub without_notice : CompletionResult → CompletionResult
without_notice c = record c { notification_state = CompletionState.no_notification }

unfoldable pub update_events : (EventRow → Bool) → (EventRow → EventRow) → Db Unit
update_events p f = modify λ s. record s { events = update_where p f s.events }

unfoldable pub update_completions :
    (CompletionResult → Bool) → (CompletionResult → CompletionResult) → Db Unit
update_completions p f = modify λ s. record s { completions = update_where p f s.completions }

abbrev pub outbox_reason : Reason → String
outbox_reason Reason.revision_replaced = "outbox_revision_replaced"
outbox_reason Reason.authorization_expired = "outbox_authorization_expired"
outbox_reason Reason.misfire = "outbox_misfire"
outbox_reason Reason.overlap = "outbox_overlap"
outbox_reason Reason.ambiguous_write = "outbox_ambiguous_write"
outbox_reason Reason.cancelled = "outbox_cancelled"

unfoldable pub audit_each : List Outbox → String → ℕ → Db Unit
unfolding audit_outbox
audit_each [] operation now = pure tt
audit_each (row ∷ rows) operation now =
    audit_outbox row operation now none none >> audit_each rows operation now

-- The events and the notifications of a suppressed schedule.
unfoldable pub suppress_events : String → ℕ → Db Unit
unfolding update_events update_completions is_dropped_event is_dropped_notification
    is_settled_notice
suppress_events id now = do
  runs ← gets Tables.runs
  update_events (is_dropped_event id runs) (event_done "schedule_suppressed" now)
  completions ← gets Tables.completions
  update_events (is_dropped_notification id completions)
      (event_done "schedule_notification_suppressed" now)
  events ← gets Tables.events
  update_completions (is_settled_notice id events) without_notice

unfoldable pub suppress : String → ℕ → Reason → Db Unit
unfolding unsent_of update_outbox shorten_if is_withdrawable update_runs suppress_events audit_each
suppress id now reason = do
  runs ← gets Tables.runs
  suppressed ← gets λ s. select_where (unsent_of id s.runs) s.outbox
  update_outbox (unsent_of id runs) (withdrawn now)
  shorten_if reason id
  outbox ← gets Tables.outbox
  update_runs (is_withdrawable id outbox) (cancelled_run reason now)
  suppress_events id now
  audit_each suppressed (outbox_reason reason) now
