-- ===== src/Schedules/Settlement.antt =====
-- dispatcher/src/scheduler/repository.ts: `finishWrite` and the calls around it.
use dona.Prelude.{
  ℕ, String, Bool, true, not, ◌&&◌, ◌||◌, List, ◌∷◌, Option, none, some, is_some, text_eq,
  text_discrete, leb, ◌==◌, ◌+◌, ◌-◌, if◌then◌else◌, opt_is,
}
use dona.Exec.{pure, gets, require, transaction, ◌>>=◌, ◌>>◌}
use dona.Schedules.Rows.{
  ScheduleState, Schedule, Revision, Run, RunStatus, Reason, Outbox, OutboxStatus,
}
use dona.Schedules.Store.{
  Db, or_else, latest, required, or_throw, schedule_is, outbox_is, run_is, get, get_run,
  revision_of, get_outbox, audit_outbox, retire_revisions, update_outbox, update_runs,
  update_schedules, system_actor,
}
use dona.Schedules.Settle.{suppress}
use dona.Schedules.Drain.{
  is_active, is_paused, complete_if_drained, expire_schedule, schedule_times,
}
use dona.Schedules.Outboxes.{
  is_reminder, is_sendable_run, ended_run, expire_unsent, mark_ambiguous, is_started,
}
use dona.Schedules.Receipts.{is_receipt, decision_code}
use dona.Schedules.Finish.{
  Outcome, ambiguous, is_sent, is_unavailable, is_authorization_unavailable, is_revoked, is_misfire,
  outcome_text, is_authorized, retry_delay, retries, outcome_status, settled_row,
}

-- What `finishWrite` has read.
pub record Turn : Type 0 where
  pub row : Outbox
  pub run : Run
  pub schedule : Schedule
  pub snapshot : Revision
  pub now : ℕ
  pub at : ℕ

abbrev pub given_back : Outbox → Outbox
given_back o = record o { attempt = o.attempt - 1 }

abbrev pub same_authorization : Revision → Revision → Bool
same_authorization a b =
    text_eq a.authorization_id b.authorization_id
    && a.authorization_revision == b.authorization_revision

abbrev pub paused_schedule : ℕ → Schedule → Schedule
paused_schedule at r = record r { state = ScheduleState.paused; updated_at = at }

abbrev pub active_schedule : String → Schedule → Bool
active_schedule id r = schedule_is id r && is_active r.state

abbrev pub is_current : ScheduleState → Bool
is_current s = is_active s || is_paused s

-- The schedule of a revoked authorization is paused, and its work suppressed.
unfoldable pub pause_revoked : Schedule → Revision → String → ℕ → Db Unit
unfolding revision_of update_schedules suppress retire_revisions text_discrete
pause_revoked schedule snapshot id at = do
  found ← gets (revision_of schedule.schedule_id schedule.revision)
  current ← required found
  if same_authorization snapshot current && is_current schedule.state
      then update_schedules (active_schedule id) (paused_schedule at)
        >> (suppress id at Reason.cancelled >> retire_revisions id at (some schedule.revision))
      else pure tt

abbrev pub cancelled_row : Outbox → Outbox
cancelled_row o = record o { status = OutboxStatus.cancelled }

unfoldable pub skip_run : Turn → Db Unit
unfolding update_outbox update_runs text_discrete
skip_run t = do
  update_outbox (outbox_is t.row.outbox_id) cancelled_row
  update_runs (run_is t.run.run_id) (ended_run RunStatus.skipped (some Reason.misfire) t.at)

unfoldable pub authorized_turn : Turn → Bool
unfolding is_authorized
authorized_turn t = is_authorized t.row t.run t.schedule t.snapshot t.now

unfoldable pub retry_turn : Outcome → ℕ → Turn → Bool
unfolding retries authorized_turn
retry_turn outcome after t =
    retries outcome t.row t.run (authorized_turn t) (t.now + retry_delay after t.row)

abbrev pub when : Bool → Db Unit → Db Unit
when b m = if b then m else pure tt

abbrev pub loses_authorization : Outcome → Bool → Turn → Bool
loses_authorization outcome retry t =
    is_revoked outcome
    || is_authorization_unavailable outcome && is_active t.schedule.state && not retry

-- The branch of every outcome but an ambiguous one.
unfoldable pub settle : Outcome → Option String → ℕ → Turn → Db Unit
unfolding update_outbox authorized_turn retry_turn outcome_status settled_row pause_revoked skip_run
    text_discrete
settle outcome receipt after t = do
  require (not (is_sent outcome) || is_some receipt) "receipt_required"
  let retry = retry_turn outcome after t
  let status = outcome_status outcome retry (authorized_turn t)
  update_outbox (outbox_is t.row.outbox_id)
      (settled_row status retry (t.now + retry_delay after t.row) receipt t.at)
  when (is_unavailable outcome && retry) (update_outbox (outbox_is t.row.outbox_id) given_back)
  when (loses_authorization outcome retry t)
      (pause_revoked t.schedule t.snapshot t.run.schedule_id t.at)
  when (is_misfire outcome && authorized_turn t) (skip_run t)

abbrev pub final_run_status : OutboxStatus → RunStatus
final_run_status OutboxStatus.sent = RunStatus.completed
final_run_status OutboxStatus.cancelled = RunStatus.cancelled
final_run_status s = RunStatus.failed

abbrev pub final_run_reason : OutboxStatus → Option Reason
final_run_reason OutboxStatus.cancelled = some Reason.cancelled
final_run_reason s = none

abbrev pub sendable_run : String → Run → Bool
sendable_run id run = run_is id run && is_sendable_run run.status

abbrev pub outcome_operation : Outcome → Bool → String
outcome_operation outcome authorized =
    if is_misfire outcome && not authorized then "outbox_cancelled" else outcome_text outcome

abbrev pub code_of : Option String → Option String
code_of none = none
code_of (some code) = if text_eq code "" then none else some (decision_code code)

-- The run of a reminder ends with its row, and the outcome is audited.
unfoldable pub end_turn : Outcome → Option String → Turn → Db Unit
unfolding get_outbox expire_unsent update_runs authorized_turn audit_outbox decision_code
    text_discrete
end_turn outcome code t = do
  found ← gets (get_outbox t.row.outbox_id t.at)
  row ← required found
  _ ← expire_unsent row t.at (some t.now)
  found_final ← gets (get_outbox t.row.outbox_id t.at)
  final ← required found_final
  when (is_reminder t.row.kind && is_some final.terminal_at) (
      update_runs (sendable_run t.row.run_id)
        (ended_run (final_run_status final.status) (final_run_reason final.status) t.at))
  audit_outbox t.row (outcome_operation outcome (authorized_turn t)) t.at (some t.schedule)
      (code_of code)

unfoldable pub write_outcome : Outcome → Option String → ℕ → Option String → Turn → Db Unit
unfolding mark_ambiguous settle end_turn
write_outcome ambiguous receipt after code t = mark_ambiguous t.row t.at
write_outcome outcome receipt after code t =
    settle outcome receipt after t >> end_turn outcome code t

unfoldable pub expire_current : Schedule → ℕ → ℕ → Db Unit
unfolding revision_of expire_schedule
expire_current schedule now at =
    if is_current schedule.state
    then (do
      found ← gets (revision_of schedule.schedule_id schedule.revision)
      revision ← required found
      when (leb revision.expires_at now)
          (expire_schedule schedule (system_actor "scheduler" schedule none) at))
    else pure tt

abbrev pub in_flight : String → Outbox → Bool
in_flight token row = is_started row.status && opt_is token row.claim_token

abbrev pub finish_times : Outbox → Schedule → List ℕ
finish_times row schedule =
    row.created_at
    ∷ row.updated_at
    ∷ or_else row.request_started_at row.created_at
    ∷ or_else row.terminal_at row.created_at
    ∷ schedule_times schedule

abbrev opt_receipt : Option String → Bool
opt_receipt none = true
opt_receipt (some r) = is_receipt r

unfoldable pub read_turn : String → String → ℕ → Db Turn
unfolding get_outbox get_run get revision_of text_discrete
read_turn id token now = do
  found ← gets (get_outbox id now)
  row ← or_throw "claim_conflict" found
  require (in_flight token row) "claim_conflict"
  found_run ← gets (get_run row.run_id)
  run ← required found_run
  found_schedule ← gets (get run.schedule_id)
  schedule ← required found_schedule
  found_revision ← gets (revision_of run.schedule_id run.revision)
  snapshot ← required found_revision
  pure (record {
    row = row;
    run = run;
    schedule = schedule;
    snapshot = snapshot;
    now = now;
    at = latest now (finish_times row schedule);
  })

-- The end of `finishWrite`, whatever the outcome.
unfoldable pub close_turn : Turn → Db Outbox
unfolding complete_if_drained get expire_current get_outbox
close_turn t = do
  complete_if_drained t.run.schedule_id t.at
  found ← gets (get t.run.schedule_id)
  current ← required found
  expire_current current t.now t.at
  complete_if_drained current.schedule_id t.at
  found_row ← gets (get_outbox t.row.outbox_id t.at)
  required found_row

unfoldable pub finish_write :
    String → String → Outcome → ℕ → Option String → ℕ → Option String → Db Outbox
unfolding read_turn write_outcome close_turn is_receipt
finish_write id token outcome now receipt after code = do
  require (opt_receipt receipt) "invalid_receipt"
  require (leb after 2592000) "invalid_retry_after"
  transaction
      do t ← read_turn id token now; write_outcome outcome receipt after code t; close_turn t
