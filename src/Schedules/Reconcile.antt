-- ===== src/Schedules/Reconcile.antt =====
-- dispatcher/src/scheduler/repository.ts: `rejectClaimBeforeWrite`, `finishWriteAfterPreflight` and
-- `reconcile`.
use dona.Prelude.{
  ℕ, String, Bool, true, false, not, ◌&&◌, ◌||◌, List, [], ◌∷◌, Option, none, some, is_none,
  text_eq, text_discrete, ◌+◌, min, if◌then◌else◌, opt_is,
}
use dona.Exec.{pure, gets, modify, require, transaction, ◌>>=◌, ◌>>◌}
use dona.Schedules.Rows.{Schedule, Run, RunStatus, Reason, Outbox, OutboxStatus, Actor, Audit}
use dona.Schedules.Store.{
  Db, or_else, latest, week, required, or_throw, outbox_is, run_is, get, get_run, revision_of,
  get_outbox, audit_outbox, retire_revisions, update_outbox, update_runs, update_schedules, checked,
  audit, is_admin, about_outbox,
}
use dona.Schedules.Settle.{suppress}
use dona.Schedules.Drain.{is_active, complete_if_drained, schedule_times}
use dona.Schedules.Outboxes.{is_reminder, is_claimed, run_in_review, ended_run, closed}
use dona.Schedules.Receipts.{is_receipt, decision_code}
use dona.Schedules.Finish.{Outcome, is_revoked, request_started, outcome_text}
use dona.Schedules.Settlement.{
  finish_write, same_authorization, paused_schedule, active_schedule, sendable_run, when,
}

abbrev pub may_reject : String → Outbox → Bool
may_reject token row =
    is_claimed row.status && opt_is token row.claim_token && is_none row.request_started_at

unfoldable pub reject_claim_before_write : String → String → ℕ → String → Db Outbox
unfolding get_outbox get_run get update_outbox update_runs audit_outbox complete_if_drained
    decision_code text_discrete
reject_claim_before_write id token now raw_code = transaction do
  found ← gets (get_outbox id now)
  row ← or_throw "claim_conflict" found
  require (may_reject token row) "claim_conflict"
  found_run ← gets (get_run row.run_id)
  run ← required found_run
  found_schedule ← gets (get run.schedule_id)
  schedule ← required found_schedule
  let at = latest now (row.created_at ∷ row.updated_at ∷ schedule_times schedule)
  update_outbox (outbox_is id) (closed OutboxStatus.failed at)
  update_runs (sendable_run row.run_id) (ended_run RunStatus.failed none at)
  audit_outbox row "outbox_rejected" at (some schedule) (some (decision_code raw_code))
  complete_if_drained run.schedule_id at
  found_last ← gets (get_outbox id at)
  required found_last

-- A row that was withdrawn while its preflight ran.
abbrev is_withdrawn : Outbox → Bool
is_withdrawn row = elim row.status [ OutboxStatus.cancelled ↦ is_none row.claim_token | _ ↦ false ]

abbrev run_times : Run → List ℕ
run_times run =
    run.created_at
    ∷ or_else run.started_at run.created_at
    ∷ or_else run.terminal_at run.created_at
    ∷ []

abbrev pub revoked_at : ℕ → Outbox → Run → Schedule → ℕ
revoked_at now row run schedule =
    latest
      (latest now
        (row.created_at ∷ row.updated_at ∷ or_else row.terminal_at row.created_at ∷ run_times run))
      (schedule_times schedule)

unfoldable pub pause_active : Schedule → String → ℕ → Db Unit
unfolding update_schedules suppress text_discrete
pause_active schedule id at =
    when (is_active schedule.state) (
      update_schedules (active_schedule id) (paused_schedule at) >> suppress id at Reason.cancelled)

unfoldable pub revoke_withdrawn : Outbox → ℕ → String → Db Unit
unfolding get_run get revision_of pause_active retire_revisions audit_outbox text_discrete
revoke_withdrawn row now code = do
  found_run ← gets (get_run row.run_id)
  run ← required found_run
  found_schedule ← gets (get run.schedule_id)
  schedule ← required found_schedule
  found_revision ← gets (revision_of run.schedule_id run.revision)
  snapshot ← required found_revision
  found_current ← gets (revision_of schedule.schedule_id schedule.revision)
  current ← required found_current
  let at = revoked_at now row run schedule
  when (same_authorization snapshot current) (
      pause_active schedule run.schedule_id at
      >> (retire_revisions run.schedule_id at (some schedule.revision)
          >> audit_outbox row "outbox_revoked" at (some schedule) (some code)))

-- The last audit of the operation, by what is done to it.
unfoldable on_last : (Audit → Bool) → (Audit → List Audit) → List Audit → Option (List Audit)
on_last p f [] = none
on_last p f (a ∷ rest) =
    let done = on_last p f rest in
    elim done [
      | some others ↦ some (a ∷ others)
      | none ↦ if p a then some (prepend (f a) rest) else none
    ]
  where
    prepend : List Audit → List Audit → List Audit
    prepend [] ys = ys
    prepend (x ∷ xs) ys = x ∷ prepend xs ys

abbrev audit_is : String → String → Audit → Bool
audit_is id operation a = text_eq a.schedule_id id && text_eq a.operation operation

abbrev pub never_started : Outbox → Outbox
never_started o = record o { request_started_at = none }

abbrev outbox_never_started : Option Outbox → Option Outbox
outbox_never_started none = none
outbox_never_started (some o) = some (never_started o)

abbrev pub erase_start : Audit → List Audit
erase_start a =
    record a {
      after_json = record a.after_json { outbox = outbox_never_started a.after_json.outbox };
    }
    ∷ []

unfoldable pub edit_last_audit : String → String → (Audit → List Audit) → Db Unit
unfolding on_last text_discrete
edit_last_audit id operation f =
    modify λ s. record s { audit = or_else (on_last (audit_is id operation) f s.audit) s.audit }

-- The write that never happened, because its preflight failed.
unfoldable pub after_preflight :
    String → String → Outcome → ℕ → ℕ → String → Option Outbox → Db Outbox
unfolding get_run request_started finish_write update_outbox edit_last_audit get_outbox
    text_discrete
after_preflight id token outcome now after code current = do
  row ← or_throw "claim_conflict" current
  found_run ← gets (get_run row.run_id)
  run ← required found_run
  _ ← request_started id token now
  settled ← finish_write id token outcome now none after (some code)
  update_outbox (outbox_is id) never_started
  edit_last_audit run.schedule_id "outbox_request_started" (λ a. [])
  edit_last_audit run.schedule_id (outcome_text outcome) erase_start
  found ← gets (get_outbox id now)
  pure (or_else found settled)

abbrev pub withdrawn_is : Option Outbox → Bool
withdrawn_is none = false
withdrawn_is (some row) = is_withdrawn row

unfoldable pub keep_withdrawn : String → Outcome → ℕ → String → Option Outbox → Db Outbox
unfolding revoke_withdrawn get_outbox
keep_withdrawn id outcome now code current = do
  row ← required current
  when (is_revoked outcome) (revoke_withdrawn row now code)
  found ← gets (get_outbox id now)
  required found

unfoldable pub finish_write_after_preflight : String → String → Outcome → ℕ → ℕ → String → Db Outbox
unfolding get_outbox after_preflight keep_withdrawn
finish_write_after_preflight id token outcome now after code = transaction do
  current ← gets (get_outbox id now)
  if withdrawn_is current
      then keep_withdrawn id outcome now code current
      else after_preflight id token outcome now after code current

-- What an administrator found out about a request in doubt.
pub data Finding : Type 0 where
  was_sent : Finding
  was_not_sent : Finding

abbrev pub found_status : Finding → OutboxStatus
found_status was_sent = OutboxStatus.sent
found_status was_not_sent = OutboxStatus.failed

abbrev pub found_run_status : Finding → RunStatus
found_run_status was_sent = RunStatus.completed
found_run_status was_not_sent = RunStatus.failed

abbrev pub found_operation : Finding → String
found_operation was_sent = "reconcile_sent"
found_operation was_not_sent = "reconcile_failed"

abbrev pub is_in_doubt : OutboxStatus → Bool
is_in_doubt OutboxStatus.needs_review = true
is_in_doubt s = false

unfoldable pub reconciled : Finding → String → ℕ → Outbox → Outbox
reconciled finding receipt at o = record o {
  status = found_status finding;
  receipt_id = some receipt;
  terminal_at = some at;
  updated_at = at;
  content_delete_at = some (min (or_else o.content_delete_at (at + week)) (at + week));
  claim_token = none;
  lease_until = none;
}

-- A result about a job that is itself stuck leaves the run under review.
abbrev pub of_stuck_job : Option String → Bool
of_stuck_job none = true
of_stuck_job (some status) = text_eq status "blocked" || text_eq status "needs_review"

abbrev pub reviewed_run : String → Run → Bool
reviewed_run id run = run_is id run && run_in_review run.status

abbrev pub with_status : RunStatus → ℕ → Run → Run
with_status status at run = record run { status = status; terminal_at = some at }

abbrev pub reconcile_times : Outbox → Run → Schedule → List ℕ
reconcile_times row run schedule =
    row.created_at
    ∷ row.updated_at
    ∷ or_else row.request_started_at row.created_at
    ∷ or_else row.terminal_at row.created_at
    ∷ run.created_at
    ∷ or_else run.started_at run.created_at
    ∷ schedule_times schedule

-- What follows the decision on the row.
unfoldable pub close_review : String → Finding → Outbox → Run → Schedule → Actor → ℕ → Db Outbox
unfolding get_outbox update_runs audit complete_if_drained text_discrete
close_review id finding row run schedule actor at = do
  when (is_reminder row.kind || not (of_stuck_job row.completion_job_status))
      (update_runs (reviewed_run run.run_id) (with_status (found_run_status finding) at))
  current ← gets (get_outbox id at)
  audit (some schedule) schedule (found_operation finding) actor at (about_outbox current none)
  complete_if_drained run.schedule_id at
  result ← gets (get_outbox id at)
  required result

unfoldable pub reconcile : String → Finding → String → Actor → ℕ → Db Outbox
unfolding get_outbox get_run get checked update_outbox reconciled close_review is_receipt
    text_discrete
reconcile id finding receipt actor now = do
  require (is_receipt receipt) "invalid_receipt"
  require (is_admin actor.role) "admin_required"
  transaction do
    found ← gets (get_outbox id now)
    row ← or_throw "invalid_transition" found
    require (is_in_doubt row.status) "invalid_transition"
    found_run ← gets (get_run row.run_id)
    run ← required found_run
    found_schedule ← gets (get run.schedule_id)
    schedule ← required found_schedule
    let at = latest now (reconcile_times row run schedule)
    _ ← checked schedule.schedule_id schedule.revision actor false
    update_outbox (outbox_is id) (reconciled finding receipt at)
    close_review id finding row run schedule actor at
