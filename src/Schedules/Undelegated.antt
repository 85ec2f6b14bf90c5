-- ===== src/Schedules/Undelegated.antt =====
-- dispatcher/src/scheduler/repository.ts: work that no job took, and an administrator's decision on a
-- run under review.
use dona.Prelude.{
  ℕ, String, Bool, true, false, ◌&&◌, [], ◌∷◌, Option, none, some, is_none, find?, text_discrete,
  opt_is,
}
use dona.Exec.{pure, gets, require, transaction, ◌>>=◌, ◌>>◌}
use dona.Schedules.Texts.{check_id}
use dona.Schedules.Rows.{Run, RunStatus, Reason, Actor}
use dona.Schedules.Store.{
  Db, AuditParts, latest, required, or_throw, get, get_run, run_is, checked, audit, schedule_is,
  system_actor, is_admin, update_runs, update_schedules, retire_revisions,
}
use dona.Schedules.Settle.{is_materialized}
use dona.Schedules.Drain.{complete_if_drained}
use dona.Schedules.Outboxes.{run_in_review, ended_run}
use dona.Schedules.Settlement.{when}
use dona.Schedules.Reviews.{noted_schedule, run_times}

-- How an event of work ended before a job took it.
pub data Undelegated : Type 0 where
  event_failed : Undelegated
  event_in_review : Undelegated

abbrev is_review : Undelegated → Bool
is_review event_failed = false
is_review event_in_review = true

abbrev undelegated_run : Undelegated → ℕ → Run → Run
undelegated_run event_failed at run = ended_run RunStatus.failed none at run
undelegated_run event_in_review at run = record run {
  status = RunStatus.needs_review;
  reason = some Reason.ambiguous_write;
  terminal_at = none;
}

abbrev undelegated_operation : Undelegated → String
undelegated_operation event_failed = "event_failed"
undelegated_operation event_in_review = "event_needs_review"

abbrev with_code : Option Run → Option String → AuditParts
with_code run code = record { outbox = none; run = run; compact_skip = none; decision_code = code }

unfoldable settle_run : Run → String → Undelegated → ℕ → Option String → Db Unit
unfolding get get_run update_runs update_schedules retire_revisions audit complete_if_drained
    text_discrete
settle_run run event_id outcome now code = do
  found ← gets (get run.schedule_id)
  before ← required found
  let at = latest now (run.created_at ∷ before.created_at ∷ before.updated_at ∷ [])
  update_runs (run_is run.run_id) (undelegated_run outcome at)
  when (is_review outcome) (
      update_schedules (schedule_is run.schedule_id) (noted_schedule at)
      >> retire_revisions run.schedule_id at none)
  found_after ← gets (get run.schedule_id)
  after ← required found_after
  changed ← gets (get_run run.run_id)
  audit (some before) after (undelegated_operation outcome)
      (system_actor "scheduler" before (some event_id)) at (with_code changed code)
  complete_if_drained run.schedule_id at

abbrev is_undelegated : Run → Bool
is_undelegated run = is_materialized run.status && is_none run.job_id

abbrev settle_found : String → Undelegated → ℕ → Option String → Option Run → Db Unit
settle_found event_id outcome now code none = pure tt
settle_found event_id outcome now code (some run) =
    when (is_undelegated run) (settle_run run event_id outcome now code)

abbrev run_of_event : String → Run → Bool
run_of_event id run = opt_is id run.event_id

unfoldable pub settle_undelegated_work_event : String → Undelegated → ℕ → Option String → Db Unit
unfolding check_id settle_run text_discrete
settle_undelegated_work_event event_id outcome now code = do
  check_id event_id
  transaction do
    found ← gets λ s. find? (run_of_event event_id) s.runs
    settle_found event_id outcome now code found

-- What an administrator decides of a run under review.
pub data Verdict : Type 0 where
  work_failed : Verdict
  work_cancelled : Verdict

abbrev verdict_run : Verdict → ℕ → Run → Run
verdict_run work_failed at run = ended_run RunStatus.failed none at run
verdict_run work_cancelled at run = ended_run RunStatus.cancelled (some Reason.cancelled) at run

abbrev verdict_operation : Verdict → String
verdict_operation work_failed = "reconcile_work_failed"
verdict_operation work_cancelled = "reconcile_work_cancelled"

unfoldable pub reconcile_work_run : String → Verdict → Actor → ℕ → Db Run
unfolding get_run get checked update_runs audit complete_if_drained text_discrete
reconcile_work_run run_id verdict actor now = do
  require (is_admin actor.role) "admin_required"
  transaction do
    found ← gets (get_run run_id)
    run ← or_throw "invalid_transition" found
    require (run_in_review run.status) "invalid_transition"
    found_schedule ← gets (get run.schedule_id)
    before ← required found_schedule
    _ ← checked before.schedule_id before.revision actor false
    let at = latest now (run_times run before)
    update_runs (run_is run_id) (verdict_run verdict at)
    found_after ← gets (get run.schedule_id)
    after ← required found_after
    changed ← gets (get_run run_id)
    audit (some before) after (verdict_operation verdict) actor at (with_code changed none)
    complete_if_drained run.schedule_id at
    last ← gets (get_run run_id)
    required last
