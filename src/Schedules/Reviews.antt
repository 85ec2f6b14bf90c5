-- ===== src/Schedules/Reviews.antt =====
-- dispatcher/src/scheduler/repository.ts: runs and notifications of work that come under review, and
-- their settlement.
use dona.Prelude.{
  ℕ, String, Bool, true, false, not, ◌&&◌, ◌||◌, List, [], ◌∷◌, Option, none, some, is_some,
  count_where, update_where, opt_text_eq, text_discrete, opt_text_discrete, leb, ◌==◌,
  if◌then◌else◌,
}
use dona.Exec.{pure, gets, modify, require, transaction, ◌>>=◌, ◌>>◌}
use dona.Schedules.Texts.{check_id}
use dona.Schedules.Rows.{ScheduleState, Schedule, Revision, Run, RunStatus, Reason}
use dona.Schedules.Store.{
  Db, or_else, latest, opt_leb, required, or_throw, get, get_run, run_is, revision_of, revision_is,
  audit, about_run, schedule_is, system_actor, update_runs, update_schedules, retire_revisions,
}
use dona.Schedules.Settle.{suppress}
use dona.Schedules.Drain.{is_active, complete_if_drained, expire_schedule}
use dona.Schedules.Outboxes.{in_review, run_in_review}
use dona.Schedules.Settlement.{when}

abbrev is_started : RunStatus → Bool
is_started RunStatus.started = true
is_started s = false

abbrev pub run_times : Run → Schedule → List ℕ
run_times run before =
    run.created_at
    ∷ or_else run.started_at run.created_at
    ∷ before.created_at
    ∷ before.updated_at
    ∷ []

abbrev of_job : String → String → Run → Bool
of_job job_id event_id run =
    opt_text_eq run.job_id (some job_id) && opt_text_eq run.event_id (some event_id)

abbrev may_be_reviewed : String → String → Run → Bool
may_be_reviewed job_id event_id run =
    (is_started run.status || run_in_review run.status) && of_job job_id event_id run

abbrev reviewed_run : Run → Run
reviewed_run run = record run {
  status = RunStatus.needs_review;
  reason = some Reason.ambiguous_write;
}

abbrev is_final : ScheduleState → Bool
is_final ScheduleState.completed = true
is_final ScheduleState.cancelled = true
is_final ScheduleState.expired = true
is_final s = false

abbrev at_revision : String → ℕ → Schedule → Bool
at_revision id n r = schedule_is id r && r.revision == n

abbrev not_final : String → ℕ → Schedule → Bool
not_final id n r = at_revision id n r && not (is_final r.state)

abbrev reviewed_schedule : ℕ → Schedule → Schedule
reviewed_schedule at r = record r {
  state = ScheduleState.needs_review;
  updated_at = at;
  terminal_at = none;
}

unfoldable review_current : Run → Schedule → ℕ → Db Unit
unfolding suppress update_schedules retire_revisions text_discrete
review_current run before at = when (run.revision == before.revision) (
    suppress run.schedule_id at Reason.cancelled
    >> (update_schedules (not_final run.schedule_id run.revision) (reviewed_schedule at)
        >> retire_revisions run.schedule_id at none))

-- A change is audited with the schedule before and after it, and its run.
unfoldable audit_run : Schedule → String → String → Option String → Run → ℕ → Db Unit
unfolding get get_run audit
audit_run before operation name event run at = do
  found ← gets (get run.schedule_id)
  after ← required found
  found_run ← gets (get_run run.run_id)
  now_run ← required found_run
  audit (some before) after operation (system_actor name before event) at (about_run now_run)

unfoldable mark_run : Run → String → ℕ → Db Run
unfolding get update_runs review_current audit_run get_run text_discrete
mark_run run event_id now = do
  found ← gets (get run.schedule_id)
  before ← required found
  let at = latest now (run_times run before)
  update_runs (run_is run.run_id) reviewed_run
  review_current run before at
  audit_run before "work_result_needs_review" "scheduler" (some event_id) run at
  last ← gets (get_run run.run_id)
  required last

unfoldable pub mark_work_run_needs_review : String → String → ℕ → String → Db Run
unfolding check_id get_run mark_run text_discrete opt_text_discrete
mark_work_run_needs_review run_id job_id now event_id = do
  check_id job_id
  check_id event_id
  transaction do
    found ← gets (get_run run_id)
    run ← or_throw "job_reference_conflict" found
    require (may_be_reviewed job_id event_id run) "job_reference_conflict"
    if run_in_review run.status then pure run else mark_run run event_id now

abbrev content_available : Revision → ℕ → Bool
content_available v now = is_some v.content && not (opt_leb v.content_delete_at now)

abbrev reviewed_at : String → ℕ → Schedule → Bool
reviewed_at id n r = at_revision id n r && in_review r.state

abbrev activated : ℕ → Schedule → Schedule
activated at r = record r { state = ScheduleState.active; terminal_at = none; updated_at = at }

abbrev reopened : Revision → Revision
reopened v = record v { terminal_at = none; content_delete_at = none }

-- The schedule goes on after its review, and its revision with it.
unfoldable activate : String → ℕ → Revision → ℕ → Db Bool
unfolding update_schedules text_discrete
activate id n v now = do
  changes ← gets λ s. count_where (reviewed_at id n) s.schedules
  let changed = content_available v now && changes == 1
  when (content_available v now) (update_schedules (reviewed_at id n) (activated now))
  when changed
      (modify λ s. record s { revisions = update_where (revision_is id n) reopened s.revisions })
  pure changed

abbrev resumed_run : Run → Run
resumed_run run = record run { status = RunStatus.started; reason = none; terminal_at = none }

unfoldable recover_schedule : Run → Schedule → String → ℕ → Db Unit
unfolding revision_of expire_schedule activate
recover_schedule run schedule event_id now = do
  found ← gets (revision_of schedule.schedule_id schedule.revision)
  v ← required found
  if leb v.expires_at now
      then expire_schedule schedule (system_actor "dispatcher" schedule (some event_id)) now
      else activate run.schedule_id run.revision v now >>= λ _. pure tt

abbrev recover_current : Run → String → ℕ → Option Schedule → Db Unit
recover_current run event_id now none = pure tt
recover_current run event_id now (some schedule) =
    when (schedule.revision == run.revision) (recover_schedule run schedule event_id now)

unfoldable recover_run : String → String → ℕ → Option Run → Db Unit
unfolding update_runs get recover_schedule text_discrete opt_text_discrete
recover_run job_id event_id now none = pure tt
recover_run job_id event_id now (some run) =
    when (run_in_review run.status && of_job job_id event_id run) (do
      update_runs (run_is run.run_id) resumed_run
      found ← gets (get run.schedule_id)
      recover_current run event_id now found)

unfoldable pub recover_work_run_for_result : String → String → String → ℕ → Db Unit
unfolding check_id get_run recover_run
recover_work_run_for_result run_id job_id event_id now = do
  check_id job_id
  check_id event_id
  found ← gets (get_run run_id)
  recover_run job_id event_id now found

abbrev active_at : String → ℕ → Schedule → Bool
active_at id n r = at_revision id n r && is_active r.state

abbrev pub noted_schedule : ℕ → Schedule → Schedule
noted_schedule at r = record r { state = ScheduleState.needs_review; updated_at = at }

unfoldable note_review : Run → Schedule → ℕ → Db Unit
unfolding update_schedules retire_revisions get audit text_discrete
note_review run schedule now = do
  changes ← gets λ s. count_where (active_at run.schedule_id run.revision) s.schedules
  update_schedules (active_at run.schedule_id run.revision) (noted_schedule now)
  when (changes == 1) (retire_revisions run.schedule_id now none)
  found ← gets (get run.schedule_id)
  after ← required found
  audit (some schedule) after "work_notification_needs_review"
      (system_actor "dispatcher" schedule none) now (about_run run)

unfoldable mark_notification : ℕ → Option Run → Db Unit
unfolding get note_review
mark_notification now none = pure tt
mark_notification now (some run) = do
  found ← gets (get run.schedule_id)
  schedule ← required found
  when (run.revision == schedule.revision) (note_review run schedule now)

unfoldable pub mark_work_notification_needs_review : String → ℕ → Db Unit
unfolding get_run mark_notification
mark_work_notification_needs_review run_id now = do
  found ← gets (get_run run_id)
  mark_notification now found

abbrev is_ended : RunStatus → Bool
is_ended RunStatus.completed = true
is_ended RunStatus.failed = true
is_ended RunStatus.cancelled = true
is_ended s = false

unfoldable resume_schedule : Run → Schedule → Revision → ℕ → String → Db Unit
unfolding activate get audit complete_if_drained
resume_schedule run schedule v now operation = do
  changed ← activate run.schedule_id run.revision v now
  when changed (do
    found ← gets (get run.schedule_id)
    after ← required found
    audit (some schedule) after operation (system_actor "dispatcher-admin" schedule none) now
        (about_run run))
  complete_if_drained run.schedule_id now

unfoldable resume_or_expire : Run → Schedule → ℕ → String → Db Unit
unfolding revision_of expire_schedule resume_schedule
resume_or_expire run schedule now operation = do
  found ← gets (revision_of schedule.schedule_id schedule.revision)
  v ← required found
  if leb v.expires_at now
      then expire_schedule schedule (system_actor "dispatcher-admin" schedule none) now
      else resume_schedule run schedule v now operation

unfoldable resume_run : ℕ → String → Option Run → Db Unit
unfolding get resume_or_expire
resume_run now operation none = pure tt
resume_run now operation (some run) = do
  found ← gets (get run.schedule_id)
  schedule ← required found
  when (run.revision == schedule.revision && is_ended run.status)
      (resume_or_expire run schedule now operation)

-- `resumeAfterWorkNotification`, and its two callers.
unfoldable resume_after_work_notification : String → ℕ → String → Db Unit
unfolding check_id get_run resume_run
resume_after_work_notification run_id now operation = do
  check_id run_id
  found ← gets (get_run run_id)
  resume_run now operation found

unfoldable pub reconcile_work_notification_not_sent : String → ℕ → Db Unit
unfolding resume_after_work_notification
reconcile_work_notification_not_sent run_id now =
    resume_after_work_notification run_id now "work_notification_not_sent_reconciled"

unfoldable pub settle_work_notification : String → ℕ → Db Unit
unfolding resume_after_work_notification
settle_work_notification run_id now =
    resume_after_work_notification run_id now "work_notification_sent_reconciled"
