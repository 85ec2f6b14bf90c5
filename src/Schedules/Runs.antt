-- ===== src/Schedules/Runs.antt =====
-- dispatcher/src/scheduler/repository.ts: `setRunState`.
use dona.Prelude.{
  ℕ, String, Bool, true, false, not, ◌&&◌, ◌||◌, List, [], ◌∷◌, Option, none, some, is_none,
  is_some, find?, select_where, text_eq, opt_text_eq, text_discrete, opt_text_discrete, leb, ltb,
  ◌==◌, ◌-◌, if◌then◌else◌,
}
use dona.Exec.{pure, gets, require, transaction, ◌>>=◌, ◌>>◌}
use dona.Schedules.Texts.{opt_identity}
use dona.Schedules.Rows.{
  Schedule, Revision, Run, RunStatus, Reason, Outbox, Action, Target, Job, Tables, Actor,
  reminder_post, work_read_only, no_target, work_result,
}
use dona.Schedules.Store.{
  Db, or_else, latest, misfire_grace, required, or_throw, get, get_run, run_is, revision_of,
  checked, audit, about_run, update_runs, update_outbox,
}
use dona.Schedules.Settle.{is_unsent, withdrawn, audit_each}
use dona.Schedules.Drain.{is_active, complete_if_drained, expire_schedule, schedule_times}
use dona.Schedules.Outboxes.{ended_run}
use dona.Schedules.Delivery.{Host, insert_outbox}
use dona.Schedules.Content.{truncate_result_content}
use dona.Schedules.Settlement.{when, is_current}

-- The status that a run gets.
pub data Next : Type 0 where
  start : Next
  complete : Next
  fail : Next
  cancel : Next

abbrev pub next_status : Next → RunStatus
next_status start = RunStatus.started
next_status complete = RunStatus.completed
next_status fail = RunStatus.failed
next_status cancel = RunStatus.cancelled

abbrev run_operation : Next → String
run_operation start = "run_started"
run_operation complete = "run_completed"
run_operation fail = "run_failed"
run_operation cancel = "run_cancelled"

abbrev outbox_operation : Next → String
outbox_operation start = "outbox_run_started"
outbox_operation complete = "outbox_run_completed"
outbox_operation fail = "outbox_run_failed"
outbox_operation cancel = "outbox_run_cancelled"

abbrev pub may_become : RunStatus → Next → Bool
may_become RunStatus.materialized start = true
may_become RunStatus.materialized fail = true
may_become RunStatus.materialized cancel = true
may_become RunStatus.started complete = true
may_become RunStatus.started fail = true
may_become RunStatus.started cancel = true
may_become status next = false

abbrev pub same_status : RunStatus → RunStatus → Bool
same_status RunStatus.materialized RunStatus.materialized = true
same_status RunStatus.started RunStatus.started = true
same_status RunStatus.completed RunStatus.completed = true
same_status RunStatus.failed RunStatus.failed = true
same_status RunStatus.cancelled RunStatus.cancelled = true
same_status RunStatus.skipped RunStatus.skipped = true
same_status RunStatus.needs_review RunStatus.needs_review = true
same_status a b = false

abbrev is_work : Action → Bool
is_work reminder_post = false
is_work work_read_only = true

abbrev has_target : Target → Bool
has_target no_target = false
has_target place = true

-- `setRunState`'s arguments.
pub record RunChange : Type 0 where
  pub run_id : String
  pub expected : RunStatus
  pub next : Next
  pub actor : Actor
  pub now : ℕ
  pub job_id : Option String
  pub result_content : Option String
  pub notification_at : Option ℕ
  pub route_result_via_dona : Bool

abbrev is_start : Next → Bool
is_start start = true
is_start next = false

abbrev is_complete : Next → Bool
is_complete complete = true
is_complete next = false

abbrev is_stop : Next → Bool
is_stop fail = true
is_stop cancel = true
is_stop next = false

abbrev is_fail : Next → Bool
is_fail fail = true
is_fail next = false

-- Only work is started and completed here.
abbrev action_ok : Next → Revision → Bool
action_ok next v = not (is_start next || is_complete next) || is_work v.action

-- Why a run may no longer start.
abbrev stop_reason : Run → Schedule → Revision → ℕ → Option Reason
stop_reason run current v at =
    if not (is_active current.state) || not (current.revision == run.revision)
    then some Reason.cancelled
    else (if leb v.expires_at at
        then some Reason.authorization_expired
        else (if ltb misfire_grace (at - run.scheduled_for) then some Reason.misfire else none))

abbrev stopped_status : Reason → RunStatus
stopped_status Reason.misfire = RunStatus.skipped
stopped_status reason = RunStatus.cancelled

abbrev stopped_operation : Reason → String
stopped_operation Reason.misfire = "run_skipped"
stopped_operation reason = "run_cancelled"

abbrev is_expiry : Reason → Bool
is_expiry Reason.authorization_expired = true
is_expiry reason = false

abbrev unsent_of_run : String → Outbox → Bool
unsent_of_run id o = text_eq o.run_id id && is_unsent o.status

unfoldable refuse_start : RunChange → Schedule → Reason → ℕ → Db (Option Run)
unfolding expire_schedule update_runs update_outbox get get_run audit complete_if_drained
    text_discrete
refuse_start c current reason at = do
  when (is_expiry reason) (expire_schedule current c.actor c.now)
  update_runs (run_is c.run_id) (ended_run (stopped_status reason) (some reason) at)
  update_outbox (unsent_of_run c.run_id) (withdrawn at)
  found ← gets (get current.schedule_id)
  after ← required found
  found_run ← gets (get_run c.run_id)
  run ← required found_run
  audit (some current) after (stopped_operation reason) c.actor at (about_run run)
  complete_if_drained current.schedule_id at
  pure none

abbrev job_is : String → Job → Bool
job_is id j = text_eq j.job_id id

abbrev job_matches : Run → String → Option Job → Bool
job_matches run id none = false
job_matches run id (some j) =
    opt_text_eq run.event_id (some j.source_event_id)
    && (is_none run.job_id || opt_text_eq run.job_id (some id))

abbrev job_ok : Option String → Run → Tables → Bool
job_ok none run s = true
job_ok (some id) run s = job_matches run id (find? (job_is id) s.jobs)

unfoldable job_stands : Option String → Run → Tables → Bool
unfolding text_discrete opt_text_discrete
job_stands id run s = job_ok id run s

-- Why nothing is told about the result, if so.
abbrev silence : Run → Schedule → Revision → ℕ → Option Reason
silence run current v at =
    if leb v.expires_at at
    then some Reason.authorization_expired
    else (if not (is_active current.state)
        then some Reason.cancelled
        else (if current.revision == run.revision then none else some Reason.revision_replaced))

abbrev silence_operation : Reason → String
silence_operation Reason.authorization_expired = "work_result_suppressed_authorization_expired"
silence_operation Reason.revision_replaced = "work_result_suppressed_revision_replaced"
silence_operation reason = "work_result_suppressed_cancelled"

-- Whether an outcome is told to the target by the connector.
abbrev is_told : RunChange → Revision → Option Reason → Bool
is_told c v reason = has_target v.target_json && is_none reason && not c.route_result_via_dona

abbrev outbox_times : List Outbox → List ℕ
outbox_times [] = []
outbox_times (o ∷ os) =
    o.created_at ∷ o.updated_at ∷ or_else o.lease_until o.created_at ∷ outbox_times os

abbrev changed_reason : Next → Option Reason → Option Reason
changed_reason cancel reason = some Reason.cancelled
changed_reason next reason = reason

abbrev changed_job : Option String → Option String → Option String
changed_job none old = old
changed_job (some id) old = some id

abbrev changed : RunChange → ℕ → Run → Run
changed c at run = record run {
  status = next_status c.next;
  reason = changed_reason c.next run.reason;
  job_id = changed_job c.job_id run.job_id;
  started_at = if is_start c.next then some at else run.started_at;
  terminal_at = if is_start c.next then none else some at;
}

abbrev is_result : RunChange → Revision → Bool
is_result c v = is_complete c.next && is_work v.action

module _ (h : Host) where
  unfoldable tell_result : RunChange → Revision → Option Reason → ℕ → Db Unit
  unfolding insert_outbox truncate_result_content
  tell_result c v reason at = when (is_result c v && is_told c v reason) (do
    content ← or_throw "result_content_required" c.result_content
    told ← or_throw "content_requires_redaction" (truncate_result_content content)
    insert_outbox h c.run_id work_result v.target_json told (or_else c.notification_at at))

  unfoldable tell_failure : RunChange → Revision → Option Reason → ℕ → Db Unit
  unfolding insert_outbox
  tell_failure c v reason at = when (is_fail c.next && is_work v.action && is_told c v reason) (
      insert_outbox h c.run_id work_result v.target_json "scheduled workが失敗しました"
        (or_else c.notification_at at))

  unfoldable withdraw_rows : RunChange → List Outbox → ℕ → Db Unit
  unfolding update_outbox text_discrete
  withdraw_rows c rows at =
      when (is_some (find? (unsent_of_run c.run_id) rows))
        (update_outbox (unsent_of_run c.run_id) (withdrawn at))

  unfoldable audit_silence : RunChange → Schedule → Revision → Option Reason → ℕ → Db Unit
  unfolding get_run audit
  audit_silence c current v none at = pure tt
  audit_silence c current v (some reason) at = when (is_result c v && has_target v.target_json) (do
    found ← gets (get_run c.run_id)
    run ← required found
    audit (some current) current (silence_operation reason) c.actor at (about_run run))

  unfoldable expire_ended : Schedule → Actor → ℕ → Db Unit
  unfolding revision_of expire_schedule
  expire_ended current actor at = when (is_current current.state) (do
    found ← gets (revision_of current.schedule_id current.revision)
    v ← required found
    when (leb v.expires_at at) (expire_schedule current actor at))

  abbrev withdrawable : RunChange → Tables → List Outbox
  withdrawable c s = if is_stop c.next then select_where (unsent_of_run c.run_id) s.outbox else []

  unfoldable apply_change : RunChange → Run → Schedule → Revision → ℕ → Db (Option Run)
  unfolding job_stands tell_result withdraw_rows tell_failure update_runs audit_each get_run audit
      audit_silence expire_ended complete_if_drained text_discrete
  apply_change c run current v at = do
    stands ← gets (job_stands c.job_id run)
    require stands "job_reference_conflict"
    require (not (is_start c.next) || is_some c.job_id) "job_reference_required"
    let silent = silence run current v at
    require (is_none c.result_content || is_result c v) "result_not_authorized"
    tell_result c v silent at
    suppressed ← gets (withdrawable c)
    let operation_at = latest at (outbox_times suppressed)
    withdraw_rows c suppressed operation_at
    tell_failure c v silent operation_at
    update_runs (run_is c.run_id) (changed c operation_at)
    audit_each suppressed (outbox_operation c.next) operation_at
    found ← gets (get_run c.run_id)
    after ← required found
    audit (some current) current (run_operation c.next) c.actor operation_at (about_run after)
    audit_silence c current v silent operation_at
    expire_ended current c.actor operation_at
    complete_if_drained run.schedule_id operation_at
    last ← gets (get_run c.run_id)
    result ← required last
    pure (some result)

  abbrev start_refused : RunChange → Run → Schedule → Revision → ℕ → Option Reason
  start_refused c run current v at = if is_start c.next then stop_reason run current v at else none

  unfoldable change_or_refuse :
      RunChange → Run → Schedule → Revision → ℕ → Option Reason → Db (Option Run)
  unfolding refuse_start apply_change
  change_or_refuse c run current v at none = apply_change c run current v at
  change_or_refuse c run current v at (some reason) = refuse_start c current reason at

  abbrev change_times : Run → Schedule → List ℕ
  change_times run current =
      run.created_at
      ∷ or_else run.started_at run.created_at
      ∷ or_else run.terminal_at run.created_at
      ∷ schedule_times current

  unfoldable set_run_state_checked : RunChange → Db (Option Run)
  unfolding get_run get checked revision_of change_or_refuse
  set_run_state_checked c = do
    found ← gets (get_run c.run_id)
    run ← or_throw "run_conflict" found
    require (same_status run.status c.expected) "run_conflict"
    found_schedule ← gets (get run.schedule_id)
    current ← required found_schedule
    _ ← checked current.schedule_id current.revision c.actor false
    require (may_become c.expected c.next) "invalid_transition"
    found_revision ← gets (revision_of run.schedule_id run.revision)
    v ← required found_revision
    let at = latest c.now (change_times run current)
    require (action_ok c.next v) "invalid_transition"
    change_or_refuse c run current v at (start_refused c run current v at)

  unfoldable pub set_run_state : RunChange → Db Run
  unfolding set_run_state_checked
  set_run_state c = do
    require (opt_identity c.job_id) "invalid_identity"
    result ← transaction (set_run_state_checked c)
    or_throw "run_not_authorized" result
