-- ===== src/Schedules/Outboxes.antt =====
-- dispatcher/src/scheduler/repository.ts: the outbox of the connector, from the row's insertion to
-- what is written about its delivery.
use dona.Prelude.{
  ℕ, String, Bool, true, false, not, ◌&&◌, ◌||◌, List, [], ◌∷◌, Option, none, some, is_none,
  select_where, count_where, text_discrete, ltb, leb, ◌==◌, ◌+◌, ◌-◌, max, if◌then◌else◌, length,
}
use dona.Exec.{pure, gets, transaction, ◌>>=◌, ◌>>◌}
use dona.Schedules.Rows.{
  ScheduleState, Schedule, Revision, Run, RunStatus, Reason, Outbox, OutboxKind, OutboxStatus,
  reminder, work_result,
}
use dona.Schedules.Store.{
  Db, or_else, latest, opt_leb, week, misfire_grace, required, schedule_is, outbox_is, run_is, get,
  get_run, revision_of, audit_outbox, retire_revisions, update_outbox, update_runs,
  update_schedules, system_actor,
}
use dona.Schedules.Settle.{is_unsent, suppress}
use dona.Schedules.Drain.{is_active, complete_if_drained, expire_schedule, schedule_times}

abbrev pub is_reminder : OutboxKind → Bool
is_reminder reminder = true
is_reminder work_result = false

abbrev pub is_sendable_run : RunStatus → Bool
is_sendable_run RunStatus.materialized = true
is_sendable_run RunStatus.started = true
is_sendable_run s = false

abbrev pub is_reported_run : RunStatus → Bool
is_reported_run RunStatus.completed = true
is_reported_run RunStatus.failed = true
is_reported_run RunStatus.needs_review = true
is_reported_run s = false

abbrev pub run_in_review : RunStatus → Bool
run_in_review RunStatus.needs_review = true
run_in_review s = false

abbrev pub in_review : ScheduleState → Bool
in_review ScheduleState.needs_review = true
in_review s = false

abbrev pub run_can_send : OutboxKind → RunStatus → Bool
run_can_send reminder status = is_sendable_run status
run_can_send work_result status = is_reported_run status

-- A result that tells of a run under review.
abbrev pub tells_review : Outbox → Run → Schedule → Bool
tells_review row run schedule =
    not (is_reminder row.kind) && run_in_review run.status && in_review schedule.state

-- Why a row that is not sent yet will not be sent, if so.
pub data Refusal : Type 0 where
  send : Refusal
  refuse : Reason → Refusal
  retry_expired : Refusal

abbrev not_current : Outbox → Run → Schedule → Bool
not_current row run schedule =
    not (tells_review row run schedule)
      && (not (is_active schedule.state) || not (schedule.revision == run.revision))
    || not (run_can_send row.kind run.status)

unfoldable pub refusal : Outbox → Run → Schedule → Revision → ℕ → ℕ → Refusal
refusal row run schedule snapshot at effective =
    if not_current row run schedule
    then refuse Reason.cancelled
    else (if leb snapshot.expires_at effective
        then refuse Reason.authorization_expired
        else (if not (is_reminder row.kind) && ltb misfire_grace (at - row.created_at)
            then retry_expired
            else (if is_reminder row.kind && ltb misfire_grace (effective - run.scheduled_for)
                then refuse Reason.misfire
                else (if is_none row.content || opt_leb row.content_delete_at effective
                    then refuse Reason.cancelled
                    else send))))

-- `expireUnsent` once the reason is known.
abbrev pub closed : OutboxStatus → ℕ → Outbox → Outbox
closed status at o = record o {
  status = status;
  terminal_at = some at;
  updated_at = at;
  content_delete_at = some (at + week);
  claim_token = none;
  lease_until = none;
}

abbrev pub ended_run : RunStatus → Option Reason → ℕ → Run → Run
ended_run status reason at run = record run {
  status = status;
  reason = reason;
  terminal_at = some at;
}

abbrev refused_status : Reason → RunStatus
refused_status Reason.misfire = RunStatus.skipped
refused_status reason = RunStatus.cancelled

abbrev refused_operation : Reason → String
refused_operation Reason.misfire = "outbox_misfire"
refused_operation reason = "outbox_cancelled"

-- The run of a reminder that is not sent ends with it.
unfoldable pub end_run : Outbox → Run → RunStatus → Option Reason → ℕ → Db Unit
unfolding update_runs text_discrete
end_run row run status reason at =
    if is_reminder row.kind && is_sendable_run run.status
    then update_runs (run_is row.run_id) (ended_run status reason at)
    else pure tt

unfoldable pub close_unsent : Outbox → Run → OutboxStatus → Reason → String → ℕ → Db Bool
unfolding update_outbox end_run audit_outbox complete_if_drained text_discrete
close_unsent row run status reason operation at = do
  update_outbox (outbox_is row.outbox_id) (closed status at)
  end_run row run (refused_status reason) (some reason) at
  audit_outbox row operation at none none
  complete_if_drained run.schedule_id at
  pure true

unfoldable pub act_on : Outbox → Run → Schedule → ℕ → Refusal → Db Bool
unfolding close_unsent expire_schedule
act_on row run schedule at send = pure false
act_on row run schedule at retry_expired =
    close_unsent row run OutboxStatus.failed Reason.cancelled "outbox_retry_expired" at
act_on row run schedule at (refuse Reason.authorization_expired) = do
  expire_schedule schedule (system_actor "scheduler" schedule none) at
  pure true
act_on row run schedule at (refuse reason) =
    close_unsent row run OutboxStatus.cancelled reason (refused_operation reason) at

unfoldable pub expire_unsent_row : Outbox → ℕ → Option ℕ → Db Bool
unfolding get_run get revision_of refusal act_on
expire_unsent_row row now eligibility_at = do
  found_run ← gets (get_run row.run_id)
  run ← required found_run
  found ← gets (get run.schedule_id)
  schedule ← required found
  let at = latest now (
      row.created_at
      ∷ row.updated_at
      ∷ or_else row.request_started_at row.created_at
      ∷ run.created_at
      ∷ or_else run.started_at run.created_at
      ∷ schedule.created_at
      ∷ schedule.updated_at
      ∷ [])
  found_revision ← gets (revision_of run.schedule_id run.revision)
  snapshot ← required found_revision
  act_on row run schedule at (refusal row run schedule snapshot at (or_else eligibility_at at))

-- `expireUnsent`: whether the row, which may be older than the table's, has been ended.
unfoldable pub expire_unsent : Outbox → ℕ → Option ℕ → Db Bool
unfolding expire_unsent_row
expire_unsent row now eligibility_at =
    if is_unsent row.status then expire_unsent_row row now eligibility_at else pure false

abbrev pub in_doubt : ℕ → Outbox → Outbox
in_doubt at o = record o {
  status = OutboxStatus.needs_review;
  content_delete_at = some (at + week);
  updated_at = at;
}

abbrev pub run_in_doubt : Run → Run
run_in_doubt run = record run {
  status = RunStatus.needs_review;
  reason = some Reason.ambiguous_write;
}

abbrev pub is_over : ScheduleState → Bool
is_over ScheduleState.cancelled = true
is_over ScheduleState.completed = true
is_over s = false

abbrev not_over : String → Schedule → Bool
not_over id r = schedule_is id r && not (is_over r.state)

abbrev reviewed_schedule : ℕ → Schedule → Schedule
reviewed_schedule at r = record r { state = ScheduleState.needs_review; updated_at = at }

unfoldable pub review_run : Outbox → String → Db Unit
unfolding update_runs text_discrete
review_run row run_id =
    if is_reminder row.kind then update_runs (run_is run_id) run_in_doubt else pure tt

-- When a doubt arose, after all that is recorded.
abbrev pub doubt_at : Outbox → Run → Schedule → ℕ → ℕ
doubt_at row run before now = latest now (
    row.created_at
    ∷ row.updated_at
    ∷ or_else row.request_started_at row.created_at
    ∷ run.created_at
    ∷ or_else run.started_at run.created_at
    ∷ schedule_times before)

-- `markAmbiguous`: nobody knows whether the request was accepted.
unfoldable pub mark_ambiguous : Outbox → ℕ → Db Unit
unfolding get_run get update_outbox suppress review_run update_schedules retire_revisions
    audit_outbox text_discrete
mark_ambiguous row now = do
  found_run ← gets (get_run row.run_id)
  run ← required found_run
  found ← gets (get run.schedule_id)
  before ← required found
  let at = doubt_at row run before now
  update_outbox (outbox_is row.outbox_id) (in_doubt at)
  suppress run.schedule_id at Reason.cancelled
  review_run row run.run_id
  update_schedules (not_over run.schedule_id) (reviewed_schedule at)
  retire_revisions run.schedule_id at none
  audit_outbox row "outbox_needs_review" at (some before) none

-- `request_started` with a lease that has ended, or every one at a restart.
abbrev pub is_started : OutboxStatus → Bool
is_started OutboxStatus.request_started = true
is_started s = false

abbrev pub is_claimed : OutboxStatus → Bool
is_claimed OutboxStatus.claimed = true
is_claimed s = false

abbrev pub is_lost : Bool → ℕ → Outbox → Bool
is_lost all now o = is_started o.status && (all || opt_leb o.lease_until now)

abbrev pub is_abandoned : Bool → ℕ → Outbox → Bool
is_abandoned all now o =
    is_claimed o.status && (all || opt_leb o.lease_until now) && is_none o.request_started_at

abbrev pub returned : ℕ → Outbox → Outbox
returned now o = record o {
  status = OutboxStatus.pending;
  claim_token = none;
  lease_until = none;
  updated_at = max o.updated_at now;
}

unfoldable pub mark_each : List Outbox → ℕ → Db Unit
unfolding mark_ambiguous
mark_each [] now = pure tt
mark_each (row ∷ rows) now = mark_ambiguous row now >> mark_each rows now

abbrev pub counted : Bool → ℕ → ℕ
counted b n = if b then n + 1 else n

unfoldable pub expire_each : List Outbox → ℕ → Db ℕ
unfolding expire_unsent
expire_each [] now = pure 0
expire_each (row ∷ rows) now = do
  ended ← expire_unsent row now none
  rest ← expire_each rows now
  pure (counted ended rest)

abbrev pub unsent_row : Outbox → Bool
unsent_row o = is_unsent o.status

unfoldable pub recover : ℕ → Bool → Db ℕ
unfolding mark_each update_outbox expire_each
recover now all = transaction do
  ambiguous ← gets λ s. select_where (is_lost all now) s.outbox
  mark_each ambiguous now
  changes ← gets λ s. count_where (is_abandoned all now) s.outbox
  update_outbox (is_abandoned all now) (returned now)
  unsent ← gets λ s. select_where unsent_row s.outbox
  expired ← expire_each unsent now
  pure (changes + length ambiguous + expired)
