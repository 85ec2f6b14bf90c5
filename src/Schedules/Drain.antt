-- ===== src/Schedules/Drain.antt =====
-- dispatcher/src/scheduler/repository.ts: the completion of a schedule that is drained, and its
-- expiry.
use dona.Prelude.{
  ℕ, String, Bool, true, false, not, ◌&&◌, ◌||◌, List, [], ◌∷◌, Option, none, some, is_none,
  is_some, find?, text_eq, text_discrete, max, if◌then◌else◌,
}
use dona.Exec.{pure, gets, ◌>>=◌, ◌>>◌}
use dona.Schedules.Rows.{
  ScheduleState, Schedule, Revision, Run, Reason, Outbox, CompletionState, CompletionResult, Tables,
  Actor,
}
use dona.Schedules.Store.{
  Db, or_else, latest, required, schedule_is, get, revision_of, audit, no_parts, retire_revisions,
  update_schedules, system_actor,
}
use dona.Schedules.Settle.{is_open, is_unresolved, suppress}

abbrev is_completable : ScheduleState → Bool
is_completable ScheduleState.active = true
is_completable ScheduleState.paused = true
is_completable ScheduleState.expired = true
is_completable ScheduleState.needs_review = true
is_completable s = false

abbrev pub is_paused : ScheduleState → Bool
is_paused ScheduleState.paused = true
is_paused s = false

abbrev pub is_active : ScheduleState → Bool
is_active ScheduleState.active = true
is_active s = false

abbrev is_unsettled_notice : CompletionState → Bool
is_unsettled_notice CompletionState.pending = true
is_unsettled_notice CompletionState.failed = true
is_unsettled_notice CompletionState.needs_review = true
is_unsettled_notice s = false

abbrev open_outbox_of : Run → Outbox → Bool
open_outbox_of run o = text_eq o.run_id run.run_id && is_open o.status

unfoldable pub has_open_outbox : List Outbox → Run → Bool
unfolding text_discrete
has_open_outbox outbox run = is_some (find? (open_outbox_of run) outbox)

abbrev unsettled_notice_of : Run → CompletionResult → Bool
unsettled_notice_of run c =
    text_eq c.owner_run_id run.run_id && is_unsettled_notice c.notification_state

-- A run of the schedule that is not over.
unfoldable is_unsettled : String → Tables → Run → Bool
unfolding has_open_outbox text_discrete
is_unsettled id s run =
    text_eq run.schedule_id id
    && (is_unresolved run.status
        || has_open_outbox s.outbox run
        || is_some (find? (unsettled_notice_of run) s.completions))

-- `MAX(terminal_at)` of the schedule's runs.
abbrev later_of : Option ℕ → Option ℕ → Option ℕ
later_of none o = o
later_of (some a) none = some a
later_of (some a) (some b) = some (max a b)

unfoldable pub last_terminal : String → List Run → Option ℕ
unfolding text_discrete
last_terminal id [] = none
last_terminal id (run ∷ runs) =
    let rest = last_terminal id runs in
    if text_eq run.schedule_id id then later_of run.terminal_at rest else rest

abbrev pub completed_schedule : ℕ → Schedule → Schedule
completed_schedule at r = record r {
  state = ScheduleState.completed;
  terminal_at = some at;
  updated_at = at;
}

abbrev pub schedule_times : Schedule → List ℕ
schedule_times r = r.created_at ∷ r.updated_at ∷ or_else r.terminal_at r.created_at ∷ []

unfoldable pub complete : Schedule → ℕ → Db Unit
unfolding get audit retire_revisions update_schedules last_terminal
complete before now = do
  run_terminal ← gets λ s. last_terminal before.schedule_id s.runs
  let at = latest now (or_else run_terminal before.created_at ∷ schedule_times before)
  update_schedules (schedule_is before.schedule_id) (completed_schedule at)
  retire_revisions before.schedule_id at none
  found ← gets (get before.schedule_id)
  after ← required found
  audit (some before) after "complete" (system_actor "scheduler" before none) at no_parts

-- Whether the schedule has no occurrence left to ask for.
abbrev is_exhausted : Schedule → Bool
is_exhausted r = is_completable r.state && is_none r.next_due && is_some r.high_watermark

-- A paused authorization that was retired stays renewable.
abbrev is_renewable : Schedule → Revision → Bool
is_renewable r revision = is_paused r.state && is_some revision.terminal_at

unfoldable pub complete_settled : Schedule → ℕ → Db Unit
unfolding is_unsettled complete
complete_settled before now = do
  unsettled ← gets λ s. find? (is_unsettled before.schedule_id s) s.runs
  if is_some unsettled then pure tt else complete before now

unfoldable pub complete_exhausted : Schedule → ℕ → Db Unit
unfolding revision_of complete_settled
complete_exhausted before now = do
  found ← gets (revision_of before.schedule_id before.revision)
  revision ← required found
  if not revision.recurrence_json.is_once || is_renewable before revision
      then pure tt
      else complete_settled before now

unfoldable pub complete_if_drained : String → ℕ → Db Unit
unfolding get complete_exhausted
complete_if_drained id now = do
  found ← gets (get id)
  before ← required found
  if is_exhausted before then complete_exhausted before now else pure tt

abbrev pub expired_schedule : ℕ → Schedule → Schedule
expired_schedule at r = record r {
  state = ScheduleState.expired;
  updated_at = at;
  terminal_at = some (or_else r.terminal_at at);
}

-- `expireSchedule`.
unfoldable pub expire_schedule : Schedule → Actor → ℕ → Db Unit
unfolding get suppress audit retire_revisions update_schedules complete_if_drained
expire_schedule before actor now = do
  let at = latest now (schedule_times before)
  suppress before.schedule_id at Reason.authorization_expired
  update_schedules (schedule_is before.schedule_id) (expired_schedule at)
  retire_revisions before.schedule_id at (some before.revision)
  found ← gets (get before.schedule_id)
  after ← required found
  audit (some before) after "expire" actor at no_parts
  complete_if_drained before.schedule_id at
