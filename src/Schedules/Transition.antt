-- ===== src/Schedules/Transition.antt =====
-- dispatcher/src/scheduler/repository.ts: `transition`: pause, resume and cancel.
use dona.Prelude.{
  ℕ, String, Bool, true, false, not, ◌&&◌, ◌||◌, List, [], ◌∷◌, ◌++◌, Option, none, some, is_none,
  is_some, find?, text_eq, text_discrete, leb, ◌+◌, ◌*◌, if◌then◌else◌, opt_is,
}
use dona.Exec.{gets, modify, require, transaction, ◌>>=◌, ◌>>◌}
use dona.Dispatcher.Events.{EventStatus, EventRow}
use dona.Schedules.Rows.{
  ScheduleState, Schedule, Revision, Run, Reason, Outbox, NotificationPhase, CompletionState,
  CompletionResult, Tables, Actor,
}
use dona.Schedules.Store.{
  Db, or_else, latest, opt_leb, required, get, revision_of, checked, audit, no_parts, schedule_is,
  retire_revisions, update_schedules,
}
use dona.Schedules.Settle.{
  of_schedule, suppress, event_done, is_resting, is_suppressed_event, without_notice, update_events,
  update_completions,
}
use dona.Schedules.Drain.{
  is_active, is_paused, complete_if_drained, expire_schedule, schedule_times,
}
use dona.Schedules.Outboxes.{is_over}
use dona.Schedules.Claims.{drop_claim}
use dona.Schedules.Settlement.{when}

pub data Operation : Type 0 where
  pause : Operation
  resume : Operation
  cancel : Operation

abbrev pub operation_text : Operation → String
operation_text pause = "pause"
operation_text resume = "resume"
operation_text cancel = "cancel"

abbrev is_resume : Operation → Bool
is_resume resume = true
is_resume operation = false

abbrev is_cancel : Operation → Bool
is_cancel cancel = true
is_cancel operation = false

abbrev pub may_undergo : Operation → ScheduleState → Bool
may_undergo pause state = is_active state
may_undergo resume state = is_paused state
may_undergo cancel state = not (is_over state)

abbrev pub state_after : Operation → ScheduleState
state_after pause = ScheduleState.paused
state_after resume = ScheduleState.active
state_after cancel = ScheduleState.cancelled

abbrev is_reviewed : CompletionState → Bool
is_reviewed CompletionState.needs_review = true
is_reviewed s = false

abbrev is_pending : CompletionState → Bool
is_pending CompletionState.pending = true
is_pending s = false

abbrev is_write : NotificationPhase → Bool
is_write NotificationPhase.write = true
is_write p = false

abbrev notice_of : CompletionResult → EventRow → Bool
notice_of c e = opt_is e.event_id c.notification_event_id

-- A notification under review that may have been posted.
abbrev is_posted : (String → Bool) → CompletionResult → Option EventRow → Bool
is_posted posts c none = false
is_posted posts c (some e) =
    is_write c.notification_authorization_phase
    || elim e.result_json [ none ↦ false | some json ↦ posts json ]

unfoldable may_be_posted : (String → Bool) → String → Tables → CompletionResult → Bool
unfolding of_schedule text_discrete
may_be_posted posts id s c =
    of_schedule id s.runs c.owner_run_id
    && is_reviewed c.notification_state
    && is_posted posts c (find? (notice_of c) s.events)

-- The times of a schedule's runs and outbox rows.
unfoldable run_times : String → List Run → List ℕ
unfolding text_discrete
run_times id [] = []
run_times id (r ∷ rs) =
    let rest = run_times id rs in
    if text_eq r.schedule_id id
    then r.created_at
      ∷ or_else r.started_at r.created_at
      ∷ or_else r.terminal_at r.created_at
      ∷ rest
    else rest

unfoldable outbox_times : String → List Run → List Outbox → List ℕ
unfolding of_schedule
outbox_times id runs [] = []
outbox_times id runs (o ∷ os) =
    let rest = outbox_times id runs os in
    if of_schedule id runs o.run_id
    then o.created_at
      ∷ o.updated_at
      ∷ or_else o.request_started_at o.created_at
      ∷ or_else o.terminal_at o.created_at
      ∷ or_else o.lease_until o.created_at
      ∷ rest
    else rest

unfoldable transition_at : ℕ → Schedule → Tables → ℕ
unfolding run_times outbox_times
transition_at now before s =
    latest (latest (latest now (schedule_times before)) (run_times before.schedule_id s.runs))
      (outbox_times before.schedule_id s.runs s.outbox)

abbrev early_phase : CompletionResult → Bool
early_phase c = not (is_write c.notification_authorization_phase)

abbrev is_reviewed_notice : String → List Run → EventRow → CompletionResult → Bool
is_reviewed_notice id runs e c =
    notice_of c e
    && of_schedule id runs c.owner_run_id
    && is_reviewed c.notification_state
    && early_phase c

unfoldable drops_event : String → Tables → EventRow → Bool
unfolding of_schedule text_discrete
drops_event id s e =
    is_some (find? (is_reviewed_notice id s.runs e) s.completions) && is_resting e.status

unfoldable drops_notice : String → Tables → CompletionResult → Bool
unfolding of_schedule text_discrete
drops_notice id s c =
    is_reviewed c.notification_state
    && early_phase c
    && is_some (find? (is_suppressed_event c) s.events)
    && of_schedule id s.runs c.owner_run_id

abbrev is_under_way : EventStatus → Bool
is_under_way EventStatus.dispatching = true
is_under_way EventStatus.waiting_agent = true
is_under_way EventStatus.needs_review = true
is_under_way s = false

abbrev is_open_notice : String → List Run → EventRow → CompletionResult → Bool
is_open_notice id runs e c =
    notice_of c e
    && of_schedule id runs c.owner_run_id
    && (is_pending c.notification_state || is_reviewed c.notification_state)
    && early_phase c

unfoldable doubts_event : String → Tables → EventRow → Bool
unfolding of_schedule text_discrete
doubts_event id s e =
    is_some (find? (is_open_notice id s.runs e) s.completions) && is_under_way e.status

abbrev event_in_doubt : ℕ → EventRow → EventRow
event_in_doubt now e = record e {
  status = EventStatus.needs_review;
  updated_at = 1000 * now;
  last_error_code = some "notification_delivery_ambiguous";
  last_error_message = none;
}

abbrev is_ambiguous_event : CompletionResult → EventRow → Bool
is_ambiguous_event c e =
    notice_of c e
    && elim e.status [ EventStatus.needs_review ↦ true | _ ↦ false ]
    && opt_is "notification_delivery_ambiguous" e.last_error_code

unfoldable doubts_notice : String → Tables → CompletionResult → Bool
unfolding of_schedule text_discrete
doubts_notice id s c =
    is_pending c.notification_state
    && is_some (find? (is_ambiguous_event c) s.events)
    && of_schedule id s.runs c.owner_run_id

abbrev reviewed_notice : CompletionResult → CompletionResult
reviewed_notice c = record c { notification_state = CompletionState.needs_review }

-- The notifications of a schedule that is paused or cancelled.
unfoldable pub withdraw_notices : String → ℕ → Db Unit
unfolding drops_event drops_notice doubts_event doubts_notice update_events update_completions
withdraw_notices id at = do
  dropped ← gets (drops_event id)
  update_events dropped (event_done "schedule_notification_suppressed" at)
  cleared ← gets (drops_notice id)
  update_completions cleared without_notice
  doubted ← gets (doubts_event id)
  update_events doubted (event_in_doubt at)
  in_doubt ← gets (doubts_notice id)
  update_completions in_doubt reviewed_notice

abbrev content_gone : Revision → ℕ → Bool
content_gone v now = is_none v.content || opt_leb v.content_delete_at now

abbrev pub unusable : Revision → ℕ → Bool
unusable v now = leb v.expires_at now || content_gone v now

abbrev cancelled_schedule : ℕ → Schedule → Schedule
cancelled_schedule at r = record r {
  state = ScheduleState.cancelled;
  updated_at = at;
  terminal_at = some at;
}

unfoldable cancel_unusable : Schedule → Actor → ℕ → Db Schedule
unfolding suppress update_schedules retire_revisions get audit complete_if_drained text_discrete
cancel_unusable before actor at = do
  suppress before.schedule_id at Reason.cancelled
  update_schedules (schedule_is before.schedule_id) (cancelled_schedule at)
  retire_revisions before.schedule_id at none
  found ← gets (get before.schedule_id)
  after ← required found
  audit (some before) after "cancel" actor at no_parts
  complete_if_drained before.schedule_id at
  last ← gets (get before.schedule_id)
  required last

unfoldable expire_unusable : Schedule → Actor → ℕ → Db Schedule
unfolding expire_schedule get
expire_unusable before actor at = do
  expire_schedule before actor at
  last ← gets (get before.schedule_id)
  required last

abbrev next_revision : Revision → ℕ → Revision
next_revision v at = record v { revision = v.revision + 1; created_at = at }

abbrev moved_schedule : Operation → ℕ → Schedule → Schedule
moved_schedule operation at r = record r {
  state = state_after operation;
  revision = r.revision + 1;
  updated_at = at;
  terminal_at = if is_cancel operation then some at else none;
}

-- Every change makes a new revision; a copied revision keeps its authorization's end.
unfoldable move_schedule : Operation → Schedule → Revision → Actor → ℕ → Db Schedule
unfolding retire_revisions update_schedules drop_claim suppress get audit complete_if_drained
    text_discrete
move_schedule operation before old actor at = do
  modify λ s. record s { revisions = s.revisions ++ next_revision old at ∷ [] }
  retire_revisions before.schedule_id at (some before.revision)
  update_schedules (schedule_is before.schedule_id) (moved_schedule operation at)
  drop_claim before.schedule_id
  when (not (is_resume operation)) (suppress before.schedule_id at Reason.cancelled)
  when (is_cancel operation) (retire_revisions before.schedule_id at none)
  found ← gets (get before.schedule_id)
  after ← required found
  audit (some before) after (operation_text operation) actor at no_parts
  complete_if_drained before.schedule_id at
  last ← gets (get before.schedule_id)
  required last

unfoldable finish_transition : Operation → Schedule → Revision → Actor → ℕ → ℕ → Db Schedule
unfolding cancel_unusable expire_unusable move_schedule
finish_transition operation before old actor now at =
    if unusable old now
    then (if is_cancel operation
        then cancel_unusable before actor at
        else expire_unusable before actor at)
    else move_schedule operation before old actor at

abbrev may_resume : Revision → ℕ → Bool
may_resume old now = is_none old.terminal_at && not (unusable old now)

unfoldable pub transition : (String → Bool) → String → ℕ → Operation → Actor → ℕ → Db Schedule
unfolding checked may_be_posted revision_of transition_at withdraw_notices finish_transition
transition posts id expected_revision operation actor now = transaction do
  before ← checked id expected_revision actor (is_resume operation)
  posted ← gets λ s. find? (may_be_posted posts id s) s.completions
  require (is_none posted) "reconcile_required"
  require (may_undergo operation before.state) "invalid_transition"
  found ← gets (revision_of before.schedule_id before.revision)
  old ← required found
  at ← gets (transition_at now before)
  when (not (is_resume operation)) (withdraw_notices id at)
  require (not (is_resume operation) || may_resume old now) "authorization_expired"
  finish_transition operation before old actor now at
