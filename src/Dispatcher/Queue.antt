-- ===== src/Dispatcher/Queue.antt =====
-- dispatcher/src/database.ts: the methods that move an event through the queue.
use dona.Prelude.{
  ℕ, String, Bool, true, false, not, ◌&&◌, ◌||◌, List, [], ◌∷◌, Option, none, some, is_some, opt_is,
  find?, count_where, text_eq, text_discrete, leb, ◌==◌, ◌+◌, ◌-◌, ◌*◌, ◌/◌, if◌then◌else◌,
}
use dona.Exec.{Exec, raise, pure, gets, modify, transaction, ◌>>=◌, ◌>>◌}
use dona.Dispatcher.Events.{
  EventStatus, queued, dispatching, waiting_agent, completed, retryable_failed, blocked,
  needs_review, dead_letter, status_discrete, EventRow, Fault, not_dispatchable, not_dispatching,
  invalid_transition, Tables, Others, Unauthorized, notify_none, notify_failed, notify_needs_review,
  is_in, has_id, in_others, get, get_required, update_events, update_one,
}

-- `retryDelaysMs`, by the number of the attempt.
abbrev pub retry_delay : ℕ → ℕ
retry_delay n = if n == 0 then 5000 else if n == 1 then 30000 else if n == 2 then 120000 else 600000

abbrev pub retry_at : ℕ → ℕ → ℕ
retry_at attempt now = now + retry_delay (attempt - 1)

abbrev pub whole_second : ℕ → ℕ
whole_second at = at / 1000 * 1000

abbrev pub dispatchable : List EventStatus
dispatchable = queued ∷ retryable_failed ∷ []

abbrev pub agent_owned : List EventStatus
agent_owned = dispatching ∷ waiting_agent ∷ []

abbrev pub resting : List EventStatus
resting = completed ∷ blocked ∷ needs_review ∷ dead_letter ∷ []

abbrev pub suppressible : List EventStatus
suppressible = queued ∷ retryable_failed ∷ dispatching ∷ waiting_agent ∷ blocked ∷ []

abbrev pub retry_status : ℕ → ℕ → EventStatus
retry_status attempts max_attempts =
    if leb max_attempts attempts then dead_letter else retryable_failed

abbrev retry_time : ℕ → ℕ → ℕ → ℕ
retry_time attempts max_attempts at = if leb max_attempts attempts then at else retry_at attempts at

-- The columns that each statement sets.
abbrev pub accepted : ℕ → EventRow → EventRow
accepted at r = record r {
  prompt_accepted_at = some at;
  last_error_code = none;
  last_error_message = none;
}

abbrev pub failed_with : String → String → EventRow → EventRow
failed_with code message r = record r {
  last_error_code = some code;
  last_error_message = some message;
}

abbrev pub ambiguous : ℕ → EventRow → EventRow
ambiguous at r = record r {
  status = needs_review;
  updated_at = at;
  last_error_code = some "notification_delivery_ambiguous";
  last_error_message = none;
}

abbrev pub suppressed : ℕ → EventRow → EventRow
suppressed at r = record r {
  status = completed;
  completed_at = some at;
  updated_at = at;
  last_error_code = some "schedule_notification_suppressed";
  last_error_message = none;
}

abbrev pub retried : ℕ → ℕ → String → String → ℕ → EventRow → EventRow
retried attempts max_attempts code message at r = record r {
  status = retry_status attempts max_attempts;
  attempt_count = attempts;
  available_at = retry_time attempts max_attempts at;
  last_error_code = some code;
  last_error_message = some message;
  updated_at = at;
}

abbrev pub given_up : ℕ → ℕ → String → String → ℕ → EventRow → EventRow
given_up attempts max_attempts code message at r = record r {
  status = retry_status attempts max_attempts;
  available_at = retry_time attempts max_attempts at;
  last_error_code = some code;
  last_error_message = some message;
  updated_at = at;
}

abbrev pub failed_waiting : String → String → ℕ → EventRow → EventRow
failed_waiting code message at r = record r {
  last_error_code = some code;
  last_error_message = some message;
  updated_at = at;
}

abbrev pub begun : String → ℕ → EventRow → EventRow
begun path at r = record r {
  status = dispatching;
  attempt_count = r.attempt_count + 1;
  dispatch_started_at = some at;
  prompt_accepted_at = none;
  result_path = some path;
  last_error_code = none;
  last_error_message = none;
  updated_at = at;
}

-- The row of an event with its status in a list.
abbrev pub is_at : String → List EventStatus → EventRow → Bool
is_at id statuses r = has_id id r && is_in statuses r.status

abbrev pub moved : EventStatus → ℕ → (EventRow → EventRow) → EventRow → EventRow
moved to now values r = record (values r) { status = to; updated_at = now }

module _ {X : Type 0} (o : Others X) where
  abbrev pub Db : Type 0 → Type 0
  Db A = Exec Fault (Tables X) A

  -- `UPDATE job_groups SET sealed_at … WHERE source_event_id = ?`.
  unfoldable pub seal : String → ℕ → Db Unit
  seal id at = modify λ s. record s { others = o.seal_job_group id at s.others }

  -- The private `transition`, with the columns that it sets beside status and time.
  unfoldable pub transition :
      String → List EventStatus → EventStatus → (EventRow → EventRow) → ℕ → Db Unit
  unfolding get_required update_one seal status_discrete
  transition id from to values now = transaction do
    current ← get_required id
    update_one (is_at id from) (moved to now values) (invalid_transition id to)
    if is_in agent_owned current.status && not (is_in agent_owned to) || is_in resting to
        then seal id now
        else pure tt

  -- Whether the notification may have been sent.
  abbrev pub is_ambiguous : Unauthorized → Bool
  is_ambiguous row =
      is_in agent_owned row.status_seen
      || is_in (blocked ∷ []) row.status_seen && row.write_allowed
      || row.review_asked && row.write_allowed

  unfoldable pub review_notification : ℕ → Unauthorized → Db Unit
  unfolding update_events in_others status_discrete
  review_notification at row = do
    update_events (is_at row.event_id suppressible) (ambiguous at)
    in_others (o.set_notification row.event_id notify_needs_review at)

  unfoldable pub drop_notification : ℕ → Unauthorized → Db Unit
  unfolding update_events in_others status_discrete
  drop_notification at row = do
    update_events (is_at row.event_id suppressible) (suppressed at)
    in_others (o.set_notification row.event_id notify_none at)
    in_others (o.complete_if_drained row.schedule_id at)

  unfoldable pub suppress_one : ℕ → Unauthorized → Db Unit
  unfolding review_notification drop_notification status_discrete
  suppress_one at row =
      if is_ambiguous row then review_notification at row else drop_notification at row

  unfoldable pub suppress_all : ℕ → List Unauthorized → Db Unit
  unfolding suppress_one
  suppress_all at [] = pure tt
  suppress_all at (row ∷ rows) = suppress_one at row >> suppress_all at rows

  unfoldable pub suppress_unauthorized : ℕ → Db Unit
  unfolding suppress_all
  suppress_unauthorized at =
      transaction do rows ← gets λ s. o.unauthorized at s.events s.others; suppress_all at rows

  unfoldable pub has_blocked_event : ℕ → Db Bool
  unfolding suppress_unauthorized
  has_blocked_event at = do
    suppress_unauthorized at
    gets λ s. is_some (find? (λ r. is_in (blocked ∷ []) r.status) s.events)

  unfoldable pub next_waiting : ℕ → Db (Option EventRow)
  unfolding suppress_unauthorized
  next_waiting at = do
    suppress_unauthorized at
    gets λ s. find? (λ r. is_in (waiting_agent ∷ []) r.status) s.events

  abbrev if_due : ℕ → Option EventRow → Option EventRow
  if_due at none = none
  if_due at (some r) = if leb r.available_at at then some r else none

  abbrev is_head : EventRow → Bool
  is_head r =
      is_in dispatchable r.status
      && not (text_eq r.source "dona_update")
      && not (text_eq r.source "scheduler")

  unfoldable pub next_available : ℕ → Db (Option EventRow)
  unfolding suppress_unauthorized status_discrete
  next_available at = do suppress_unauthorized at; gets λ s. if_due at (find? is_head s.events)

  unfoldable pub mark_waiting : String → ℕ → ℕ → Db Unit
  unfolding transition
  mark_waiting id at now = transition id (dispatching ∷ []) waiting_agent (accepted at) now

  unfoldable pub mark_blocked : String → String → List EventStatus → ℕ → ℕ → Db Unit
  unfolding transition get_required in_others
  mark_blocked id message from at now = transaction do
    row ← get_required id
    transition id from (if text_eq row.source "dona_schedule" then needs_review else blocked)
        (failed_with "agent_blocked" message) now
    in_others (o.settle_work_event id notify_needs_review (whole_second at))
    in_others (o.set_notification id notify_needs_review at)

  unfoldable pub mark_needs_review : String → String → String → ℕ → Db Unit
  unfolding transition in_others
  mark_needs_review id code message now = transaction do
    transition id agent_owned needs_review (failed_with code message) now
    in_others (o.settle_work_event id notify_needs_review (whole_second now))
    in_others (o.set_notification id notify_needs_review now)

  -- What a dead letter does to the other tables.
  unfoldable pub bury : EventStatus → String → ℕ → Db Unit
  unfolding seal in_others
  bury dead_letter id at = do
    seal id at
    in_others (o.settle_work_event id notify_failed (whole_second at))
    in_others (o.set_notification id notify_failed at)
  bury status id at = pure tt

  abbrev pub row_in : List EventStatus → Option EventRow → Fault → Db EventRow
  row_in statuses none e = raise e
  row_in statuses (some r) e = if is_in statuses r.status then pure r else raise e

  unfoldable pub record_pre_dispatch_failure : String → String → String → ℕ → ℕ → Db EventRow
  unfolding get get_required update_events bury status_discrete
  record_pre_dispatch_failure id code message max_attempts at = transaction do
    found ← gets (get id)
    row ← row_in dispatchable found (not_dispatchable id)
    update_events (has_id id) (retried (row.attempt_count + 1) max_attempts code message at)
    bury (retry_status (row.attempt_count + 1) max_attempts) id at
    get_required id

  unfoldable pub record_safe_prompt_failure : String → String → String → ℕ → ℕ → Db EventRow
  unfolding get get_required update_events bury seal status_discrete
  record_safe_prompt_failure id code message max_attempts at = transaction do
    found ← gets (get id)
    row ← row_in (dispatching ∷ []) found (not_dispatching id)
    update_events (has_id id) (given_up row.attempt_count max_attempts code message at)
    bury (retry_status row.attempt_count max_attempts) id at
    seal id at
    get_required id

  unfoldable pub record_waiting_error : String → String → String → ℕ → Db Unit
  unfolding update_events status_discrete
  record_waiting_error id code message at =
      update_events (is_at id (waiting_agent ∷ [])) (failed_waiting code message at)

  module _ (basename : String → String) (unlink : String → Option Fault)
      (backup_of : String → String) where
    -- The backup file of a migration, which is removed: an error but ENOENT is thrown.
    abbrev backup_in : EventRow → Option String → Option String
    backup_in row none = none
    backup_in row (some path) =
        if text_eq row.source "dona_schedule" && text_eq (basename path) (backup_of row.event_id)
        then some path
        else none

    abbrev pub thrown : Option Fault → Db Unit
    thrown none = pure tt
    thrown (some e) = raise e

    abbrev pub remove_file : Option String → Db Unit
    remove_file none = pure tt
    remove_file (some path) = thrown (unlink path)

    unfoldable pub remove_backup : EventRow → Db Unit
    unfolding text_discrete
    remove_backup row = remove_file (backup_in row row.result_path)

    abbrev pub is_suppressed : EventRow → Bool
    is_suppressed r =
        is_in (completed ∷ []) r.status
        && (opt_is "schedule_suppressed" r.last_error_code
            || opt_is "schedule_notification_suppressed" r.last_error_code)

    abbrev pub or_suppressed : String → Option EventRow → Db EventRow
    or_suppressed id none = raise (not_dispatchable id)
    or_suppressed id (some r) = if is_suppressed r then pure r else raise (not_dispatchable id)

    unfoldable pub begun_row : Bool → String → Option EventRow → Db EventRow
    unfolding get_required status_discrete text_discrete
    begun_row true id current = get_required id
    begun_row false id current = or_suppressed id current

    -- `beginDispatch` from its UPDATE on.
    unfoldable pub start : String → String → ℕ → Db EventRow
    unfolding get update_events begun_row status_discrete
    start id path at = do
      changed ← gets λ s. count_where (is_at id dispatchable) s.events
      update_events (is_at id dispatchable) (begun path at)
      current ← gets (get id)
      begun_row (changed == 1) id current

    unfoldable pub begin_dispatch : String → String → ℕ → Db EventRow
    unfolding suppress_unauthorized get_required remove_backup start
    begin_dispatch id path at = do
      suppress_unauthorized at
      before ← get_required id
      remove_backup before
      start id path at
