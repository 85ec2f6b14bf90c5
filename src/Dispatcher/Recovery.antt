-- ===== src/Dispatcher/Recovery.antt =====
-- dispatcher/src/database.ts: the events that a restart finds in flight, and the results that the
-- dispatcher writes itself.
use dona.Prelude.{
  ℕ, String, Bool, if◌then◌else◌, List, [], ◌∷◌, Option, none, some, ◌&&◌, text_eq, text_discrete,
  select_where, count_where, map,
}
use dona.Exec.{pure, gets, modify, transaction, ◌>>=◌, ◌>>◌}
use dona.Dispatcher.Events.{
  EventStatus, dispatching, completed, needs_review, status_discrete, EventRow, Tables, Others,
  notify_needs_review, is_in, in_others, get_required, update_events,
}
use dona.Dispatcher.Queue.{Db, transition, dispatchable, failed_with, whole_second}

-- The columns of a result that are stored.
pub record StoredResult : Type 0 where
  pub json : String
  pub summary : Option String
  pub completed_at : ℕ

abbrev pub is_stale : EventRow → Bool
is_stale r = is_in (dispatching ∷ []) r.status

abbrev pub unknown_acceptance : ℕ → EventRow → EventRow
unknown_acceptance at r = record r {
  status = needs_review;
  last_error_code = some "stale_dispatching";
  last_error_message = some "Dispatcher restarted while prompt acceptance was unknown";
  updated_at = at;
}

abbrev pub with_result : StoredResult → String → EventRow → EventRow
with_result result path r = record r {
  result_json = some result.json;
  result_path = some path;
  completed_at = some result.completed_at;
}

abbrev pub succeeded_with : StoredResult → String → EventRow → EventRow
succeeded_with result path r = record (with_result result path r) {
  last_error_code = none;
  last_error_message = none;
}

module _ {X : Type 0} (o : Others X) where
  unfoldable pub for_each : (String → Db o Unit) → List String → Db o Unit
  for_each f [] = pure tt
  for_each f (id ∷ ids) = f id >> for_each f ids

  -- What follows the UPDATE for the events that were dispatching.
  unfoldable pub settle_stale : List EventRow → List String → ℕ → Db o ℕ
  unfolding in_others for_each status_discrete text_discrete
  settle_stale events notifications at = do
    for_each (λ id. in_others (o.settle_work_event id notify_needs_review (whole_second at)))
        (map EventRow.event_id
          (select_where (λ r. is_stale r && text_eq r.source "dona_schedule") events))
    for_each (λ id. in_others (o.set_notification id notify_needs_review at)) notifications
    pure (count_where is_stale events)

  unfoldable pub recover_stale_dispatching : ℕ → Db o ℕ
  unfolding update_events settle_stale status_discrete text_discrete
  recover_stale_dispatching at = transaction do
    events ← gets Tables.events
    modify λ s. record s { others = o.seal_dispatching events at s.others }
    notifications ← gets λ s. o.notifications_of (select_where is_stale s.events) s.others
    update_events is_stale (unknown_acceptance at)
    settle_stale events notifications at

  abbrev pub unless_in : List EventStatus → EventRow → Db o Unit → Db o Unit
  unless_in statuses row m = if is_in statuses row.status then pure tt else m

  unfoldable pub save_deterministic_completed : String → StoredResult → String → ℕ → Db o Unit
  unfolding transition get_required status_discrete
  save_deterministic_completed id result path now = do
    row ← get_required id
    unless_in (completed ∷ []) row
        (transition o id dispatchable completed (succeeded_with result path) now)

  abbrev pub or_default : Option String → String
  or_default none = "Update notification requires review"
  or_default (some summary) = summary

  unfoldable pub save_deterministic_failure :
      String → StoredResult → String → String → ℕ → Db o Unit
  unfolding transition get_required status_discrete
  save_deterministic_failure id result path code now = do
    row ← get_required id
    unless_in (needs_review ∷ completed ∷ []) row (
        transition o id dispatchable needs_review
          (λ r. failed_with code (or_default result.summary) (with_result result path r)) now)
