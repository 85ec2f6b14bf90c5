-- ===== src/Dispatcher/Examples.antt =====
-- The dispatcher's theorems at one event.
use dona.Prelude.{
  String, true, false, [], ◌∷◌, Option, none, some, ◌≡◌, refl, ap, arith, text_eq, text_discrete,
  find?, update_where, count_where, select_where,
}
use dona.Exec.{ok, pure, gets, modify, require, transaction, ◌>>=◌}
use dona.Dispatcher.Events.{
  queued, dispatching, waiting_agent, completed, status_discrete, EventRow, Fault, Tables, Others,
  in_others, get, get_required, update_events, update_one,
}
use dona.Dispatcher.Queue.{
  seal, transition, suppress_all, suppress_unauthorized, mark_waiting, remove_backup, begun_row,
  start, begin_dispatch, is_suppressed,
}
use dona.Dispatcher.Worker.{
  Turn, HerdrResult, missing, idle, accept, after_prompt, submit, on_access, dispatch,
}
use dona.Dispatcher.Phases.{Advances, Advances-order}
use dona.Dispatcher.Turns.{Advancing, dispatch-Advances}
use dona.Dispatcher.Recovery.{recover_stale_dispatching}
use dona.Dispatcher.Recovered.{turns, recovers}
use dona.Dispatcher.Histories.{acts, others_leave, Spares}
use dona.Dispatcher.Accepted.{accepted-NotBegun}

abbrev others : Others Unit
others = record {
  seal_job_group = λ id at x. x;
  seal_dispatching = λ events at x. x;
  settle_work_event = λ id state at x. (ok tt, x);
  set_notification = λ id state at x. (ok tt, x);
  complete_if_drained = λ id at x. (ok tt, x);
  unauthorized = λ at events x. [];
  notifications_of = λ events x. [];
}

abbrev event : EventRow
event = record {
  sequence = 1;
  event_id = "evt_1";
  schema_version = 1;
  source = "slack";
  external_event_id = "Ev1";
  event_type = "message";
  occurred_at = 10;
  subject_json = "{}";
  payload_json = "{}";
  reply_target_json = none;
  trace_json = none;
  status = queued;
  attempt_count = 0;
  available_at = 10;
  dispatch_started_at = none;
  prompt_accepted_at = none;
  completed_at = none;
  result_json = none;
  result_path = none;
  last_error_code = none;
  last_error_message = none;
  created_at = 10;
  updated_at = 10;
  schedule_access_checked_at = none;
  schedule_access_consumed_at = none;
}

abbrev tables : Tables Unit
tables = record { events = event ∷ []; others = tt }

abbrev fine : HerdrResult
fine = record {
  succeeded = true;
  stdout = "";
  stderr = "";
  timed_out = false;
  aborted = false;
  error_code = none;
  agent_status = some idle;
}

abbrev quiet_turn : Turn Unit
quiet_turn = record {
  preflight = fine;
  access = missing;
  prompted = fine;
  stopping_at_preflight = false;
  stopping_at_prompt = false;
  at_preflight = 20;
  at_access = 30;
  at_prompt = 40;
  during_preflight = λ s. s;
  during_access = λ s. s;
  during_prompt = λ s. s;
}

abbrev no_backup : String → String
no_backup id = "none"

abbrev no_fault : String → Option Fault
no_fault path = none

abbrev same_text : String → String
same_text t = t

abbrev message_of : Fault → String
message_of e = "fault"

abbrev after_turn : Tables Unit
after_turn =
    (dispatch others same_text no_fault no_backup same_text message_of 3 quiet_turn event tables).1

abbrev waiting_row : EventRow
waiting_row = record event {
  status = waiting_agent;
  attempt_count = 1;
  dispatch_started_at = some 30;
  prompt_accepted_at = some 40;
  result_path = some "evt_1";
}

evaluated : Unit {0}
unfolding select_where recover_stale_dispatching text_discrete find? update_where count_where pure
    gets modify require transaction ◌>>=◌ status_discrete in_others get get_required update_events
    update_one seal transition suppress_all suppress_unauthorized mark_waiting remove_backup
    begun_row start begin_dispatch accept after_prompt submit on_access dispatch
evaluated = tt

prompt_accepted : get "evt_1" after_turn ≡ some (record waiting_row { updated_at = 40 })
unfolding evaluated
prompt_accepted = refl

quiet_turn-Advancing : Advancing quiet_turn
quiet_turn-Advancing = record {
  preflight_advances = Advances-order.same;
  access_advances = Advances-order.same;
  prompt_advances = Advances-order.same;
}

dispatch-Advances_example : Advances tables after_turn
dispatch-Advances_example =
    dispatch-Advances others same_text no_fault no_backup same_text message_of 3 quiet_turn event
      tables quiet_turn-Advancing

-- A notification that was suppressed after its prompt.
abbrev suppressed_row : EventRow
suppressed_row = record event { status = completed; last_error_code = some "schedule_suppressed" }

abbrev settled_tables : Tables Unit
settled_tables = record { events = suppressed_row ∷ []; others = tt }

-- Another event comes in.
abbrev enqueued_tables : Tables Unit
enqueued_tables = record {
  events = suppressed_row ∷ record event { sequence = 2; event_id = "evt_2" } ∷ [];
  others = tt;
}

enqueued-Spares : Spares "evt_1" settled_tables enqueued_tables
unfolding evaluated
enqueued-Spares = record {
  distinct_kept = λ d. ((other_id, tt), (tt, tt));
  later = record { further = omega arith; attempted = omega arith };
}
  where
    other_id : ◌≡◌ {A = String} "evt_1" "evt_2" → ⊥
    other_id e = let p : false ≡ true = ap (λ (i : String). text_eq i "evt_2") e in cc p

accepted-NotBegun_example : is_suppressed others same_text no_fault no_backup suppressed_row ≡ true
unfolding evaluated
accepted-NotBegun_example =
    accepted-NotBegun others same_text no_fault no_backup same_text message_of 3
      (others_leave enqueued_tables ∷ acts (turns quiet_turn event) ∷ acts (recovers 45) ∷ [])
      settled_tables "evt_1" "evt_1" 50 suppressed_row suppressed_row (tt, tt)
      (enqueued-Spares, (quiet_turn-Advancing, (tt, tt))) refl (omega arith) refl

-- The dispatcher stopped while it waited for the answer to a prompt.
abbrev stale_tables : Tables Unit
stale_tables = record {
  events = record event { status = dispatching; attempt_count = 1 } ∷ [];
  others = tt;
}
