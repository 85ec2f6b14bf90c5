-- ===== src/Schedules/Occurrence.antt =====
-- dispatcher/src/scheduler/repository.ts: `materialize`.
use Prim.Native.String
use dona.Prelude.{
  ℕ, String, Bool, true, false, not, ◌&&◌, ◌||◌, List, [], ◌∷◌, ◌++◌, Option, none, some, is_some,
  find?, text_eq, text_discrete, leb, ◌==◌, if◌then◌else◌, is_yes,
}
use dona.Exec.{pure, gets, modify, require, transaction, ◌>>=◌, ◌>>◌}
use dona.Dispatcher.Events.{EventRow}
use dona.Schedules.Texts.{strip_revision}
use dona.Schedules.Rows.{
  Schedule, Revision, Run, Reason, Action, Target, Binding, Tables, reminder_post, work_read_only,
  no_target, thread, channel, owner_dm, reminder,
}
use dona.Schedules.Store.{
  Db, latest, required, or_throw, get, get_run, run_is, revision_of, checked, audit, AuditParts,
  schedule_is, update_runs, update_schedules,
}
use dona.Schedules.Drain.{complete_if_drained, expire_schedule, schedule_times}
use dona.Schedules.Delivery.{Host, draw, insert_outbox}
use dona.Schedules.Claims.{drop_claim}
use dona.Schedules.Materialize.{
  WorkEvent, EnqueueResult, Queue, Request, claim_stands, occurrence_of, next_due_ok, occurrence_ok,
  check_compact, skip_reason, skip_ok, key_of, new_run, insert_run,
}

event_is : String → EventRow → Bool
unfolding text_discrete
event_is id e = text_eq e.event_id id

abbrev reply_of : Queue → Option EventRow → Option (String × String)
reply_of queue none = none
reply_of queue (some e) = elim e.reply_target_json [
  | none ↦ none
  | some json ↦ queue.reply_place json
]

-- Where the authorization was given.
unfoldable authorization_target : Queue → Revision → Tables → Option (String × String)
unfolding event_is strip_revision
authorization_target queue v s =
    reply_of queue (find? (event_is (strip_revision v.authorization_id)) s.events)

abbrev work_event :
    Queue → Request → Schedule → Revision → Run → Option (String × String) → WorkEvent
work_event queue q row v run place = record {
  external_event_id =
      String.◌++◌ "schedule:v1:"
        (String.◌++◌ q.schedule_id (String.◌++◌ ":" (queue.instant_text q.scheduled_for)));
  occurred_at = q.scheduled_for;
  tenant_id = row.tenant_id;
  owner_id = row.owner_id;
  schedule_id = q.schedule_id;
  run_id = run.run_id;
  revision = q.expected_revision;
  occurrence_key = run.occurrence_key;
  objective = v.content;
  result_destination = v.target_json;
  authorization_target = place;
}

unfoldable target_discrete : Discrete Target
unfolding text_discrete
target_discrete = hlevel text_discrete

unfoldable other_tenant : String → Target → Bool
unfolding text_discrete
other_tenant tenant no_target = false
other_tenant tenant (thread workspace place ts) = not (text_eq workspace tenant)
other_tenant tenant (channel workspace place) = not (text_eq workspace tenant)
other_tenant tenant (owner_dm workspace place who) = not (text_eq workspace tenant)

unfoldable same_binding : Binding → Binding → Bool
unfolding text_discrete target_discrete
same_binding a b =
    text_eq a.tenant_id b.tenant_id
    && text_eq a.owner_id b.owner_id
    && text_eq a.schedule_id b.schedule_id
    && text_eq a.run_id b.run_id
    && a.revision == b.revision
    && is_yes (target_discrete a.destination b.destination)

abbrev binding_is : String → Binding → Bool
binding_is id b = text_eq b.event_id id

abbrev save_binding : Binding → Option Binding → Db Unit
save_binding new none = modify λ s. record s { bindings = s.bindings ++ new ∷ [] }
save_binding new (some old) = require (same_binding old new) "Event job binding conflict"

-- `insertEventJobBinding` of job-routing.ts, for the owner of a scheduled run.
unfoldable insert_event_job_binding : Binding → Db Unit
unfolding other_tenant same_binding text_discrete
insert_event_job_binding new = do
  require (not (other_tenant new.tenant_id new.destination)) "Cross-tenant destination denied"
  saved ← gets λ s. find? (binding_is new.event_id) s.bindings
  save_binding new saved

abbrev with_event : String → Run → Run
with_event id run = record run { event_id = some id }

abbrev put_events : EnqueueResult × List EventRow → Tables → Tables
put_events (r, events) s = record s { events = events }

unfoldable delegate_work : Queue → Request → Schedule → Revision → Run → ℕ → Db Unit
unfolding authorization_target update_runs insert_event_job_binding text_discrete
delegate_work queue q row v run at = do
  place ← gets (authorization_target queue v)
  result ← gets λ s. queue.enqueue (work_event queue q row v run place) at s.events
  modify (put_events result)
  require (not (result.0.duplicate || result.0.payload_mismatch)) "event_idempotency_conflict"
  update_runs (run_is run.run_id) (with_event result.0.event_id)
  insert_event_job_binding (record {
    event_id = result.0.event_id;
    tenant_id = row.tenant_id;
    owner_id = row.owner_id;
    schedule_id = q.schedule_id;
    run_id = run.run_id;
    revision = q.expected_revision;
    destination = v.target_json;
  })

-- What a run that is not skipped asks for: a row of the outbox, or an event.
unfoldable ask : Host → Queue → Request → Schedule → Revision → String → Run → ℕ → Action → Db Unit
unfolding insert_outbox delegate_work
ask h queue q row v content run at reminder_post =
    insert_outbox h run.run_id reminder v.target_json content at
ask h queue q row v content run at work_read_only = delegate_work queue q row v run at

unfoldable ask_unless :
    Host → Queue → Request → Schedule → Revision → String → Run → ℕ → Option Reason → Db Unit
unfolding ask
ask_unless h queue q row v content run at none = ask h queue q row v content run at v.action
ask_unless h queue q row v content run at (some reason) = pure tt

abbrev pub advanced : Request → ℕ → Schedule → Schedule
advanced q at r = record r {
  high_watermark = some q.scheduled_for;
  next_due = q.next_due;
  updated_at = at;
}

pub record Materialized : Type 0 where
  pub run : Run
  pub duplicate : Bool

abbrev pub if_claimed : Request → Db Unit → Db Unit
if_claimed q m = elim q.claim [ none ↦ pure tt | some held ↦ m ]

abbrev pub about_occurrence : Option Run → Request → AuditParts
about_occurrence run q = record {
  outbox = none;
  run = run;
  compact_skip = q.compact_skip;
  decision_code = none;
}

-- The run is written, and the schedule goes on to its next occurrence.
unfoldable pub record_run :
    Host → Queue → Request → Schedule → Revision → String → ℕ → Db Materialized
unfolding skip_reason draw insert_run ask_unless update_schedules drop_claim audit
    complete_if_drained get get_run text_discrete
record_run h queue q row v content at = do
  reason ← gets (skip_reason q at)
  require (skip_ok q.skip reason) "invalid_skip_reason"
  drawn ← draw h
  let run = new_run q (String.◌++◌ "run_" drawn) (key_of queue q) at reason
  insert_run run
  ask_unless h queue q row v content run at reason
  update_schedules (schedule_is q.schedule_id) (advanced q at)
  if_claimed q (drop_claim q.schedule_id)
  found ← gets (get q.schedule_id)
  after ← required found
  written ← gets (get_run run.run_id)
  audit (some row) after "materialize" q.actor at (about_occurrence written q)
  complete_if_drained q.schedule_id at
  last ← gets (get_run run.run_id)
  result ← required last
  pure (record { run = result; duplicate = false })

abbrev pub content_now : Revision → ℕ → Option String
content_now v at = if leb v.expires_at at then none else v.content

-- What is left when the authorization has ended: the schedule expires.
unfoldable pub record_or_expire :
    Host → Queue → Request → Schedule → Revision → ℕ → Option String → Db (Option Materialized)
unfolding record_run expire_schedule
record_or_expire h queue q row v at none = do expire_schedule row q.actor at; pure none
record_or_expire h queue q row v at (some content) = do
  result ← record_run h queue q row v content at
  pure (some result)

unfoldable pub materialize_new : Host → Queue → Request → Schedule → ℕ → Db (Option Materialized)
unfolding record_or_expire revision_of
materialize_new h queue q row at = do
  require (row.revision == q.expected_revision) "revision_conflict"
  require (next_due_ok q at) "invalid_next_due"
  require (occurrence_ok q at row) "invalid_occurrence"
  found ← gets (revision_of row.schedule_id row.revision)
  v ← required found
  require (is_some q.next_due || v.recurrence_json.is_once) "invalid_next_due"
  check_compact q at row v q.compact_skip
  record_or_expire h queue q row v at (content_now v at)

-- An occurrence that is already a run is returned as it is.
unfoldable pub materialize_found :
    Host → Queue → Request → Schedule → ℕ → Option Run → Db (Option Materialized)
unfolding materialize_new drop_claim
materialize_found h queue q row at none = materialize_new h queue q row at
materialize_found h queue q row at (some run) = do
  if_claimed q (drop_claim q.schedule_id)
  pure (some (record { run = run; duplicate = true }))

unfoldable pub materialize_checked : Host → Queue → Request → Db (Option Materialized)
unfolding get checked claim_stands occurrence_of materialize_found
materialize_checked h queue q = do
  found ← gets (get q.schedule_id)
  current ← or_throw "schedule_not_found" found
  row ← checked q.schedule_id current.revision q.actor false
  stands ← gets (claim_stands q)
  require stands "claim_conflict"
  existing ← gets (occurrence_of q.schedule_id q.scheduled_for)
  materialize_found h queue q row (latest q.now (schedule_times row)) existing

unfoldable pub materialize : Host → Queue → Request → Db Materialized
unfolding materialize_checked
materialize h queue q = do
  result ← transaction (materialize_checked h queue q)
  or_throw "authorization_expired" result
