-- ===== src/Schedules/OnceExamples.antt =====
-- Tests and an example of `materialize` of dispatcher/src/scheduler/repository.ts.
use dona.Prelude.{
  ◌<◌, ◌+◌, sort_with, ◌≡◌, refl, true, false, find?, select_where, update_where, count_where, none,
  some, arith, [],
}
use mathlib.Core.Option
use dona.Exec.{ok, ◌>>=◌, require, transaction, modify}
use dona.Schedules.Rows.{Tables, Run, RunStatus, Schedule}
use dona.Schedules.Store.{get}
use dona.Schedules.Materialize.{Queue, Request, occurrence_of}
use dona.Schedules.Occurrence.{materialize}
use dona.Schedules.Once.{materialize-IsOnce}
use dona.Schedules.Examples.{host, schedule, tables, given_claim, claiming, held, request}
use dona.Schedules.Claims.{claim_due}
use dona.Schedules.Fences.{claim_due-Excludes}

abbrev queue : Queue
queue = record {
  enqueue = λ e at events.
      (record { event_id = "ev2"; duplicate = false; payload_mismatch = false }, events);
  instant_text = λ t. "t";
  reply_place = λ s. none;
}

abbrev due : Tables
due = record claiming { runs = []; outbox = [] }

abbrev made : Run
made = record {
  run_id = "run_first";
  schedule_id = "s1";
  revision = 1;
  occurrence_key = "k2";
  scheduled_for = 100000;
  status = RunStatus.materialized;
  reason = none;
  event_id = none;
  job_id = none;
  created_at = 100020;
  started_at = none;
  terminal_at = none;
}

-- The request again, by a caller that holds no claim.
abbrev again : Request
again = record request { claim = none }

unfoldable materialized_tables : Tables
unfolding materialize
materialized_tables = (materialize host queue request due).1

makes :
    materialize host queue request due
    ≡ (ok (record { run = made; duplicate = false }), materialized_tables)
unfolding materialized_tables materialize find? ◌>>=◌ require transaction select_where modify
    update_where count_where
makes = refl

advances : Option.map Schedule.high_watermark (get "s1" materialized_tables) ≡ some (some 100000)
unfolding materialized_tables materialize get find? ◌>>=◌ require transaction select_where modify
    update_where count_where
advances = refl

repeats :
    (materialize host queue again materialized_tables).0
    ≡ ok (record { run = made; duplicate = true })
unfolding materialized_tables materialize find? ◌>>=◌ require transaction select_where modify
    update_where count_where
repeats = refl

abbrev unclaimed : Tables
unclaimed = record tables { runs = []; outbox = [] }

claims_due : claim_due "w1" 100010 60 [] unclaimed ≡ (ok (some (schedule, given_claim)), due)
unfolding claim_due find? ◌>>=◌ require transaction select_where modify update_where sort_with
claims_due = refl

claim_due-Excludes_example :
    (1 ≡ given_claim.claim_fence) × (held.owner ≡ "w1") × (100020 < 100010 + 60)
claim_due-Excludes_example =
    claim_due-Excludes unclaimed due materialized_tables "w1" 100010 60 [] schedule given_claim host
      queue request held (record { run = made; duplicate = false }) claims_due refl refl makes

materialize-IsOnce_example :
    (true ≡ true) × (occurrence_of "s1" 100000 materialized_tables ≡ some made)
materialize-IsOnce_example =
    materialize-IsOnce host queue request again due materialized_tables
      (materialize host queue again materialized_tables).1
      (record { run = made; duplicate = false }) (record { run = made; duplicate = true }) makes
      refl (λ i. (repeats i, (materialize host queue again materialized_tables).1)) refl
      (omega arith)
