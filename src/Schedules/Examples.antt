-- ===== src/Schedules/Examples.antt =====
-- Tests and examples of the scheduler's repository, dispatcher/src/scheduler/repository.ts.
use dona.Prelude.{
  ◌≡◌, refl, count_where, All, sort_with, find?, select_where, update_where, String, false, List,
  [], ◌∷◌, Option, none, some, ◌≤◌, arith,
}
use mathlib.Core.Option
use dona.Exec.{ok, ◌>>=◌, require, transaction, modify}
use dona.Schedules.Rows.{
  Claim, Role, Schedule, ScheduleState, Revision, Run, RunStatus, Outbox, OutboxStatus, Tables,
  channel, reminder_post, reminder,
}
use dona.Schedules.Store.{outbox_row}
use dona.Schedules.Delivery.{Host}
use dona.Schedules.Finish.{sent}
use dona.Schedules.Custody.{stage}
use dona.Schedules.Rowwise.{outbox_ids, Distinct}
use dona.Schedules.Outboxes.{recover, is_lost}
use dona.Schedules.Claims.{claim_due, claim_of}
use dona.Schedules.Materialize.{HeldClaim, Request}
use dona.Schedules.Custody.{Present}
use dona.Schedules.Reviewed.{InReview}
use dona.Schedules.Lost.{recover-InReview}
use dona.Schedules.Upsert.{IsGiven}
use dona.Schedules.Fences.{claim_due-IsGiven}
use dona.Schedules.Calls.{
  Call, claims, starts, recovers, finishes, step, run, run-Settled, run-attempts,
}

abbrev pub host : Host
host = record { uuid = λ n. "first"; digest = λ s. s }

abbrev pub schedule : Schedule
schedule = record {
  schedule_id = "s1";
  tenant_id = "T1";
  owner_id = "U1";
  state = ScheduleState.active;
  revision = 1;
  next_due = some 100000;
  high_watermark = some 1000;
  created_at = 10;
  updated_at = 1000;
  terminal_at = none;
  list_sequence = 1;
  idempotency_key_hash = none;
  create_payload_hash = "p";
}

abbrev revision : Revision
revision = record {
  schedule_id = "s1";
  revision = 1;
  recurrence_json = record { text = "{}"; is_once = false };
  recurrence_hash = "r";
  policy_json = "{}";
  policy_version = 1;
  timezone = none;
  tzdb_version = none;
  authorization_id = "ev1";
  authorization_revision = 1;
  content_scope = "fixed_body";
  approver_id = "U1";
  approved_at = 10;
  expires_at = 1000000;
  action = reminder_post;
  target_json = channel "T1" "C1";
  content = some "hello";
  content_hash = "hello";
  content_delete_at = none;
  created_at = 10;
  terminal_at = none;
}

abbrev occurrence : Run
occurrence = record {
  run_id = "run1";
  schedule_id = "s1";
  revision = 1;
  occurrence_key = "k";
  scheduled_for = 1000;
  status = RunStatus.materialized;
  reason = none;
  event_id = none;
  job_id = none;
  created_at = 1000;
  started_at = none;
  terminal_at = none;
}

abbrev row : Outbox
row = record {
  outbox_id = "o1";
  run_id = "run1";
  kind = reminder;
  idempotency_key = "run1:slack.reminder.post";
  target_json = channel "T1" "C1";
  content = some "hello";
  content_hash = "hello";
  status = OutboxStatus.pending;
  attempt = 0;
  available_at = 1000;
  claim_token = none;
  lease_until = none;
  request_started_at = none;
  receipt_id = none;
  created_at = 1000;
  updated_at = 1000;
  terminal_at = none;
  content_delete_at = none;
  completion_job_status = none;
}

abbrev pub tables : Tables
tables = record {
  schedules = schedule ∷ [];
  next_value = 2;
  claims = [];
  revisions = revision ∷ [];
  runs = occurrence ∷ [];
  outbox = row ∷ [];
  audit = [];
  events = [];
  jobs = [];
  completions = [];
  bindings = [];
  uuids_drawn = 0;
}

abbrev status_of : String → Tables → Option OutboxStatus
status_of id s = Option.map Outbox.status (outbox_row id s)

-- A claim, a request, and its acceptance.
abbrev delivery : List Call
delivery =
    claims 1010 60 none 10
    ∷ starts "o1" "first" 1011
    ∷ finishes "o1" "first" sent 1012 (some "1700000000.000100") 0 none
    ∷ []

-- A request whose outcome is lost.
abbrev lost : List Call
lost =
    claims 1010 60 none 10
    ∷ starts "o1" "first" 1011
    ∷ recovers 2000 false
    ∷ claims 2001 60 none 10
    ∷ []

delivers : status_of "o1" (run host delivery tables) ≡ some OutboxStatus.sent
unfolding run step outbox_row find? ◌>>=◌ require transaction select_where modify update_where
delivers = refl

loses : status_of "o1" (run host lost tables) ≡ some OutboxStatus.needs_review
unfolding run step outbox_row find? ◌>>=◌ require transaction select_where modify update_where
loses = refl

one_row : Distinct (outbox_ids tables)
one_row = (tt, tt)

there : outbox_row "o1" tables ≡ some row
unfolding outbox_row find?
there = refl

run-Settled_example :
    (t : Outbox) × (outbox_row "o1" (run host lost tables) ≡ some t)
    × (stage row.status ≤ stage t.status)
    × (stage row.status ≡ 2 → stage t.status ≡ 2)
run-Settled_example = run-Settled host lost tables "o1" row one_row there

run-attempts_example :
    (t : Outbox) × (outbox_row "o1" (run host lost tables) ≡ some t) × (t.attempt ≤ 3)
run-attempts_example = run-attempts host lost tables "o1" row one_row there (omega arith)

-- A request under way.
abbrev requested : Outbox
requested = record row {
  status = OutboxStatus.request_started;
  attempt = 1;
  claim_token = some "first";
  lease_until = some 1070;
  request_started_at = some 1011;
  updated_at = 1011;
}

abbrev requesting : Tables
requesting = record tables { outbox = requested ∷ [] }

unfoldable recovered_tables : Tables
unfolding recover
recovered_tables = (recover 2000 false requesting).1

recovers_one : recover 2000 false requesting ≡ (ok 1, recovered_tables)
unfolding recovered_tables recover find? ◌>>=◌ require transaction select_where modify update_where
    count_where
recovers_one = refl

recover-InReview_example :
    All
      (λ o. Present InReview recovered_tables o.outbox_id)
      (select_where (is_lost false 2000) requesting.outbox)
recover-InReview_example =
    recover-InReview requesting recovered_tables 2000 1 false (tt, tt) recovers_one

abbrev pub given_claim : Claim
given_claim = record {
  schedule_id = "s1";
  claim_owner = some "w1";
  claim_until = some 100070;
  claim_fence = 1;
}

abbrev pub claiming : Tables
claiming = record tables { claims = given_claim ∷ [] }

claims_one : claim_due "w1" 100010 60 [] tables ≡ (ok (some (schedule, given_claim)), claiming)
unfolding claim_due find? ◌>>=◌ require transaction select_where modify update_where sort_with
claims_one = refl

claim_due-IsGiven_example :
    IsGiven "s1" "w1" 100010 60 (claim_of "s1" tables) given_claim
    × (claim_of "s1" claiming ≡ some given_claim)
claim_due-IsGiven_example =
    claim_due-IsGiven tables claiming "w1" 100010 60 [] schedule given_claim claims_one

abbrev pub held : HeldClaim
held = record { owner = "w1"; fence = 1; occurrence_key = "k2" }

abbrev pub request : Request
request = record {
  schedule_id = "s1";
  expected_revision = 1;
  scheduled_for = 100000;
  next_due = some 200000;
  now = 100020;
  actor = record { tenant_id = "T1"; actor_id = "U1"; role = Role.owner; source_event_id = none };
  skip = none;
  compact_skip = none;
  claim = some held;
}
