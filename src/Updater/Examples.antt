-- ===== src/Updater/Examples.antt =====
-- The updater's theorems at a plan that is approved, claimed and failed.
use dona.Prelude.{
  ℕ, String, true, false, List, [], ◌∷◌, none, some, ◌≡◌, refl, arith, text_discrete, find?,
  update_where, count_where,
}
use dona.Exec.{ok, ◌>>=◌, transaction, modify, require}
use dona.Updater.State.{approved, failed, state_discrete, can_transition, is_terminal}
use dona.Updater.Rows.{
  UpdateRow, ReplyTarget, Compatibility, bare, key_discrete, outbox_status_discrete,
}
use dona.Updater.Store.{Store, get, get_required, audit, update_requests}
use dona.Updater.Requests.{CanonicalPlan}
use dona.Updater.Mutation.{
  assign_all, completion_fields, check_fields, assert_change, transition_internal, clear_active,
  complete_internal,
}
use dona.Updater.Notification.{insert_outbox, outbox_after, insert_or_ignore, new_outbox}
use dona.Updater.Leases.{claim, take_lease, other_active_held, held_by_other}
use dona.Updater.Fenced.{terminal}
use dona.Updater.Calls.{Call, claims, ends, run}
use dona.Updater.History.{Evolves}
use dona.Updater.History.Runs.{run-History}
use dona.Updater.Fencing.{IsDead, passed_fence-IsDead}
use dona.Updater.Completion.{Completed, terminal-Completed}
use dona.Updater.Exclusion.{KeepsOut, Claimed, claim-KeepsOut}

abbrev target : ReplyTarget
target = record { workspace_id = "T1"; channel_id = "C1"; thread_ts = "1.2" }

abbrev compatibility : Compatibility
compatibility = record {
  protocol = 1;
  config = 1;
  app_schema_read_min = 2;
  app_schema_read_max = 3;
  app_schema_write = 3;
  rollback_safe = true;
}

abbrev row : UpdateRow
row = record {
  request_id = "upd_1";
  source_event_id = "evt_1";
  reply_target_json = target;
  state = approved;
  current_sha = "aaa";
  target_sha = "bbb";
  previous_sha = none;
  plan_id = "plan_1";
  plan_hash = "hash";
  policy_version = "2026";
  compatibility_json = compatibility;
  transition_json = none;
  rollback_compatible = true;
  approval_id = some "ok";
  approval_event_id = some "evt_2";
  attempt = 0;
  activation_generation = 0;
  restart_attempts = 0;
  lease_owner = none;
  lease_expires_at = none;
  fence = 2;
  cancellation_requested = false;
  cancellation_event_id = none;
  last_error_code = none;
  last_error_message = none;
  created_at = 10;
  updated_at = 10;
  completed_at = none;
  reconcile_after = none;
  reconcile_deadline = none;
  last_reconciled_at = none;
  observed_active_sha = none;
}

abbrev store : Store
store = record {
  requests = row ∷ [];
  active_request_id = none;
  audits = [];
  outbox = [];
  operations = [];
  logs = [];
  writer = none;
}

abbrev sha256 : CanonicalPlan → String
sha256 plan = plan.plan_id

abbrev calls : List Call
calls = claims "upd_1" "worker" 1000 20 ∷ ends "upd_1" 3 failed "build_failed" [] 30 bare ∷ []

-- What a run of the methods computes with.
evaluated : ℕ
unfolding claim terminal transaction get_required ◌>>=◌ get find? text_discrete other_active_held
    held_by_other assert_change state_discrete require can_transition modify update_where audit
    complete_internal transition_internal check_fields update_requests count_where assign_all
    completion_fields clear_active insert_outbox outbox_after insert_or_ignore new_outbox take_lease
    is_terminal key_discrete outbox_status_discrete
evaluated = 0

run-History_example : Evolves store (run sha256 calls store)
unfolding find? get text_discrete
run-History_example = run-History sha256 calls store (refl, tt)

passed_fence-IsDead_example : IsDead "upd_1" 1 (run sha256 calls store)
unfolding evaluated
passed_fence-IsDead_example =
    passed_fence-IsDead sha256 calls store "upd_1" 1 row (refl, tt) refl (omega arith)

abbrev claimed : Store
claimed = (claim "upd_1" "worker" 1000 20 store).1

abbrev claimed_row : UpdateRow
claimed_row = take_lease row "worker" 1000 20 row

claimed_refl : claim "upd_1" "worker" 1000 20 store ≡ (ok (some claimed_row), claimed)
unfolding evaluated
claimed_refl = refl

claim-KeepsOut_example :
    KeepsOut "upd_1" "worker" 1020 claimed_row claimed
    × Claimed store "upd_1" "worker" 1000 20 claimed_row claimed
claim-KeepsOut_example =
    claim-KeepsOut store "upd_1" "worker" 1000 20 claimed_row claimed (cc) (cc) claimed_refl

abbrev failed_row : UpdateRow
failed_row =
    assign_all (completion_fields claimed_row failed 30 [])
      (record claimed_row { state = failed; updated_at = 30 })

abbrev ended : Store
ended = (terminal "upd_1" 3 failed "build_failed" [] 30 bare claimed).1

ended_refl : terminal "upd_1" 3 failed "build_failed" [] 30 bare claimed ≡ (ok failed_row, ended)
unfolding evaluated
ended_refl = refl

terminal-Completed_example : Completed "upd_1" failed 30 failed_row ended
terminal-Completed_example =
    terminal-Completed claimed "upd_1" 3 failed "build_failed" [] 30 bare failed_row ended
      ended_refl
