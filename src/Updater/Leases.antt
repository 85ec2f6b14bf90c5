-- ===== src/Updater/Leases.antt =====
-- updater/src/database.ts: who works on a request. A claim takes the lease and raises the fence, and
-- every later mutation names the fence that its claim got.
use dona.Prelude.{
  ℕ, ◌+◌, String, Bool, false, not, ◌&&◌, ◌||◌, List, [], ◌∷◌, Option, none, some, is_none, is_some,
  text_eq, opt_is, leb, ltb, ◌==◌, if◌then◌else◌, find?, update_where,
}
use dona.Exec.{pure, gets, ◌>>=◌, ◌>>◌, modify, require, transaction}
use dona.Updater.State.{
  UpdateState, approved, preparing, needs_review, rolling_back, verifying, succeeded, rolled_back,
  state_eq, is_terminal,
}
use dona.Updater.Rows.{
  UpdateRow, OutboxRow, OutboxStatus, pending, delivered, outbox_status_eq, truthy, claim_details,
  rollback_details, bare, Details, legacy_confirmation, is_observed,
}
use dona.Updater.Rows
use dona.Updater.Store.{
  Store, Db, has_request_id, is_at_fence, update_requests, get, get_required, audit,
  operator_rollback_refused, operator_rollback_cas, another_active, reconcile_state,
  reconcile_ineligible, reconcile_cas, notification_unsettled,
}
use dona.Updater.Mutation.{
  last_error_code, last_error_message, observed_active_sha, assert_transition, assert_change,
  complete_internal,
}
use dona.Updater.Operations.{runtime_operation}

abbrev expires_after : ℕ → Option ℕ → Bool
expires_after at none = false
expires_after at (some expiry) = ltb at expiry

-- The controller works on another request whose lease has not run out.
unfoldable pub other_active_held : String → ℕ → Store → Bool
unfolding get
other_active_held id at s =
    truthy s.active_request_id && not (opt_is id s.active_request_id) && elim s.active_request_id [
      | none ↦ false
      | some active ↦ elim (get active s) [
        | none ↦ false
        | some row ↦ expires_after at row.lease_expires_at && not (is_terminal row.state)
      ]
    ]

unfoldable pub held_by_other : UpdateRow → String → ℕ → Bool
held_by_other row owner at =
    truthy row.lease_owner
    && not (opt_is owner row.lease_owner)
    && expires_after at row.lease_expires_at

abbrev pub claimed_state : UpdateState → UpdateState
claimed_state s = if state_eq s approved then preparing else s

unfoldable pub take_lease : UpdateRow → String → ℕ → ℕ → UpdateRow → UpdateRow
take_lease row owner lease_ms at r = record r {
  state = claimed_state row.state;
  attempt = r.attempt + (if state_eq row.state approved then 1 else 0);
  lease_owner = some owner;
  lease_expires_at = some (at + lease_ms);
  fence = row.fence + 1;
  updated_at = at;
}

unfoldable pub claim_row : UpdateRow → String → ℕ → ℕ → Db (Option UpdateRow)
unfolding take_lease
claim_row row owner lease_ms at = do
  assert_change row.state (claimed_state row.state)
  modify (λ s. record s {
    requests =
        update_where (is_at_fence row.request_id row.fence) (take_lease row owner lease_ms at)
          s.requests;
    active_request_id = some row.request_id;
  })
  claimed ← get_required row.request_id
  audit claimed (some row.state) (claimed_state row.state)
      (if state_eq row.state approved then "attempt_claimed" else "attempt_reclaimed")
      (claim_details owner) at
  pure (some claimed)

unfoldable pub claim : String → String → ℕ → ℕ → Db (Option UpdateRow)
unfolding claim_row
claim id owner lease_ms at = transaction do
  row ← get_required id
  busy ← gets (other_active_held id at)
  if busy || held_by_other row owner at then pure none else claim_row row owner lease_ms at

-- Another request than this one is the active one.
abbrev other_active : String → Store → Bool
other_active id s = truthy s.active_request_id && not (opt_is id s.active_request_id)

abbrev pub is_reviewed_at : String → ℕ → UpdateRow → Bool
is_reviewed_at id fence r = is_at_fence id fence r && state_eq r.state needs_review

unfoldable pub begin_operator_rollback : String → String → String → ℕ → ℕ → Db UpdateRow
begin_operator_rollback id plan_hash owner lease_ms at = transaction do
  row ← get_required id
  require
      (state_eq row.state needs_review
        && text_eq row.plan_hash plan_hash
        && row.rollback_compatible)
      operator_rollback_refused
  other ← gets (other_active id)
  require (not other) another_active
  update_requests (is_reviewed_at id row.fence)
      (λ r. record r {
        state = rolling_back;
        completed_at = none;
        lease_owner = some owner;
        lease_expires_at = some (at + lease_ms);
        fence = row.fence + 1;
        updated_at = at;
      })
      operator_rollback_cas
  modify (λ s. record s { active_request_id = some id })
  reopened ← get_required id
  audit reopened (some needs_review) rolling_back "operator_rollback_approved"
      (rollback_details plan_hash) at
  pure reopened

abbrev reconcilable_codes : List String
reconcilable_codes =
    "main_agent_start_failed" ∷ "dispatcher_start_acceptance_unknown"
    ∷ "dispatcher_target_health_unavailable" ∷ "slack_start_acceptance_unknown"
    ∷ "slack_workspace_readiness_unavailable" ∷ "main_agent_stop_acceptance_unknown"
    ∷ "main_agent_start_acceptance_unknown" ∷ "main_agent_start_observation_timeout"
    ∷ "activation_evidence_mismatch" ∷ "ambiguous_runtime_observation"
    ∷ "stop_slack_acceptance_unknown" ∷ "stop_slack_observation_timeout"
    ∷ "stop_dispatcher_acceptance_unknown" ∷ "stop_dispatcher_observation_timeout"
    ∷ "start_target_dispatcher_acceptance_unknown" ∷ "start_target_dispatcher_health_unavailable"
    ∷ "start_target_slack_acceptance_unknown" ∷ "start_target_slack_health_unavailable"
    ∷ "rollback_pointer_observation_mismatch" ∷ "rollback_activation_evidence_mismatch"
    ∷ "rollback_stop_evidence_incomplete" ∷ "rollback_activation_unconfirmed"
    ∷ "rollback_previous_health_failed" ∷ "rollback_main_agent_stop_acceptance_unknown"
    ∷ "rollback_main_agent_start_acceptance_unknown" ∷ "stop_target_slack_acceptance_unknown"
    ∷ "stop_target_slack_observation_timeout" ∷ "stop_target_dispatcher_acceptance_unknown"
    ∷ "stop_target_dispatcher_observation_timeout" ∷ "start_previous_dispatcher_acceptance_unknown"
    ∷ "start_previous_dispatcher_health_unavailable" ∷ "start_previous_slack_acceptance_unknown"
    ∷ "start_previous_slack_health_unavailable" ∷ []

unfoldable pub has_code : List String → Option String → Bool
has_code [] code = false
has_code (c ∷ cs) code = opt_is c code || has_code cs code

unfoldable pub is_reconcilable : UpdateRow → Bool
unfolding has_code
is_reconcilable r = state_eq r.state needs_review && has_code reconcilable_codes r.last_error_code

-- The newest notification of a request: by time, and of two at one time the later one.
unfoldable pub outbox_for_from : Option OutboxRow → String → List OutboxRow → Option OutboxRow
outbox_for_from best id [] = best
outbox_for_from none id (o ∷ os) =
    outbox_for_from (if text_eq o.request_id id then some o else none) id os
outbox_for_from (some b) id (o ∷ os) =
    outbox_for_from
      (if text_eq o.request_id id && leb b.created_at o.created_at then some o else some b) id os

unfoldable pub outbox_for : String → Store → Option OutboxRow
unfolding outbox_for_from
outbox_for id s = outbox_for_from none id s.outbox

abbrev is_settled : OutboxRow → Bool
is_settled o =
    outbox_status_eq o.status pending && o.attempt_count == 0
    || outbox_status_eq o.status Rows.OutboxStatus.needs_review
    || outbox_status_eq o.status delivered && is_some o.slack_reported_at

unfoldable pub terminal_outbox_settled_for_correction : String → Store → Bool
unfolding outbox_for
terminal_outbox_settled_for_correction id s = elim (outbox_for id s) [
  | none ↦ false
  | some o ↦ is_none o.superseded_by_outbox_id && is_settled o
]

abbrev confirmed : String → Store → Bool
confirmed id s = elim (runtime_operation id legacy_confirmation s) [
  | none ↦ false
  | some op ↦ is_observed op.phase
]

unfoldable pub reconcile_allowed : String → Store → Bool
unfolding runtime_operation is_reconcilable
reconcile_allowed id s =
    is_some (find? (λ r. is_reconcilable r && has_request_id id r) s.requests) || confirmed id s

-- The two states that evidence can confirm.
pub data Confirmed : Type 0 where
  as_succeeded as_rolled_back : Confirmed

abbrev pub intermediate : Confirmed → UpdateState
intermediate as_succeeded = verifying
intermediate as_rolled_back = rolling_back

abbrev pub terminal_status : Confirmed → UpdateState
terminal_status as_succeeded = succeeded
terminal_status as_rolled_back = rolled_back

abbrev reconciled_code : Confirmed → String
reconciled_code as_succeeded = "reconciled_succeeded_evidence"
reconciled_code as_rolled_back = "reconciled_rolled_back_evidence"

unfoldable pub finish_reconcile : String → Confirmed → String → ℕ → Db UpdateRow
finish_reconcile id outcome active_sha at = do
  reopened ← get_required id
  audit reopened (some needs_review) (intermediate outcome) "evidence_reconcile_started" bare at
  complete_internal reopened (terminal_status outcome) (reconciled_code outcome)
      (observed_active_sha (some active_sha) ∷ last_error_code none ∷ last_error_message none ∷ [])
      at bare

unfoldable pub complete_evidence_reconcile : String → Confirmed → String → ℕ → Db UpdateRow
unfolding reconcile_allowed finish_reconcile
complete_evidence_reconcile id outcome active_sha at = transaction do
  row ← get_required id
  require (state_eq row.state needs_review) reconcile_state
  allowed ← gets (reconcile_allowed id)
  require allowed reconcile_ineligible
  settled ← gets (terminal_outbox_settled_for_correction id)
  require settled notification_unsettled
  other ← gets (other_active id)
  require (not other) another_active
  assert_transition row.state (intermediate outcome)
  update_requests (is_reviewed_at id row.fence)
      (λ r. record r {
        state = intermediate outcome;
        completed_at = none;
        lease_owner = none;
        lease_expires_at = none;
        fence = row.fence + 1;
        reconcile_after = none;
        reconcile_deadline = none;
        last_reconciled_at = some at;
        updated_at = at;
      })
      reconcile_cas
  modify (λ s. record s { active_request_id = some id })
  finish_reconcile id outcome active_sha at
