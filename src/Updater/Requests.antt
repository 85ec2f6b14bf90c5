-- ===== src/Updater/Requests.antt =====
-- updater/src/database.ts: a plan is made, approved and cancelled.
use dona.Prelude.{
  ℕ, String, Bool, true, false, not, ◌&&◌, ◌||◌, List, [], ◌∷◌, ◌++◌, Option, none, some, is_yes,
  is_none, is_some, text_eq, opt_is, leb, ltb, if◌then◌else◌, find?,
}
use dona.Exec.{pure, raise, gets, ◌>>=◌, ◌>>◌, modify, require, transaction}
use dona.Updater.State.{
  UpdateState, awaiting_approval, approved, requested, planning, preparing, staged, needs_review,
  cancelled, quiescing, activating, restarting, verifying, rolling_back, includes, is_terminal,
}
use dona.Updater.Rows.{
  UpdateRow, OutboxRow, pending, delivering, delivered, outbox_status_eq, ReplyTarget, target_eq,
  Compatibility, compatibility_discrete, CompatibilityTransition, transition_discrete, plan_details,
  approval_details, bare,
}
use dona.Updater.Store.{
  Store, Db, get_required, audit, constraint_violation, plan_open, plan_material_mismatch,
  notification_unsettled, plan_not_found, plan_mismatch, approval_mismatch, reply_target_mismatch,
}
use dona.Updater.Mutation.{
  approval_id, approval_event_id, cancellation_requested, cancellation_event_id, last_error_code,
  last_error_message, transition_internal, complete_internal,
}

pub record PlanRequest : Type 0 where
  pub source_event_id : String
  pub reply_target : ReplyTarget

pub record ApplyRequest : Type 0 where
  pub source_event_id : String
  pub reply_target : ReplyTarget
  pub plan_id : String
  pub plan_hash : String
  pub approval_id : String

pub record PlanMaterial : Type 0 where
  pub current_sha : String
  pub target_sha : String
  pub previous_sha : Option String
  pub policy_version : String
  pub compatibility : Compatibility
  pub rollback_compatible : Bool
  pub compatibility_transition : Option CompatibilityTransition

-- The plan whose canonical text is hashed.
pub record CanonicalPlan : Type 0 where
  pub plan_id : String
  pub policy_version : String
  pub current_sha : String
  pub target_sha : String
  pub previous_sha : Option String
  pub compatibility : Compatibility
  pub rollback_compatible : Bool
  pub compatibility_transition : Option CompatibilityTransition
  pub created_at : ℕ

pub record UpdatePlan : Type 0 where
  pub plan : CanonicalPlan
  pub plan_hash : String

unfoldable pub plan_from_row : UpdateRow → UpdatePlan
plan_from_row row = record {
  plan = record {
    plan_id = row.plan_id;
    policy_version = row.policy_version;
    current_sha = row.current_sha;
    target_sha = row.target_sha;
    previous_sha = row.previous_sha;
    compatibility = row.compatibility_json;
    rollback_compatible = row.rollback_compatible;
    compatibility_transition = row.transition_json;
    created_at = row.created_at;
  };
  plan_hash = row.plan_hash;
}

-- The oldest of the rows that a query selects; of two that are equally old, the first.
unfoldable pub oldest_from :
    Option UpdateRow → (UpdateRow → Bool) → List UpdateRow → Option UpdateRow
oldest_from best p [] = best
oldest_from none p (r ∷ rs) = oldest_from (if p r then some r else none) p rs
oldest_from (some b) p (r ∷ rs) =
    oldest_from (if p r && ltb r.created_at b.created_at then some r else some b) p rs

unfoldable pub oldest : (UpdateRow → Bool) → List UpdateRow → Option UpdateRow
unfolding oldest_from
oldest = oldest_from none

-- A notification that the dispatcher has not accepted or Slack not reported.
abbrev pub is_unsettled : OutboxRow → Bool
is_unsettled o =
    outbox_status_eq o.status pending
    || outbox_status_eq o.status delivering
    || outbox_status_eq o.status delivered && is_none o.slack_reported_at

unfoldable pub has_unreported_terminal_notification : Store → Bool
has_unreported_terminal_notification s =
    is_some (find? (λ o. is_none o.superseded_by_outbox_id && is_unsettled o) s.outbox)

abbrev pub is_open : UpdateRow → Bool
is_open row = not (is_terminal row.state)

unfoldable pub material_differs : PlanRequest → PlanMaterial → UpdateRow → Bool
material_differs request material row =
    not (target_eq row.reply_target_json request.reply_target)
    || not (text_eq row.current_sha material.current_sha)
    || not (text_eq row.target_sha material.target_sha)
    || not (text_eq row.policy_version material.policy_version)
    || not (is_yes (compatibility_discrete row.compatibility_json material.compatibility))
    || not (is_yes (transition_discrete row.transition_json material.compatibility_transition))

-- The schema's unique columns of `update_requests`.
abbrev pub clashes : UpdateRow → UpdateRow → Bool
clashes new row =
    text_eq row.request_id new.request_id
    || text_eq row.source_event_id new.source_event_id
    || text_eq row.plan_id new.plan_id

unfoldable pub insert_request : UpdateRow → Db Unit
insert_request new = do
  clash ← gets (λ s. is_some (find? (clashes new) s.requests))
  require (not clash) constraint_violation
  modify (λ s. record s { requests = s.requests ++ new ∷ [] })

-- A request's row, its plan, and whether an earlier call made them.
pub record Planned : Type 0 where
  pub row : UpdateRow
  pub plan : UpdatePlan
  pub duplicate : Bool

abbrev pub has_source : PlanRequest → UpdateRow → Bool
has_source request r = text_eq r.source_event_id request.source_event_id

abbrev pub has_plan : ApplyRequest → UpdateRow → Bool
has_plan input r = text_eq r.plan_id input.plan_id

unfoldable pub reuse_plan : PlanRequest → PlanMaterial → UpdateRow → Db Planned
reuse_plan request material row =
    if material_differs request material row
    then raise plan_material_mismatch
    else pure (record { row = row; plan = plan_from_row row; duplicate = true })

unfoldable pub canonical_plan : String → PlanMaterial → ℕ → CanonicalPlan
canonical_plan plan_id material at = record {
  plan_id = plan_id;
  policy_version = material.policy_version;
  current_sha = material.current_sha;
  target_sha = material.target_sha;
  previous_sha = material.previous_sha;
  compatibility = material.compatibility;
  rollback_compatible = material.rollback_compatible;
  compatibility_transition = material.compatibility_transition;
  created_at = at;
}

-- The hash of a text and the identifiers `upd_…` and `plan_…` come from outside.
module _ (sha256 : CanonicalPlan → String) where
  unfoldable pub new_request : String → String → PlanRequest → PlanMaterial → ℕ → UpdateRow
  unfolding canonical_plan
  new_request request_id plan_id request material at = record {
    request_id = request_id;
    source_event_id = request.source_event_id;
    reply_target_json = request.reply_target;
    state = awaiting_approval;
    current_sha = material.current_sha;
    target_sha = material.target_sha;
    previous_sha = material.previous_sha;
    plan_id = plan_id;
    plan_hash = sha256 (canonical_plan plan_id material at);
    policy_version = material.policy_version;
    compatibility_json = material.compatibility;
    transition_json = material.compatibility_transition;
    rollback_compatible = material.rollback_compatible;
    approval_id = none;
    approval_event_id = none;
    attempt = 0;
    activation_generation = 0;
    restart_attempts = 0;
    lease_owner = none;
    lease_expires_at = none;
    fence = 0;
    cancellation_requested = false;
    cancellation_event_id = none;
    last_error_code = none;
    last_error_message = none;
    created_at = at;
    updated_at = at;
    completed_at = none;
    reconcile_after = none;
    reconcile_deadline = none;
    last_reconciled_at = none;
    observed_active_sha = none;
  }

  unfoldable pub insert_plan : String → String → PlanRequest → PlanMaterial → ℕ → Db Planned
  insert_plan request_id plan_id request material at = do
    insert_request (new_request request_id plan_id request material at)
    row ← get_required request_id
    audit row none awaiting_approval "plan_created"
        (plan_details material.current_sha material.target_sha row.plan_hash) at
    pure (record { row = row; plan = plan_from_row row; duplicate = false })

  unfoldable pub create_plan : String → String → PlanRequest → PlanMaterial → ℕ → Db Planned
  unfolding reuse_plan insert_plan
  create_plan request_id plan_id request material at = transaction do
    existing ← gets (λ s. find? (has_source request) s.requests)
    elim existing [
      | some row ↦ reuse_plan request material row
      | none ↦ do
        open_request ← gets (λ s. oldest is_open s.requests)
        elim open_request [
          | some r ↦ raise (plan_open r.request_id)
          | none ↦ do
            unreported ← gets has_unreported_terminal_notification
            require (not unreported) notification_unsettled
            insert_plan request_id plan_id request material at
        ]
    ]

-- `receipt` is the row's own `approval_id`.
unfoldable pub approve_row :
    ApplyRequest → ℕ → UpdateRow → (receipt : Option String) → Db (UpdateRow × Bool)
approve_row input at row none = do
  _ ←
      transition_internal row approved at
        (approval_id (some input.approval_id) ∷ approval_event_id (some input.source_event_id) ∷ [])
        "plan_approved" (approval_details input.source_event_id)
  after ← get_required row.request_id
  pure (after, false)
approve_row input at row (some receipt) =
    if not (text_eq receipt input.approval_id)
      || not (opt_is input.source_event_id row.approval_event_id)
    then raise approval_mismatch
    else pure (row, true)

unfoldable pub approve : ApplyRequest → ℕ → Db (UpdateRow × Bool)
unfolding approve_row
approve input at = transaction do
  found ← gets (λ s. find? (has_plan input) s.requests)
  elim found [
    | none ↦ raise plan_not_found
    | some row ↦ do
      require
          (target_eq row.reply_target_json input.reply_target
            && text_eq row.plan_hash input.plan_hash)
          plan_mismatch
      approve_row input at row row.approval_id
  ]

-- The states in which nothing outside has been changed yet.
abbrev pub before_mutation : List UpdateState
before_mutation = requested ∷ planning ∷ awaiting_approval ∷ approved ∷ preparing ∷ staged ∷ []

unfoldable pub request_cancellation : String → String → ReplyTarget → String → ℕ → Db UpdateRow
request_cancellation request_id source_event_id reply_target reason at = transaction do
  row ← get_required request_id
  require (target_eq row.reply_target_json reply_target) reply_target_mismatch
  if is_terminal row.state
      then pure row
      else if includes before_mutation row.state
      then complete_internal row cancelled "cancelled"
          (cancellation_requested true
            ∷ cancellation_event_id (some source_event_id)
            ∷ last_error_code (some "cancelled_by_operator")
            ∷ last_error_message (some reason)
            ∷ [])
          at bare
      else complete_internal row needs_review "cancellation_needs_review"
          (cancellation_requested true
            ∷ cancellation_event_id (some source_event_id)
            ∷ last_error_code (some "cancellation_after_external_mutation")
            ∷ last_error_message (
                some
                  "Cancellation was requested after runtime mutation began; reconcile is required")
            ∷ [])
          at bare

abbrev runnable_states : List UpdateState
runnable_states =
    approved ∷ preparing ∷ staged ∷ quiescing ∷ activating ∷ restarting ∷ verifying ∷ rolling_back
    ∷ []

abbrev is_due : ℕ → Option ℕ → Bool
is_due at none = true
is_due at (some after) = leb after at

unfoldable pub next_runnable : ℕ → Store → Option UpdateRow
next_runnable at s =
    oldest (λ r. includes runnable_states r.state && is_due at r.reconcile_after) s.requests
