-- ===== src/Updater/Mutation.antt =====
-- `transitionInternal` and `completeInternal` of updater/src/database.ts: the check and the audit of
-- a change of state, and the end of a request.
use dona.Prelude.{ℕ, String, Bool, List, [], ◌∷◌, ◌++◌, Option, none, some, opt_is, if◌then◌else◌}
use dona.Exec.{pure, raise, ◌>>=◌, ◌>>◌, modify, require}
use dona.Updater.State.{UpdateState, succeeded, rolled_back, state_eq, can_transition}
use dona.Updater.Rows.{UpdateRow, Details}
use dona.Updater.Store.{
  Db, is_at_fence, update_requests, get_required, audit, invalid_transition, unsupported_field,
  transition_fenced,
}
use dona.Updater.Notification.{insert_outbox}

-- The columns that a mutation may set; `unsupported` stands for any other key.
pub data Assign : Type 0 where
  approval_id approval_event_id cancellation_event_id last_error_code last_error_message lease_owner
        observed_active_sha :
      Option String → Assign
  cancellation_requested : Bool → Assign
  completed_at lease_expires_at reconcile_after reconcile_deadline last_reconciled_at :
      Option ℕ → Assign
  activation_generation restart_attempts : ℕ → Assign
  unsupported : String → Assign

unfoldable pub assign : Assign → UpdateRow → UpdateRow
assign (approval_id v) r = record r { approval_id = v }
assign (approval_event_id v) r = record r { approval_event_id = v }
assign (cancellation_event_id v) r = record r { cancellation_event_id = v }
assign (last_error_code v) r = record r { last_error_code = v }
assign (last_error_message v) r = record r { last_error_message = v }
assign (lease_owner v) r = record r { lease_owner = v }
assign (observed_active_sha v) r = record r { observed_active_sha = v }
assign (cancellation_requested v) r = record r { cancellation_requested = v }
assign (completed_at v) r = record r { completed_at = v }
assign (lease_expires_at v) r = record r { lease_expires_at = v }
assign (reconcile_after v) r = record r { reconcile_after = v }
assign (reconcile_deadline v) r = record r { reconcile_deadline = v }
assign (last_reconciled_at v) r = record r { last_reconciled_at = v }
assign (activation_generation v) r = record r { activation_generation = v }
assign (restart_attempts v) r = record r { restart_attempts = v }
assign (unsupported k) r = r

unfoldable pub assign_all : List Assign → UpdateRow → UpdateRow
unfolding assign
assign_all [] r = r
assign_all (a ∷ as') r = assign_all as' (assign a r)

unfoldable pub check_fields : List Assign → Db Unit
check_fields [] = pure tt
check_fields (unsupported k ∷ rest) = raise (unsupported_field k)
check_fields (_ ∷ rest) = check_fields rest

unfoldable pub assert_transition : UpdateState → UpdateState → Db Unit
assert_transition from to = require (can_transition from to) (invalid_transition from to)

-- `if (from !== to) assertTransition(from, to)`.
unfoldable pub assert_change : UpdateState → UpdateState → Db Unit
unfolding assert_transition
assert_change from to = if state_eq from to then pure tt else assert_transition from to

unfoldable pub transition_internal :
    UpdateRow → UpdateState → ℕ → List Assign → String → Details → Db UpdateRow
transition_internal row to at fields code details = do
  assert_change row.state to
  check_fields fields
  update_requests (is_at_fence row.request_id row.fence)
      (λ r. assign_all fields (record r { state = to; updated_at = at })) transition_fenced
  updated ← get_required row.request_id
  audit updated (some row.state) to code details at
  pure updated

-- `fields.observed_active_sha`, the value that was set last.
unfoldable pub observed_field : List Assign → Option String
observed_field [] = none
observed_field (observed_active_sha v ∷ rest) =
    let later = observed_field rest in elim later [ none ↦ v | some w ↦ some w ]
observed_field (_ ∷ rest) = observed_field rest

-- What a terminal state takes for the active release when the caller does not say.
unfoldable pub observed_sha : UpdateRow → UpdateState → List Assign → Option String
unfolding observed_field
observed_sha row to fields = elim (observed_field fields) [
  | some sha ↦ some sha
  | none ↦
      if state_eq to succeeded
      then some row.target_sha
      else (if state_eq to rolled_back then some row.current_sha else none)
]

unfoldable pub completion_fields : UpdateRow → UpdateState → ℕ → List Assign → List Assign
unfolding observed_sha
completion_fields row to at fields =
    fields
    ++ observed_active_sha (observed_sha row to fields)
      ∷ completed_at (some at)
      ∷ lease_owner none
      ∷ lease_expires_at none
      ∷ reconcile_after none
      ∷ reconcile_deadline none
      ∷ (if state_eq to succeeded then last_error_code none ∷ last_error_message none ∷ [] else [])

-- `UPDATE controller_state SET active_request_id = NULL … WHERE active_request_id = ?`.
unfoldable pub clear_active : String → Db Unit
clear_active id = modify λ s. record s {
  active_request_id = if opt_is id s.active_request_id then none else s.active_request_id;
}

unfoldable pub complete_internal :
    UpdateRow → UpdateState → String → List Assign → ℕ → Details → Db UpdateRow
complete_internal row to code fields at details = do
  completed ← transition_internal row to at (completion_fields row to at fields) code details
  clear_active row.request_id
  insert_outbox completed at
  pure completed
