-- ===== src/Updater/Store.antt =====
-- updater/src/database.ts: the tables as one state, what a method may throw, and the statements and
-- private helpers that the methods share.
use dona.Prelude.{
  ℕ, String, Bool, ◌&&◌, List, [], ◌∷◌, ◌++◌, Option, none, some, text_eq, ◌==◌, find?,
  update_where, count_where,
}
use dona.Exec.{Exec, pure, raise, gets, ◌>>=◌, ◌>>◌, modify, require}
use dona.Updater.State.{UpdateState}
use dona.Updater.Rows.{
  UpdateRow, OutboxRow, TerminalKey, Details, AuditRow, RuntimeOperationKind, RuntimeOperationRow,
  WriterLease, DiagnosticLogRow,
}

pub record Store : Type 0 where
  pub requests : List UpdateRow
  pub active_request_id : Option String
  pub audits : List AuditRow
  pub outbox : List OutboxRow
  pub operations : List RuntimeOperationRow
  pub logs : List DiagnosticLogRow
  pub writer : Option WriterLease

pub data Error : Type 0 where
  invalid_transition : UpdateState → UpdateState → Error
  request_not_found outbox_not_found plan_open : String → Error
  terminal_outbox_not_found : TerminalKey → Error
  operation_rejected operation_intent_mismatch operation_not_prepared : RuntimeOperationKind → Error
  unsupported_field : String → Error
  -- A UNIQUE or PRIMARY KEY constraint of the schema.
  constraint_violation : Error
  transition_fenced stale_fence lease_renewal_fenced lease_assertion_fenced generation_fenced
        restart_fenced reconcile_defer_fenced reconcile_clear_fenced :
      Error
  plan_material_mismatch notification_unsettled plan_not_found plan_mismatch approval_mismatch
        reply_target_mismatch :
      Error
  operator_rollback_refused operator_rollback_cas another_active reconcile_state
        reconcile_ineligible reconcile_cas :
      Error
  outbox_requires_terminal writer_identity_invalid writer_startup_lock_invalid
        writer_identity_unavailable writer_already_active writer_lease_conflict
        writer_lease_mismatch :
      Error
  log_request_binding log_finalize_binding log_discard_binding log_interrupt_state log_purge_state :
      Error

abbrev pub Db : Type 0 → Type 0
Db A = Exec Error Store A

abbrev pub has_request_id : String → UpdateRow → Bool
has_request_id id row = text_eq row.request_id id

abbrev pub is_at_fence : String → ℕ → UpdateRow → Bool
is_at_fence id fence row = text_eq row.request_id id && row.fence == fence

-- `UPDATE update_requests SET … WHERE …`, and an error unless it changed one row.
unfoldable pub update_requests : (UpdateRow → Bool) → (UpdateRow → UpdateRow) → Error → Db Unit
update_requests p f e = do
  changed ← gets (λ s. count_where p s.requests)
  modify (λ s. record s { requests = update_where p f s.requests })
  require (changed == 1) e

unfoldable pub get : String → Store → Option UpdateRow
get id s = find? (has_request_id id) s.requests

abbrev pub or_throw {ℓ} : {E S A : Type ℓ} → Option A → E → Exec E S A
or_throw none e = raise e
or_throw (some a) e = pure a

unfoldable pub get_required : String → Db UpdateRow
get_required id = do row ← gets (get id); or_throw row (request_not_found id)

unfoldable pub audit : UpdateRow → Option UpdateState → UpdateState → String → Details → ℕ → Db Unit
audit row from to code details at = modify λ s. record s { audits = s.audits ++ entry ∷ [] }
  where
    entry : AuditRow
    entry = record {
      request_id = row.request_id;
      from_state = from;
      to_state = to;
      fence = row.fence;
      code = code;
      details = details;
      occurred_at = at;
    }
