-- ===== src/Updater/Fenced.antt =====
-- updater/src/database.ts: the mutations that name the fence of a claim.
use dona.Prelude.{
  ℕ, ◌+◌, String, Bool, false, ◌&&◌, List, Option, none, some, is_none, opt_is, ltb, ◌==◌, clip,
}
use dona.Exec.{gets, ◌>>=◌, ◌>>◌, require, transaction}
use dona.Updater.State.{UpdateState}
use dona.Updater.Rows.{UpdateRow, Details, bare}
use dona.Updater.Store.{
  Db, is_at_fence, update_requests, get, get_required, stale_fence, lease_renewal_fenced,
  lease_assertion_fenced, generation_fenced, restart_fenced, reconcile_defer_fenced,
  reconcile_clear_fenced,
}
use dona.Updater.Mutation.{Assign, transition_internal, complete_internal}

unfoldable pub renew_lease : String → ℕ → String → ℕ → ℕ → Db Unit
renew_lease id fence owner lease_ms at =
    update_requests
      (λ r. is_at_fence id fence r && opt_is owner r.lease_owner && is_none r.completed_at)
      (λ r. record r { lease_expires_at = some (at + lease_ms); updated_at = at })
      lease_renewal_fenced

unfoldable pub holds_lease : ℕ → String → ℕ → Option UpdateRow → Bool
holds_lease fence owner at none = false
holds_lease fence owner at (some row) =
    row.fence == fence
    && opt_is owner row.lease_owner
    && is_none row.completed_at
    && elim row.lease_expires_at [ none ↦ false | some expiry ↦ ltb at expiry ]

unfoldable pub assert_lease : String → ℕ → String → ℕ → Db Unit
unfolding holds_lease
assert_lease id fence owner at = do
  row ← gets (get id)
  require (holds_lease fence owner at row) lease_assertion_fenced

unfoldable pub transition : String → ℕ → UpdateState → String → List Assign → ℕ → Db UpdateRow
transition id fence to code fields at = transaction do
  row ← get_required id
  require (row.fence == fence) stale_fence
  transition_internal row to at fields code bare

unfoldable pub terminal :
    String → ℕ → UpdateState → String → List Assign → ℕ → Details → Db UpdateRow
terminal id fence to code fields at details = transaction do
  row ← get_required id
  require (row.fence == fence) stale_fence
  complete_internal row to code fields at details

unfoldable pub record_activation_generation : String → ℕ → ℕ → ℕ → Db Unit
record_activation_generation id fence generation at =
    update_requests (is_at_fence id fence)
      (λ r. record r { activation_generation = generation; updated_at = at }) generation_fenced

unfoldable pub increment_restart_attempts : String → ℕ → ℕ → Db Unit
increment_restart_attempts id fence at =
    update_requests (is_at_fence id fence)
      (λ r. record r { restart_attempts = r.restart_attempts + 1; updated_at = at }) restart_fenced

abbrev coalesce : Option ℕ → ℕ → Option ℕ
coalesce none v = some v
coalesce (some w) v = some w

unfoldable pub defer_reconcile : String → ℕ → String → String → (after deadline at : ℕ) → Db Unit
defer_reconcile id fence code message after deadline at =
    update_requests (λ r. is_at_fence id fence r && is_none r.completed_at)
      (λ r. record r {
        reconcile_after = some after;
        reconcile_deadline = coalesce r.reconcile_deadline deadline;
        last_reconciled_at = some at;
        last_error_code = some code;
        last_error_message = some (clip 2000 message);
        lease_owner = none;
        lease_expires_at = none;
        updated_at = at;
      })
      reconcile_defer_fenced

unfoldable pub clear_reconcile : String → ℕ → ℕ → Db Unit
clear_reconcile id fence at =
    update_requests (is_at_fence id fence)
      (λ r. record r {
        reconcile_after = none;
        reconcile_deadline = none;
        last_reconciled_at = some at;
        updated_at = at;
      })
      reconcile_clear_fenced
