-- ===== src/Updater/History/Claims.antt =====
-- Claims, operator rollbacks and reconciliations of updater/src/database.ts, and the history.
use dona.Prelude.{
  ℕ, ◌+◌, String, true, Option, none, some, ◌≡◌, refl, sym, subst, ◌∙◌, update_where, arith,
}
use dona.Exec.{modify}
use dona.Exec.Leads.{
  Leads, Leads-pure, Leads-bind, Leads-gets, Leads-require, Leads-modify, Leads-read, Leads-if,
  Leads-transaction,
}
use dona.Updater.State.{UpdateState, needs_review, rolling_back, can_transition, state_discrete}
use dona.Updater.Rows.{UpdateRow, Details}
use dona.Updater.Store.{Store, is_at_fence, get, audit}
use dona.Updater.Mutation.{assert_transition}
use dona.Updater.Leases.{
  claim, claim_row, claimed_state, take_lease, begin_operator_rollback, is_reviewed_at,
  finish_reconcile, complete_evidence_reconcile, Confirmed, as_succeeded, as_rolled_back,
  intermediate,
}
use dona.Updater.History.{Reaches, here, via, RowEvolves, identity, History, History-order}
use dona.Updater.History.Statements.{
  History-frame, History-update, get_self, Leads-audit, Leads-get_required, Leads-update_requests,
}
use dona.Updater.History.Mutations.{
  same_row, assert_change-same, assert_change-Reaches, Leads-complete_internal,
}

module _ (s : Store) (row : UpdateRow) (found : get row.request_id s ≡ some row) where
  History-take_lease :
      (owner : String) (lease_ms at : ℕ)
      → Reaches row.state (claimed_state row.state)
      → History s (record s {
        requests =
            update_where
              (is_at_fence row.request_id row.fence)
              (take_lease row owner lease_ms at)
              s.requests;
        active_request_id = some row.request_id;
      })
  unfolding take_lease
  History-take_lease owner lease_ms at path =
      History-order.chain s _ _
        (History-update _ (take_lease row owner lease_ms at) (λ r _. refl) s
          λ r h p. record {
            identity_kept = refl;
            fence_grows = ground arith;
            path =
                subst (λ (u : UpdateRow). Reaches u.state (claimed_state row.state))
                  (sym (same_row s row r found h p)) path;
          })
        (History-frame _ _ refl refl)

  Leads-claim_row :
      (owner : String) (lease_ms at : ℕ) → Leads History s (claim_row row owner lease_ms at)
  unfolding claim_row
  Leads-claim_row owner lease_ms at =
      Leads-read History-order s _ _ (assert_change-same row.state _ s) λ u allowed.
        Leads-modify History-order s _ _
          (History-take_lease owner lease_ms at (assert_change-Reaches row.state _ s u allowed))
          (Leads-get_required _ _ _ λ claimed _.
            Leads-bind History-order _ _ _ (Leads-audit _ claimed _ _ _ _ at)
              λ _ _. Leads-pure History-order _ (some claimed))

pub Leads-claim :
    (s : Store) (id owner : String) (lease_ms at : ℕ) → Leads History s (claim id owner lease_ms at)
unfolding claim
Leads-claim s id owner lease_ms at = Leads-transaction History-order s _ (
    Leads-get_required s id _ λ row found. Leads-gets History-order s _ _ (
      Leads-if History-order s _ _ _ (λ _. Leads-pure History-order s none)
        (λ _. Leads-claim_row s row (get_self id s row found) owner lease_ms at)))

reviewed :
    (id : String) (fence : ℕ) (r : UpdateRow)
    → is_reviewed_at id fence r ≡ true
    → r.state ≡ needs_review
reviewed id fence r p = ground arith

-- A row that a review holds is reopened at the next fence.
reopened-RowEvolves :
    (id : String) (fence : ℕ) (to : UpdateState) (r t : UpdateRow)
    → is_reviewed_at id fence r ≡ true
    → can_transition needs_review to ≡ true
    → identity t ≡ identity r
    → t.fence ≡ fence + 1
    → t.state ≡ to
    → RowEvolves r t
reopened-RowEvolves id fence to r t p allowed i f e = record {
  identity_kept = i;
  fence_grows = ground arith;
  path =
      subst (λ u. Reaches u t.state) (sym (reviewed id fence r p))
        (subst (λ u. Reaches needs_review u) (sym e) (via allowed here));
}

pub Leads-begin_operator_rollback :
    (s : Store) (id plan_hash owner : String) (lease_ms at : ℕ)
    → Leads History s (begin_operator_rollback id plan_hash owner lease_ms at)
unfolding begin_operator_rollback can_transition state_discrete
Leads-begin_operator_rollback s id plan_hash owner lease_ms at =
    Leads-transaction History-order s _ (
      Leads-get_required s id _ λ row found. Leads-require History-order s _ _ _ λ _.
        Leads-gets History-order s _ _ (
          Leads-require History-order s _ _ _ λ _.
            Leads-bind History-order s _ _
              (Leads-update_requests s _ _ _ (λ r _. refl)
                λ r h p. reopened-RowEvolves id row.fence rolling_back r _ p refl refl refl refl)
              λ _ _. Leads-modify History-order _ _ _ (History-frame _ _ refl refl) (
                Leads-get_required _ id _ λ reopened _.
                  Leads-bind History-order _ _ _ (Leads-audit _ reopened _ _ _ _ at)
                    λ _ _. Leads-pure History-order _ reopened)))

intermediate-allowed :
    (outcome : Confirmed) → can_transition needs_review (intermediate outcome) ≡ true
unfolding can_transition state_discrete
intermediate-allowed as_succeeded = refl
intermediate-allowed as_rolled_back = refl

get-audit :
    (t : Store) (id : String) (row : UpdateRow) (from : Option UpdateState) (to : UpdateState)
    (code : String) (details : Details) (at : ℕ)
    → get id (audit row from to code details at t).1 ≡ get id t
unfolding get audit modify
get-audit t id row from to code details at = refl

Leads-finish_reconcile :
    (t : Store) (id : String) (outcome : Confirmed) (active_sha : String) (at : ℕ)
    → Leads History t (finish_reconcile id outcome active_sha at)
unfolding finish_reconcile
Leads-finish_reconcile t id outcome active_sha at = Leads-get_required t id _ λ row found.
    Leads-bind History-order t _ _ (Leads-audit t row _ _ _ _ at) λ _ _.
      Leads-complete_internal _ row
        (get-audit t row.request_id row _ _ _ _ at ∙ get_self id t row found) _ _ _ at _

pub Leads-complete_evidence_reconcile :
    (s : Store) (id : String) (outcome : Confirmed) (active_sha : String) (at : ℕ)
    → Leads History s (complete_evidence_reconcile id outcome active_sha at)
unfolding complete_evidence_reconcile assert_transition
Leads-complete_evidence_reconcile s id outcome active_sha at = Leads-transaction History-order s _ (
    Leads-get_required s id _ λ row found. Leads-require History-order s _ _ _ λ _.
      Leads-gets History-order s _ _ (
        Leads-require History-order s _ _ _ λ _. Leads-gets History-order s _ _ (
          Leads-require History-order s _ _ _ λ _. Leads-gets History-order s _ _ (
            Leads-require History-order s _ _ _ λ _. Leads-require History-order s _ _ _ λ _.
              Leads-bind History-order s _ _
                (Leads-update_requests s _ _ _ (λ r _. refl)
                  λ r h p.
                    reopened-RowEvolves id row.fence (intermediate outcome) r _ p
                      (intermediate-allowed outcome) refl refl refl)
                λ _ _.
                  Leads-modify History-order _ _ _ (History-frame _ _ refl refl)
                    (Leads-finish_reconcile _ id outcome active_sha at)))))
