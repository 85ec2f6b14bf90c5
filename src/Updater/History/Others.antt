-- ===== src/Updater/History/Others.antt =====
-- The fenced mutations of updater/src/database.ts and its methods on the other tables, and the history.
use dona.Prelude.{ℕ, String, Bool, List, Option, ◌≡◌, refl, ap, arith}
use dona.Exec.Leads.{
  Leads, Leads-pure, Leads-bind, Leads-gets, Leads-require, Leads-modify, Leads-check,
  Leads-transaction,
}
use dona.Updater.State.{UpdateState}
use dona.Updater.Rows.{UpdateRow, Details, RuntimeOperationKind, RuntimeOperationPhase}
use dona.Updater.Store.{Store, Error, update_requests}
use dona.Updater.Mutation.{Assign}
use dona.Updater.Fenced.{
  renew_lease, assert_lease, transition, terminal, record_activation_generation,
  increment_restart_attempts, defer_reconcile, clear_reconcile,
}
use dona.Updater.Operations.{prepare_runtime_operation, record_runtime_operation}
use dona.Updater.History.{here, Identity, identity, History, History-order}
use dona.Updater.History.Statements.{
  History-frame, get_self, Leads-get_required, Leads-update_requests, Leads-or_throw,
  Leads-or_throw_last,
}
use dona.Updater.History.Mutations.{Leads-transition_internal, Leads-complete_internal}

-- An update that leaves identity, state and fence alone.
Leads-touch :
    (s : Store) (p : UpdateRow → Bool) (f : UpdateRow → UpdateRow) (e : Error)
    → ((r : UpdateRow) → identity (f r) ≡ identity r)
    → ((r : UpdateRow) → (f r).state ≡ r.state)
    → ((r : UpdateRow) → (f r).fence ≡ r.fence)
    → Leads History s (update_requests p f e)
Leads-touch s p f e i st fe =
    Leads-update_requests s p f e (λ r _. ap (λ (k : Identity). k.request_id) (i r))
      λ r _ _. record {
        identity_kept = i r;
        fence_grows = omega (arith, fe r);
        path = rw (st r) here;
      }

pub Leads-renew_lease :
    (s : Store) (id : String) (fence : ℕ) (owner : String) (lease_ms at : ℕ)
    → Leads History s (renew_lease id fence owner lease_ms at)
unfolding renew_lease
Leads-renew_lease s id fence owner lease_ms at =
    Leads-touch s _ _ _ (λ _. refl) (λ _. refl) (λ _. refl)

pub Leads-assert_lease :
    (s : Store) (id : String) (fence : ℕ) (owner : String) (at : ℕ)
    → Leads History s (assert_lease id fence owner at)
unfolding assert_lease
Leads-assert_lease s id fence owner at =
    Leads-gets History-order s _ _ (Leads-check History-order s _ _)

pub Leads-transition :
    (s : Store) (id : String) (fence : ℕ) (to : UpdateState) (code : String) (fields : List Assign)
    (at : ℕ)
    → Leads History s (transition id fence to code fields at)
unfolding transition
Leads-transition s id fence to code fields at = Leads-transaction History-order s _ (
    Leads-get_required s id _ λ row found.
      Leads-require History-order s _ _ _
        λ _. Leads-transition_internal s row (get_self id s row found) to at fields code _)

pub Leads-terminal :
    (s : Store) (id : String) (fence : ℕ) (to : UpdateState) (code : String) (fields : List Assign)
    (at : ℕ) (details : Details)
    → Leads History s (terminal id fence to code fields at details)
unfolding terminal
Leads-terminal s id fence to code fields at details = Leads-transaction History-order s _ (
    Leads-get_required s id _ λ row found.
      Leads-require History-order s _ _ _
        λ _. Leads-complete_internal s row (get_self id s row found) to code fields at details)

pub Leads-record_activation_generation :
    (s : Store) (id : String) (fence generation at : ℕ)
    → Leads History s (record_activation_generation id fence generation at)
unfolding record_activation_generation
Leads-record_activation_generation s id fence generation at =
    Leads-touch s _ _ _ (λ _. refl) (λ _. refl) (λ _. refl)

pub Leads-increment_restart_attempts :
    (s : Store) (id : String) (fence at : ℕ)
    → Leads History s (increment_restart_attempts id fence at)
unfolding increment_restart_attempts
Leads-increment_restart_attempts s id fence at =
    Leads-touch s _ _ _ (λ _. refl) (λ _. refl) (λ _. refl)

pub Leads-defer_reconcile :
    (s : Store) (id : String) (fence : ℕ) (code message : String) (after deadline at : ℕ)
    → Leads History s (defer_reconcile id fence code message after deadline at)
unfolding defer_reconcile
Leads-defer_reconcile s id fence code message after deadline at =
    Leads-touch s _ _ _ (λ _. refl) (λ _. refl) (λ _. refl)

pub Leads-clear_reconcile :
    (s : Store) (id : String) (fence at : ℕ) → Leads History s (clear_reconcile id fence at)
unfolding clear_reconcile
Leads-clear_reconcile s id fence at = Leads-touch s _ _ _ (λ _. refl) (λ _. refl) (λ _. refl)

pub Leads-prepare_runtime_operation :
    (s : Store) (id : String) (fence : ℕ) (kind : RuntimeOperationKind) (target_ref : String)
    (expected_sha previous_session_id : Option String) (evidence : String) (at : ℕ)
    → Leads History s (
        prepare_runtime_operation id fence kind target_ref expected_sha previous_session_id evidence
          at)
unfolding prepare_runtime_operation
Leads-prepare_runtime_operation s id fence kind target_ref expected_sha previous_session_id evidence
      at =
    Leads-transaction History-order s _ (
      Leads-bind History-order s _ _ (Leads-touch s _ _ _ (λ _. refl) (λ _. refl) (λ _. refl))
        λ _ _. Leads-modify History-order _ _ _ (History-frame _ _ refl refl) (
          Leads-gets History-order _ _ _ (
            Leads-or_throw _ _ _ _
              λ op _. Leads-require History-order _ _ _ _ λ _. Leads-pure History-order _ op)))

pub Leads-record_runtime_operation :
    (s : Store) (id : String) (fence : ℕ) (kind : RuntimeOperationKind)
    (phase : RuntimeOperationPhase) (observed_session_id : Option String) (evidence : String)
    (at : ℕ)
    → Leads History s (record_runtime_operation id fence kind phase observed_session_id evidence at)
unfolding record_runtime_operation
Leads-record_runtime_operation s id fence kind phase observed_session_id evidence at =
    Leads-gets History-order s _ _ (
      Leads-modify History-order s _ _ (History-frame _ _ refl refl) (
        Leads-require History-order _ _ _ _
          λ _. Leads-gets History-order _ _ _ (Leads-or_throw_last _ _ _)))
