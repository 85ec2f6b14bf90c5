-- ===== src/Updater/History/Mutations.antt =====
-- `transitionInternal` and `completeInternal` of updater/src/database.ts, and the history.
use dona.Prelude.{ℕ, String, true, List, [], ◌∷◌, some, ◌≡◌, refl, sym, ap, subst, ◌∙◌, arith}
use dona.Exec.{ok, raise, pure, require, ◌>>=◌}
use dona.Exec.Leads.{Leads, Leads-pure, Leads-bind, Leads-require, Leads-write, Leads-read}
use dona.Updater.State.{UpdateState, state_discrete}
use dona.Updater.Rows.{UpdateRow, Details}
use dona.Updater.Store.{Store, Error, is_at_fence, get, get_required, audit, update_requests}
use dona.Updater.Notification.{insert_outbox}
use dona.Updater.Mutation.{
  Assign, unsupported, assign, assign_all, check_fields, assert_change, transition_internal,
  complete_internal, clear_active,
}
use dona.Updater.History.{Reaches, here, via, Identity, identity, History, History-order}
use dona.Updater.History.Statements.{
  History-frame, Leads-audit, Leads-get_required, Leads-update_requests,
}

-- What an assignment leaves alone.
pub record Keeps (r t : UpdateRow) : Type 0 where
  pub identity_kept : identity t ≡ identity r
  pub state_kept : t.state ≡ r.state
  pub fence_kept : t.fence ≡ r.fence

assign-Keeps : (a : Assign) (r : UpdateRow) → Keeps r (assign a r)
unfolding assign
assign-Keeps (unsupported k) r = record {
  identity_kept = refl;
  state_kept = refl;
  fence_kept = refl;
}
assign-Keeps _ r = record { identity_kept = refl; state_kept = refl; fence_kept = refl }

pub assign_all-Keeps : (fields : List Assign) (r : UpdateRow) → Keeps r (assign_all fields r)
unfolding assign_all
assign_all-Keeps [] r = record { identity_kept = refl; state_kept = refl; fence_kept = refl }
assign_all-Keeps (a ∷ fields) r =
    let k = assign_all-Keeps fields (assign a r) in
    let h = assign-Keeps a r in
    record {
      identity_kept = k.identity_kept ∙ h.identity_kept;
      state_kept = k.state_kept ∙ h.state_kept;
      fence_kept = k.fence_kept ∙ h.fence_kept;
    }

pub check_fields-same : (fields : List Assign) (s : Store) → (check_fields fields s).1 ≡ s
unfolding check_fields pure raise
check_fields-same [] s = refl
check_fields-same (unsupported k ∷ rest) s = refl
check_fields-same (_ ∷ rest) s = check_fields-same rest s

pub assert_change-same : (from to : UpdateState) (s : Store) → (assert_change from to s).1 ≡ s
unfolding assert_change pure require
assert_change-same from to s = ground arith

pub assert_change-Reaches :
    (from to : UpdateState) (s : Store) (u : Unit {0})
    → (assert_change from to s).0 ≡ ok u
    → Reaches from to
unfolding assert_change pure require
assert_change-Reaches from to s u h = elim (state_discrete from to) [
  | yes e ↦ subst (λ t. Reaches from t) e here
  | no n ↦ via (ground arith) here
]

-- At the row of an id, an update to a state that can be reached.
pub same_row :
    (s : Store) (row r : UpdateRow)
    → get row.request_id s ≡ some row
    → get r.request_id s ≡ some r
    → is_at_fence row.request_id row.fence r ≡ true
    → r ≡ row
same_row s row r e h p =
    let i : r.request_id ≡ row.request_id = ground arith in
    let j : get row.request_id s ≡ some r = subst (λ (k : String). get k s ≡ some r) i h in cc

module _ (s : Store) (row : UpdateRow) (found : get row.request_id s ≡ some row) where
  Leads-set_state :
      (to : UpdateState) (at : ℕ) (fields : List Assign) (e : Error)
      → Reaches row.state to
      → Leads History s (
          update_requests
            (is_at_fence row.request_id row.fence)
            (λ r. assign_all fields (record r { state = to; updated_at = at }))
            e)
  Leads-set_state to at fields e path =
      Leads-update_requests s _ _ e
        (λ r _. ap (λ (i : Identity). i.request_id) (kept r).identity_kept)
        λ r h p. record {
          identity_kept = (kept r).identity_kept;
          fence_grows = rw (kept r).fence_kept (omega arith);
          path = rw (kept r).state_kept (
              subst (λ (u : UpdateRow). Reaches u.state to) (sym (same_row s row r found h p))
                path);
        }
    where
      kept :
          (r : UpdateRow)
          → Keeps
              (record r { state = to; updated_at = at })
              (assign_all fields (record r { state = to; updated_at = at }))
      kept r = assign_all-Keeps fields _

  Leads-finish_transition :
      (t : Store) (to : UpdateState) (at : ℕ) (code : String) (details : Details)
      → Leads History t (
          get_required row.request_id >>= λ updated.
          audit updated (some row.state) to code details at >>= λ _. pure updated)
  Leads-finish_transition t to at code details = Leads-get_required t _ _ λ updated _.
      Leads-bind History-order t _ _ (Leads-audit t updated _ to code details at)
        λ _ _. Leads-pure History-order _ updated

  pub Leads-transition_internal :
      (to : UpdateState) (at : ℕ) (fields : List Assign) (code : String) (details : Details)
      → Leads History s (transition_internal row to at fields code details)
  unfolding transition_internal
  Leads-transition_internal to at fields code details =
      Leads-read History-order s _ _ (assert_change-same row.state to s) λ u allowed.
        Leads-read History-order s _ _ (check_fields-same fields s) λ _ _.
          Leads-bind History-order s _ _
            (Leads-set_state to at fields _ (assert_change-Reaches row.state to s u allowed))
            λ _ _. Leads-finish_transition _ to at code details

Leads-clear_active : (s : Store) (id : String) → Leads History s (clear_active id)
unfolding clear_active
Leads-clear_active s id = Leads-write History-order s _ (History-frame s _ refl refl)

Leads-insert_outbox :
    (s : Store) (row : UpdateRow) (at : ℕ) → Leads History s (insert_outbox row at)
unfolding insert_outbox
Leads-insert_outbox s row at =
    Leads-require History-order s _ _ _
      λ _. Leads-write History-order s _ (History-frame s _ refl refl)

module _ (s : Store) (row : UpdateRow) (found : get row.request_id s ≡ some row) where
  pub Leads-complete_internal :
      (to : UpdateState) (code : String) (fields : List Assign) (at : ℕ) (details : Details)
      → Leads History s (complete_internal row to code fields at details)
  unfolding complete_internal
  Leads-complete_internal to code fields at details =
      Leads-bind History-order s _ _ (Leads-transition_internal s row found to at _ code details)
        λ completed _. Leads-bind History-order _ _ _ (Leads-clear_active _ row.request_id) λ _ _.
          Leads-bind History-order _ _ _ (Leads-insert_outbox _ completed at)
            λ _ _. Leads-pure History-order _ completed
