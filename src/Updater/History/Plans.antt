-- ===== src/Updater/History/Plans.antt =====
-- Making, approving and cancelling a plan in updater/src/database.ts, and the history.
use dona.Prelude.{
  ℕ, String, Bool, false, List, [], ◌∷◌, ◌++◌, Option, none, some, ◌≡◌, refl, sym, inl, inr,
  text_eq, opt_is, Bool-cases, Option-cases, ◌||◌, find?, find?-append, none-not-is_some, not,
  append-nil, arith,
}
use dona.Exec.Leads.{
  Leads, Leads-pure, Leads-raise, Leads-bind, Leads-gets, Leads-require, Leads-write, Leads-if,
  Leads-transaction,
}
use dona.Updater.State.{is_terminal, includes}
use dona.Updater.Rows.{UpdateRow, ReplyTarget}
use dona.Updater.Store.{Store, has_request_id, get}
use dona.Updater.Requests.{
  PlanRequest, PlanMaterial, CanonicalPlan, ApplyRequest, insert_request, clashes, has_source,
  has_plan, material_differs, oldest, is_open, before_mutation, reuse_plan, insert_plan,
  create_plan, approve_row, approve, request_cancellation,
}
use dona.Updater.History.{IsUnique, Evolved, Evolved-refl, History, History-order}
use dona.Updater.History.Statements.{get_self, Leads-audit, Leads-get_required}
use dona.Updater.History.Mutations.{Leads-transition_internal, Leads-complete_internal}

find?-clash-none :
    (new : UpdateRow) (rs : List UpdateRow)
    → find? (clashes new) rs ≡ none
    → find? (has_request_id new.request_id) rs ≡ none
unfolding find?
find?-clash-none new [] e = refl
find?-clash-none new (r ∷ rs) e = ground (arith, find?-clash-none new rs)

-- The id of a new row is no id of the rows before it.
find?-snoc :
    (id : String) (rs : List UpdateRow) (new : UpdateRow)
    → find? (has_request_id id) rs ≡ none
    → text_eq new.request_id id ≡ false
    → find? (has_request_id id) (rs ++ new ∷ []) ≡ none
unfolding find?
find?-snoc id [] new e n = ground arith
find?-snoc id (r ∷ rs) new e n = ground (arith, find?-snoc id rs new)

IsUnique-snoc :
    (new : UpdateRow) (rs : List UpdateRow)
    → find? (has_request_id new.request_id) rs ≡ none
    → IsUnique rs
    → IsUnique (rs ++ new ∷ [])
unfolding find?
IsUnique-snoc new [] e u = (refl, tt)
IsUnique-snoc new (r ∷ rs) e u =
    (find?-snoc r.request_id rs new u.0 (ground arith), IsUnique-snoc new rs (ground arith) u.1)

Evolved-append :
    (id : String) (rs ts : List UpdateRow)
    → Evolved (find? (has_request_id id) rs) (find? (has_request_id id) (rs ++ ts))
Evolved-append id rs ts = elim (Option-cases (find? (has_request_id id) rs)) [
  | inl e ↦ rw e tt
  | inr (r, e) ↦ rw (e, find?-append (has_request_id id) rs ts r e) (Evolved-refl (some r))
]

Leads-insert_request : (s : Store) (new : UpdateRow) → Leads History s (insert_request new)
unfolding insert_request get
Leads-insert_request s new = Leads-gets History-order s _ _ (
    Leads-require History-order s _ _ _ λ fresh. Leads-write History-order s _ λ u. record {
      unique =
          IsUnique-snoc new s.requests (find?-clash-none new s.requests (none-not-is_some _ fresh))
            u;
      rows = λ id. Evolved-append id s.requests (new ∷ []);
      added = [];
      audits = sym (append-nil s.audits);
    })

-- The row that a query finds is the row of its id.
find?-get :
    (q : UpdateRow → Bool) (rs : List UpdateRow) (row : UpdateRow)
    → IsUnique rs
    → find? q rs ≡ some row
    → find? (has_request_id row.request_id) rs ≡ some row
unfolding find?
find?-get q [] row u e = cc
find?-get q (r ∷ rs) row u e = elim (Bool-cases (q r)) [
  | inl hit ↦ ground arith
  | inr miss ↦
      let rest : find? (has_request_id row.request_id) rs ≡ some row =
        find?-get q rs row u.1 (ground arith) in
      ground (arith, u.0, rest)
]

Leads-reuse_plan :
    (s : Store) (request : PlanRequest) (material : PlanMaterial) (row : UpdateRow)
    → Leads History s (reuse_plan request material row)
unfolding reuse_plan
Leads-reuse_plan s request material row =
    elim (Bool-cases (material_differs request material row)) [
      | inl e ↦ rw e (Leads-raise History-order s _)
      | inr e ↦ rw e (Leads-pure History-order s _)
    ]

module _ (sha256 : CanonicalPlan → String) (s : Store) where
  Leads-insert_plan :
      (request_id plan_id : String) (request : PlanRequest) (material : PlanMaterial) (at : ℕ)
      → Leads History s (insert_plan sha256 request_id plan_id request material at)
  unfolding insert_plan
  Leads-insert_plan request_id plan_id request material at =
      Leads-bind History-order s _ _ (Leads-insert_request s _) λ _ _.
        Leads-get_required _ request_id _ λ row _.
          Leads-bind History-order _ _ _ (Leads-audit _ row _ _ _ _ at)
            λ _ _. Leads-pure History-order _ _

  pub Leads-create_plan :
      (request_id plan_id : String) (request : PlanRequest) (material : PlanMaterial) (at : ℕ)
      → Leads History s (create_plan sha256 request_id plan_id request material at)
  unfolding create_plan
  Leads-create_plan request_id plan_id request material at = Leads-transaction History-order s _ (
      Leads-gets History-order s _ _ (elim (Option-cases (find? (has_source request) s.requests)) [
        | inr (row, e) ↦ rw e (Leads-reuse_plan s request material row)
        | inl e ↦ rw e (
            Leads-gets History-order s _ _ (elim (Option-cases (oldest is_open s.requests)) [
              | inr (r, o) ↦ rw o (Leads-raise History-order s _)
              | inl o ↦ rw o (
                  Leads-gets History-order s _ _ (
                    Leads-require History-order s _ _ _
                      λ _. Leads-insert_plan request_id plan_id request material at))
            ]))
      ]))

module _ (s : Store) (input : ApplyRequest) (at : ℕ) where
  Leads-approve_row :
      (row : UpdateRow) (receipt : Option String)
      → get row.request_id s ≡ some row
      → Leads History s (approve_row input at row receipt)
  unfolding approve_row
  Leads-approve_row row none found =
      Leads-bind History-order s _ _ (Leads-transition_internal s row found _ at _ _ _)
        λ _ _. Leads-get_required _ _ _ λ _ _. Leads-pure History-order _ _
  Leads-approve_row row (some receipt) found =
      elim (Bool-cases (
        not (text_eq receipt input.approval_id)
        || not (opt_is input.source_event_id row.approval_event_id))) [
          | inl d ↦ rw d (Leads-raise History-order s _)
          | inr d ↦ rw d (Leads-pure History-order s _)
        ]

  found_by_plan :
      (row : UpdateRow)
      → find? (has_plan input) s.requests ≡ some row
      → IsUnique s.requests
      → get row.request_id s ≡ some row
  unfolding get
  found_by_plan row e u = find?-get (has_plan input) s.requests row u e

  pub Leads-approve : Leads History s (approve input at)
  unfolding approve
  Leads-approve = Leads-transaction History-order s _ (
      Leads-gets History-order s _ _ (elim (Option-cases (find? (has_plan input) s.requests)) [
        | inl e ↦ rw e (Leads-raise History-order s _)
        | inr (row, e) ↦ rw e (
            Leads-require History-order s _ _ _ λ _. record {
              after = λ u. (Leads-approve_row row row.approval_id (found_by_plan row e u)).after u;
            })
      ]))

pub Leads-request_cancellation :
    (s : Store) (id source : String) (target : ReplyTarget) (reason : String) (at : ℕ)
    → Leads History s (request_cancellation id source target reason at)
unfolding request_cancellation
Leads-request_cancellation s id source target reason at = Leads-transaction History-order s _ (
    Leads-get_required s id _ λ row found. Leads-require History-order s _ _ _ λ _.
      Leads-if History-order s (is_terminal row.state) _ _ (λ _. Leads-pure History-order s row)
        (λ _.
          Leads-if History-order s (includes before_mutation row.state) _ _
            (λ _. Leads-complete_internal s row (get_self id s row found) _ _ _ at _)
            (λ _. Leads-complete_internal s row (get_self id s row found) _ _ _ at _)))
