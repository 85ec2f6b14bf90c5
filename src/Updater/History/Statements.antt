-- ===== src/Updater/History/Statements.antt =====
-- The statements of the methods of updater/src/database.ts, and the history.
use mathlib.Core.Option
use dona.Prelude.{
  ℕ, String, Bool, true, List, [], ◌∷◌, ◌++◌, Option, none, some, ◌≡◌, refl, sym, ap, subst, ◌∙◌,
  inl, inr, if◌then◌else◌, text_eq, find?, update_where, append-nil, Bool-cases, find?-holds,
  find?-update_where, arith,
}
use dona.Exec.{modify, ◌>>=◌}
use dona.Exec.Leads.{Leads, Leads-pure, Leads-raise, Leads-gets, Leads-modify, Leads-check}
use dona.Updater.State.{UpdateState}
use dona.Updater.Rows.{UpdateRow, Details, AuditRow}
use dona.Updater.Store.{
  Store, Error, Db, has_request_id, get, get_required, or_throw, audit, update_requests,
}
use dona.Updater.History.{RowEvolves, Evolved, Evolved-refl, IsUnique, History, History-order}

-- A statement on other tables.
pub History-frame : (s t : Store) → t.requests ≡ s.requests → t.audits ≡ s.audits → History s t
unfolding get
History-frame s t e a u = record {
  unique = rw e u;
  rows = λ id. rw e (Evolved-refl (get id s));
  added = [];
  audits = a ∙ sym (append-nil s.audits);
}

pub has_request_id-get :
    (id : String) (s : Store) (r : UpdateRow) → get id s ≡ some r → r.request_id ≡ id
unfolding get
has_request_id-get id s r e = ground (arith, find?-holds (has_request_id id) s.requests r e)

pub get_self :
    (id : String) (s : Store) (r : UpdateRow) → get id s ≡ some r → get r.request_id s ≡ some r
get_self id s r e = subst (λ i. get i s ≡ some r) (sym (has_request_id-get id s r e)) e

module _ (p : UpdateRow → Bool) (f : UpdateRow → UpdateRow)
    (keep : (r : UpdateRow) → p r ≡ true → (f r).request_id ≡ r.request_id) where
  pub find?-update_requests :
      (id : String) (rs : List UpdateRow)
      → find? (has_request_id id) (update_where p f rs)
        ≡ Option.map (λ r. if p r then f r else r) (find? (has_request_id id) rs)
  find?-update_requests id rs =
      find?-update_where (has_request_id id) p f rs
        λ r h. ap (λ (i : String). text_eq i id) (keep r h)

  IsUnique-update : (rs : List UpdateRow) → IsUnique rs → IsUnique (update_where p f rs)
  unfolding update_where
  IsUnique-update [] u = tt
  IsUnique-update (r ∷ rs) u = elim (Bool-cases (p r)) [
    | inl e ↦
        rw e
          (rw (keep r e) (find?-update_requests r.request_id rs ∙ rw u.0), IsUnique-update rs u.1)
    | inr e ↦ rw e (find?-update_requests r.request_id rs ∙ rw u.0, IsUnique-update rs u.1)
  ]

  Evolved-map :
      (o : Option UpdateRow)
      → ((r : UpdateRow) → o ≡ some r → p r ≡ true → RowEvolves r (f r))
      → Evolved o (Option.map (λ r. if p r then f r else r) o)
  Evolved-map none h = tt
  Evolved-map (some r) h = elim (Bool-cases (p r)) [
    | inl e ↦ rw e (h r refl e)
    | inr e ↦ rw e (Evolved-refl (some r))
  ]

  pub History-update :
      (s : Store)
      → ((r : UpdateRow) → get r.request_id s ≡ some r → p r ≡ true → RowEvolves r (f r))
      → History s (record s { requests = update_where p f s.requests })
  unfolding get
  History-update s step u = record {
    unique = IsUnique-update s.requests u;
    rows = λ id.
        rw (find?-update_requests id s.requests)
          (Evolved-map (find? (has_request_id id) s.requests) (λ r e. step r (get_self id s r e)));
    added = [];
    audits = sym (append-nil s.audits);
  }

History-audits :
    (s : Store) (entries : List AuditRow) → History s (record s { audits = s.audits ++ entries })
unfolding get
History-audits s entries u = record {
  unique = u;
  rows = λ id. Evolved-refl (get id s);
  added = entries;
  audits = refl;
}

pub Leads-audit :
    (s : Store) (row : UpdateRow) (from : Option UpdateState) (to : UpdateState) (code : String)
    (details : Details) (at : ℕ)
    → Leads History s (audit row from to code details at)
unfolding audit modify
Leads-audit s row from to code details at = record { after = History-audits s _ }

module _ {A B : Type 0} (s : Store) where
  pub Leads-or_throw :
      (o : Option A) (e : Error) (f : A → Db B)
      → ((a : A) → o ≡ some a → Leads History s (f a))
      → Leads History s (or_throw o e >>= f)
  unfolding ◌>>=◌
  Leads-or_throw none e f h = record { after = History-order.same s }
  Leads-or_throw (some a) e f h = record { after = (h a refl).after }

module _ {B : Type 0} (s : Store) where
  pub Leads-get_required :
      (id : String) (f : UpdateRow → Db B)
      → ((r : UpdateRow) → get id s ≡ some r → Leads History s (f r))
      → Leads History s (get_required id >>= f)
  unfolding get_required ◌>>=◌
  Leads-get_required id f h = record { after = (Leads-or_throw s (get id s) _ f h).after }

pub Leads-update_requests :
    (s : Store) (p : UpdateRow → Bool) (f : UpdateRow → UpdateRow) (e : Error)
    → ((r : UpdateRow) → p r ≡ true → (f r).request_id ≡ r.request_id)
    → ((r : UpdateRow) → get r.request_id s ≡ some r → p r ≡ true → RowEvolves r (f r))
    → Leads History s (update_requests p f e)
unfolding update_requests
Leads-update_requests s p f e keep step = Leads-gets History-order s _ _ (
    Leads-modify History-order s _ _ (History-update p f keep s step)
      (Leads-check History-order _ _ e))

pub Leads-or_throw_last :
    {A : Type 0} (s : Store) (o : Option A) (e : Error) → Leads History s (or_throw o e)
Leads-or_throw_last s none e = Leads-raise History-order s e
Leads-or_throw_last s (some a) e = Leads-pure History-order s a
