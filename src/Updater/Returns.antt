-- ===== src/Updater/Returns.antt =====
-- The rules of Exec.Ends for the statements of the updater's database.
use dona.Prelude.{
  ℕ, String, Bool, List, ◌++◌, Option, none, some, ◌≡◌, refl, sym, subst, update_where,
}
use dona.Exec.{◌>>=◌}
use dona.Exec.Ends.{Ends, Ends-raise, Ends-bind, Ends-gets, Ends-modify, Ends-check}
use dona.Updater.State.{UpdateState}
use dona.Updater.Rows.{UpdateRow, Details, AuditRow}
use dona.Updater.Store.{Store, Error, Db, or_throw, get, get_required, audit, update_requests}

Ends-or_throw :
    {A B : Type 0} (Q : B → Store → Type 0) (s : Store) (o : Option A) (e : Error) (f : A → Db B)
    → ((a : A) → o ≡ some a → Ends Q s (f a))
    → Ends Q s (or_throw o e >>= f)
unfolding ◌>>=◌
Ends-or_throw Q s none e f h = record { after = (Ends-raise Q s e).after }
Ends-or_throw Q s (some a) e f h = record { after = (h a refl).after }

pub Ends-get_required :
    {B : Type 0} (Q : B → Store → Type 0) (s : Store) (id : String) (f : UpdateRow → Db B)
    → ((r : UpdateRow) → get id s ≡ some r → Ends Q s (f r))
    → Ends Q s (get_required id >>= f)
unfolding get_required ◌>>=◌
Ends-get_required Q s id f h = record { after = (Ends-or_throw Q s (get id s) _ f h).after }

pub Ends-update_requests :
    {B : Type 0} (Q : B → Store → Type 0) (s : Store) (p : UpdateRow → Bool)
    (f : UpdateRow → UpdateRow) (e : Error) (k : Unit {0} → Db B)
    → Ends Q (record s { requests = update_where p f s.requests }) (k tt)
    → Ends Q s (update_requests p f e >>= k)
unfolding update_requests
Ends-update_requests Q s p f e k h =
    Ends-bind Q s (λ _ t. t ≡ record s { requests = update_where p f s.requests }) _ k
      (Ends-gets _ s _ _ (Ends-modify _ s _ _ (Ends-check _ _ _ e (λ _. refl))))
      λ u t e. subst (λ v. Ends Q v (k u)) (sym e) h

pub Ends-audit :
    {B : Type 0} (Q : B → Store → Type 0) (s : Store) (row : UpdateRow) (from : Option UpdateState)
    (to : UpdateState) (code : String) (details : Details) (at : ℕ) (k : Unit {0} → Db B)
    → ((entries : List AuditRow) → Ends Q (record s { audits = s.audits ++ entries }) (k tt))
    → Ends Q s (audit row from to code details at >>= k)
unfolding audit
Ends-audit Q s row from to code details at k h = Ends-modify Q s _ k (h _)
