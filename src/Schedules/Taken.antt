-- ===== src/Schedules/Taken.antt =====
-- What the insertion and the claims of dispatcher/src/scheduler/repository.ts do to the outbox.
use Prim.Native.String
use dona.Prelude.{
  All-head, All-sort_with, ◌≡◌, ◌≢◌, refl, sym, ◌∙◌, ap, subst, ℕ, zero, suc, String, Bool, true,
  false, Option, none, some, ◌+◌, List, [], ◌∷◌, ◌++◌, inl, inr, arith, All, is_none, find?, map,
  find?-append, text_eq, Bool-cases,
}
use dona.Exec.{◌>>=◌, pure, gets, modify}
use dona.Exec.Leads.{
  Leads, Leads-write, Leads-pure, Leads-bind, Leads-gets, Leads-transaction, Leads-require,
}
use dona.Schedules.Rows.{Outbox, OutboxKind, OutboxStatus, Tables, Target, Run, Schedule, Revision}
use dona.Schedules.Store.{outbox_is, outbox_row, get, get_run, revision_of}
use dona.Schedules.Delivery.{
  Host, draw, insert_outbox, clashes, claim_batch, claim_loop, claim_next, take_row, taken,
  claimable, claimable_run, claimable_schedule, claimable_revision, next_claimable, goes_first,
  is_pending,
}
use dona.Schedules.Rowwise.{
  Kept, Distinct, outbox_ids, Leads-update_row, Leads-required_last, select-Found, text_self,
}
use dona.Schedules.Untouched.{Untouched, Untouched-order}
use dona.Schedules.Unsent.{Leads-Untouched}
use dona.Schedules.Custody.{stage, Custody, Custody-order, Quiet-Custody, Present, Present-is}
use dona.Schedules.Recovered.{Guarded, Guarded-order, Guarded-recover}

-- A row whose id is not taken.
Fresh : String → List Outbox → Type 0
Fresh id rs = All (λ y. y ≢ id) (map Outbox.outbox_id rs)

fresh :
    (p : Outbox → Bool) (id : String) (rs : List Outbox)
    → ((r : Outbox) → r.outbox_id ≡ id → p r ≡ true)
    → find? p rs ≡ none
    → Fresh id rs
unfolding find? Fresh
fresh p id [] f e = tt
fresh p id (r ∷ rs) f e = elim (Bool-cases (p r)) [
  | inl h ↦ cc (sym (met h) ∙ e)
  | inr h ↦ ((λ same. cc (sym h ∙ f r same)), fresh p id rs f (sym (past h) ∙ e))
]
  where
    met : p r ≡ true → find? p (r ∷ rs) ≡ some r
    met h = rw h refl

    past : p r ≡ false → find? p (r ∷ rs) ≡ find? p rs
    past h = rw h refl

clash :
    (id run_id : String) (kind : OutboxKind) (r : Outbox)
    → r.outbox_id ≡ id
    → clashes id run_id kind r ≡ true
clash id run_id kind r e = rw (ap (λ i. text_eq i id) e) (rw (text_self id) refl)

nothing : (o : Option Outbox) → is_none o ≡ true → o ≡ none
nothing none h = refl
nothing (some r) h = cc

distinct_append :
    (xs : List String) (y : String) → All (λ x. x ≢ y) xs → Distinct xs → Distinct (xs ++ y ∷ [])
distinct_append [] y n d = (tt, tt)
distinct_append (x ∷ xs) y (n, ns) (a, d) = (grown xs a n, distinct_append xs y ns d)
  where
    grown : (zs : List String) → All (λ z. x ≢ z) zs → x ≢ y → All (λ z. x ≢ z) (zs ++ y ∷ [])
    grown [] a n = (n, tt)
    grown (z ∷ zs) (b, bs) n = (b, grown zs bs n)

ids_append :
    (rs : List Outbox) (o : Outbox)
    → map Outbox.outbox_id (rs ++ o ∷ []) ≡ map Outbox.outbox_id rs ++ o.outbox_id ∷ []
ids_append [] o = refl
ids_append (r ∷ rs) o = ap (λ is. r.outbox_id ∷ is) (ids_append rs o)

module _ (h : Host) where
  Leads-draw : (s : Tables) → Leads Untouched s (draw h)
  unfolding draw
  Leads-draw s = Leads-gets Untouched-order s _ _ (
      Leads-bind Untouched-order s _ _
        (Leads-write Untouched-order s _ (record { outbox_same = refl }))
        λ _ _. Leads-pure Untouched-order _ _)

  -- A new row leaves the others as they are.
  Guarded-append :
      (s : Tables) (o : Outbox)
      → Fresh o.outbox_id s.outbox
      → Guarded s (record s { outbox = s.outbox ++ o ∷ [] })
  unfolding outbox_row Fresh
  Guarded-append s o n = record {
    rows = λ id. appended id (outbox_row id s) refl;
    distinct = λ d.
        subst Distinct (sym (ids_append s.outbox o))
          (distinct_append (outbox_ids s) o.outbox_id n d);
  }
    where
      appended :
          (id : String) (a : Option Outbox)
          → find? (outbox_is id) s.outbox ≡ a
          → Kept Custody a (find? (outbox_is id) (s.outbox ++ o ∷ []))
      appended id none e = tt
      appended id (some r) e =
          rw (find?-append (outbox_is id) s.outbox (o ∷ []) r e) (Custody-order.same r)

  pub Guarded-insert_outbox :
      (s : Tables) (run_id : String) (kind : OutboxKind) (place : Target) (content : String)
      (now : ℕ)
      → Leads Guarded s (insert_outbox h run_id kind place content now)
  unfolding insert_outbox
  Guarded-insert_outbox s run_id kind place content now =
      Leads-bind Guarded-order s _ _
        (Leads-Untouched Custody-order Quiet-Custody s _ (Leads-draw s))
        λ id _. Leads-gets Guarded-order _ _ _ (
          Leads-gets Guarded-order _ _ _ (
            Leads-require Guarded-order _ _ _ _ λ free. Leads-write Guarded-order _ _ (
              Guarded-append _ _ (
                fresh (clashes (String.◌++◌ "outbox_" id) run_id kind) _ _
                  (clash (String.◌++◌ "outbox_" id) run_id kind) (nothing _ free)))))

abbrev Pending : Outbox → Type 0
Pending r = is_pending r.status ≡ true

Pending-revision :
    (now : ℕ) (kind : Option OutboxKind) (o : Outbox) (r : Run) (s : Schedule) (a : Option Revision)
    → claimable_revision now kind o r s a ≡ true
    → Pending o
Pending-revision now kind o r s none h = cc
Pending-revision now kind o r s (some v) h = ground arith

Pending-schedule :
    (now : ℕ) (kind : Option OutboxKind) (o : Outbox) (r : Run) (t : Tables) (a : Option Schedule)
    → claimable_schedule now kind o r t a ≡ true
    → Pending o
Pending-schedule now kind o r t none h = cc
Pending-schedule now kind o r t (some s) h =
    Pending-revision now kind o r s (revision_of r.schedule_id r.revision t) h

Pending-run :
    (now : ℕ) (kind : Option OutboxKind) (o : Outbox) (t : Tables) (a : Option Run)
    → claimable_run now kind o t a ≡ true
    → Pending o
Pending-run now kind o t none h = cc
Pending-run now kind o t (some r) h = Pending-schedule now kind o r t (get r.schedule_id t) h

claimable-Pending :
    (now : ℕ) (kind : Option OutboxKind) (s : Tables) (o : Outbox)
    → claimable now kind s o ≡ true
    → Pending o
unfolding claimable
claimable-Pending now kind s o h = Pending-run now kind o s (get_run o.run_id s) h

next-Present :
    (now : ℕ) (kind : Option OutboxKind) (s : Tables) (row : Outbox)
    → Distinct (outbox_ids s)
    → next_claimable now kind s ≡ some row
    → Present Pending s row.outbox_id
unfolding next_claimable outbox_row
next-Present now kind s row d e = (row, found.1, claimable-Pending now kind s row found.0)
  where
    Found : Outbox → Type 0
    Found x = (claimable now kind s x ≡ true) × (find? (outbox_is x.outbox_id) s.outbox ≡ some x)

    found : Found row
    found =
        All-head Found _ row
          (All-sort_with Found (goes_first s) _ (select-Found (claimable now kind s) s.outbox d)) e

drawn :
    (h : Host) (s : Tables) (id : String) → Present Pending s id → Present Pending (draw h s).1 id
unfolding draw outbox_row ◌>>=◌ gets modify pure
drawn h s id w = w

module _ (h : Host) (now lease : ℕ) where
  Guarded-take_row :
      (s : Tables) (row : Outbox)
      → Present Pending s row.outbox_id
      → Leads Guarded s (take_row h now lease row)
  unfolding take_row
  Guarded-take_row s row w =
      Leads-bind Guarded-order s _ _
        (Leads-Untouched Custody-order Quiet-Custody s _ (Leads-draw h s))
        λ token _.
          Leads-bind Guarded-order _ _ _
            (Leads-update_row Custody-order _ row.outbox_id (taken token (now + lease) now)
              (λ r. refl)
              (λ r e.
                took token r
                  (Present-is Pending (draw h s).1 row.outbox_id r (drawn h s row.outbox_id w) e)))
            λ _ _. Leads-gets Guarded-order _ _ _ (Leads-required_last Guarded-order _ _)
    where
      took : (token : String) (r : Outbox) → Pending r → Custody r (taken token (now + lease) now r)
      took token r p = record {
        further = omega (arith, waiting r.status p);
        ended_unsent = λ e. absurd (omega (arith, e, waiting r.status p));
        attempts_bounded = λ b. b;
      }
        where
          waiting : (a : OutboxStatus) → is_pending a ≡ true → stage a ≡ 0
          waiting a k = ground arith

  Guarded-claim_loop :
      (n : ℕ) (s : Tables) (kind : Option OutboxKind)
      → Distinct (outbox_ids s)
      → Leads Guarded s (claim_loop h n now lease kind)
  unfolding claim_loop
  Guarded-claim_loop zero s kind d = Leads-pure Guarded-order s []
  Guarded-claim_loop (suc n) s kind d = Leads-gets Guarded-order s _ _ (
      claimed (next_claimable now kind s) (λ row e. next-Present now kind s row d e)
        (λ t e. Guarded-claim_loop n t kind e))
    where
      claimed :
          (o : Option Outbox)
          → ((row : Outbox) → o ≡ some row → Present Pending s row.outbox_id)
          → ((t : Tables)
              → Distinct (outbox_ids t)
              → Leads Guarded t (claim_loop h n now lease kind))
          → Leads Guarded s (claim_next h now lease (claim_loop h n now lease kind) o)
      claimed none f rest = Leads-pure Guarded-order s []
      claimed (some row) f rest =
          let taken_row = Guarded-take_row s row (f row refl) in
          Leads-bind Guarded-order s _ _ taken_row λ took _.
            Leads-bind Guarded-order _ _ _ (rest _ (taken_row.after.distinct d))
              λ others _. Leads-pure Guarded-order _ (took ∷ others)

  pub Guarded-claim_batch :
      (s : Tables) (kind : Option OutboxKind) (limit : ℕ)
      → Distinct (outbox_ids s)
      → Leads Guarded s (claim_batch h now lease kind limit)
  unfolding claim_batch
  Guarded-claim_batch s kind limit d = Leads-require Guarded-order s _ _ _ λ _.
      Leads-require Guarded-order s _ _ _ λ _. Leads-transaction Guarded-order s _ (
        let recovered = Guarded-recover s now false d in
        Leads-bind Guarded-order s _ _ recovered
          λ _ _. Guarded-claim_loop limit _ kind (recovered.after.distinct d))
