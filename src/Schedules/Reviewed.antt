-- ===== src/Schedules/Reviewed.antt =====
-- The rows that come under review, and stay there, in the methods of
-- dispatcher/src/scheduler/repository.ts.
use dona.Prelude.{
  ◌≡◌, ◌⊎◌, inl, inr, refl, ap, subst, ◌∙◌, ℕ, String, Bool, true, false, List, [], ◌∷◌, none, some,
  All, find?-update_where, update_where, text_eq, arith,
}
use dona.Exec.{Result, ok, modify}
use dona.Exec.Leads.{Leads, Leads-pure, Leads-bind}
use dona.Exec.Ends.{Ends, Ends-bind, Ends-pure, Ends-gets}
use dona.Schedules.Rows.{Outbox, OutboxStatus, Tables, Reason}
use dona.Schedules.Store.{Db, outbox_is, outbox_row, update_outbox}
use dona.Schedules.Settle.{is_unsent}
use dona.Schedules.Outboxes.{doubt_at, in_doubt, mark_ambiguous, mark_each}
use dona.Schedules.Rowwise.{RowOrder, Rows, Rows-order, own_id, text_self, All-map}
use dona.Schedules.Untouched.{Leads-update_schedules, Leads-retire_revisions, Leads-audit_outbox}
use dona.Schedules.Quiet.{Quiet, Leads-suppress}
use dona.Schedules.Unsent.{Leads-Quiet, Leads-Untouched, Leads-mark_ambiguous, Leads-review_run}
use dona.Schedules.Custody.{Present, Present-carried}
use dona.Schedules.Started.{Ends-required}

abbrev pub in_review : OutboxStatus → Bool
in_review OutboxStatus.needs_review = true
in_review s = false

abbrev pub InReview : Outbox → Type 0
InReview r = in_review r.status ≡ true

abbrev pub Unreviewed : Outbox → Type 0
Unreviewed r = in_review r.status ≡ false

abbrev pub There : Outbox → Type 0
There r = Unit

-- A row under review stays there.
pub record Stays (r t : Outbox) : Type 0 where
  pub stays : InReview r → InReview t

pub Stays-order : RowOrder Stays
Stays-order = record {
  same = λ r. record { stays = λ h. h };
  chain = λ r t u h k. record { stays = λ e. k.stays (h.stays e) };
}

-- A row that is not under review does not come there.
pub record Spared (r t : Outbox) : Type 0 where
  pub spared : Unreviewed r → Unreviewed t

pub Spared-order : RowOrder Spared
Spared-order = record {
  same = λ r. record { spared = λ h. h };
  chain = λ r t u h k. record { spared = λ e. k.spared (h.spared e) };
}

quiet_review :
    (b : Bool) (s t : OutboxStatus)
    → (t ≡ s) ⊎ ((is_unsent s ≡ true) × (t ≡ OutboxStatus.cancelled))
    → in_review s ≡ b
    → in_review t ≡ b
quiet_review b s t (inl e) h = ap in_review e ∙ h
quiet_review true s t (inr (u, e)) h = absurd (both s u h)
  where
    both : (a : OutboxStatus) → is_unsent a ≡ true → in_review a ≡ true → ⊥
    both a u h = ground arith
quiet_review false s t (inr (u, e)) h = ap in_review e

pub Quiet-Stays : (r t : Outbox) → Quiet r t → Stays r t
Quiet-Stays r t q = record { stays = quiet_review true r.status t.status q.status_kept }

pub Quiet-Spared : (r t : Outbox) → Quiet r t → Spared r t
Quiet-Spared r t q = record { spared = quiet_review false r.status t.status q.status_kept }

module _ {A : Type 0} (s : Tables) (m : Db A) where
  -- What holds after any return.
  pub Ends-if_ok :
      (Q : Tables → Type 0) → ((a : A) → (m s).0 ≡ ok a → Q (m s).1) → Ends (λ _ t. Q t) s m
  Ends-if_ok Q f = record {
    after = λ a t e.
        subst Q (ap (λ (p : Result String A × Tables). p.1) e)
          (f a (ap (λ (p : Result String A × Tables). p.0) e));
  }

  Ends-Stays :
      (id : String)
      → Leads (Rows Stays) s m
      → Present InReview s id
      → Ends (λ _ t. Present InReview t id) s m
  Ends-Stays id l w =
      Ends-if_ok (λ t. Present InReview t id)
        λ a e. Present-carried InReview (λ r t h. h.stays) s (m s).1 l.after id w

updated_row :
    (s : Tables) (id : String) (f : Outbox → Outbox) (x : Outbox)
    → ((r : Outbox) → (f r).outbox_id ≡ r.outbox_id)
    → outbox_row id s ≡ some x
    → outbox_row id (record s { outbox = update_where (outbox_is id) f s.outbox }) ≡ some (f x)
unfolding outbox_row
updated_row s id f x keep e =
    rw
      (find?-update_where (outbox_is id) (outbox_is id) f s.outbox
        (λ r h. ap (λ (i : String). text_eq i id) (keep r)))
      (rw e (rw (own_id s id x e) (rw (text_self id) refl)))

Ends-in_doubt :
    (s : Tables) (id : String) (at : ℕ)
    → Present There s id
    → Ends (λ _ t. Present InReview t id) s (update_outbox (outbox_is id) (in_doubt at))
unfolding update_outbox modify
Ends-in_doubt s id at (x, e, h) =
    Ends-if_ok s _ (λ t. Present InReview t id)
      λ a k. (in_doubt at x, updated_row s id (in_doubt at) x (λ r. refl) e, refl)

Ends-mark_ambiguous :
    (s : Tables) (row : Outbox) (now : ℕ)
    → Present There s row.outbox_id
    → Ends (λ _ t. Present InReview t row.outbox_id) s (mark_ambiguous row now)
unfolding mark_ambiguous
Ends-mark_ambiguous s row now w =
    let id = row.outbox_id in
    Ends-gets _ s _ _ (
      Ends-required _ s _ _ λ run _. Ends-gets _ s _ _ (
        Ends-required _ s _ _ λ before _.
          let at = doubt_at row run before now in
          Ends-bind _ s _ _ _ (Ends-in_doubt s id at w) λ _ t p.
            Ends-bind _ t _ _ _
              (Ends-Stays t _ id
                (Leads-Quiet Stays-order Quiet-Stays t _
                  (Leads-suppress t run.schedule_id at Reason.cancelled))
                p)
              λ _ u q.
                Ends-bind _ u _ _ _
                  (Ends-Stays u _ id
                    (Leads-Untouched Stays-order Quiet-Stays u _
                      (Leads-review_run u row run.run_id))
                    q)
                  λ _ v r.
                    Ends-bind _ v _ _ _
                      (Ends-Stays v _ id
                        (Leads-Untouched Stays-order Quiet-Stays v _ (Leads-update_schedules v _ _))
                        r)
                      λ _ x k.
                        Ends-bind _ x _ _ _
                          (Ends-Stays x _ id
                            (Leads-Untouched Stays-order Quiet-Stays x _
                              (Leads-retire_revisions x run.schedule_id at none))
                            k)
                          λ _ y l.
                            Ends-Stays y _ id
                              (Leads-Untouched Stays-order Quiet-Stays y _ (
                                Leads-audit_outbox y row "outbox_needs_review" at (some before)
                                  none))
                              l))

Stays-mark_ambiguous :
    (s : Tables) (row : Outbox) (now : ℕ) → Leads (Rows Stays) s (mark_ambiguous row now)
Stays-mark_ambiguous s row now =
    Leads-mark_ambiguous Stays-order Quiet-Stays s row now λ r at e. record { stays = λ h. refl }

pub Stays-mark_each :
    (rows : List Outbox) (s : Tables) (now : ℕ) → Leads (Rows Stays) s (mark_each rows now)
unfolding mark_each
Stays-mark_each [] s now = Leads-pure (Rows-order Stays-order) s tt
Stays-mark_each (row ∷ rows) s now =
    Leads-bind (Rows-order Stays-order) s _ _ (Stays-mark_ambiguous s row now)
      λ _ _. Stays-mark_each rows _ now

pub Ends-both :
    {A : Type 0} {P Q : Tables → Type 0} (s : Tables) (m : Db A)
    → Ends (λ _ t. P t) s m
    → Ends (λ _ t. Q t) s m
    → Ends (λ _ t. P t × Q t) s m
Ends-both s m p q = record { after = λ a t e. (p.after a t e, q.after a t e) }

-- What is under review after a method that leaves it there.
pub All-Stays :
    {A : Type 0} (s : Tables) (m : Db A) (rows : List Outbox)
    → Leads (Rows Stays) s m
    → All (λ row. Present InReview s row.outbox_id) rows
    → All (λ row. Present InReview (m s).1 row.outbox_id) rows
All-Stays s m rows l =
    All-map rows λ row. Present-carried InReview (λ r t h. h.stays) s (m s).1 l.after row.outbox_id

pub Ends-mark_each :
    (rows : List Outbox) (s : Tables) (now : ℕ)
    → All (λ row. Present There s row.outbox_id) rows
    → Ends (λ _ t. All (λ row. Present InReview t row.outbox_id) rows) s (mark_each rows now)
unfolding mark_each
Ends-mark_each [] s now w = Ends-pure _ s tt tt
Ends-mark_each (row ∷ rows) s now (w, ws) =
    Ends-bind _ s
      (λ _ u. Present InReview u row.outbox_id × All (λ x. Present There u x.outbox_id) rows) _ _
      (Ends-both s _ (Ends-mark_ambiguous s row now w) (
        Ends-if_ok s _ _ λ a e.
          All-map rows
            (λ x.
              Present-carried There (λ r t h k. tt) s _ (Stays-mark_ambiguous s row now).after
                x.outbox_id)
            ws))
      λ _ u (p, ps).
        Ends-both u _ (Ends-Stays u _ row.outbox_id (Stays-mark_each rows u now) p)
          (Ends-mark_each rows u now ps)
