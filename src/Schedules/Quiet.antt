-- ===== src/Schedules/Quiet.antt =====
-- What the suppression and the expiry of a schedule do to the outbox of
-- dispatcher/src/scheduler/repository.ts.
use dona.Prelude.{◌≡◌, refl, ◌∙◌, ℕ, String, true, some, List, [], ◌∷◌, ◌⊎◌, ◌+◌, inl, inr, arith}
use dona.Exec.Leads.{IsOrder, Leads, Leads-pure, Leads-bind, Leads-gets}
use dona.Schedules.Rows.{Outbox, OutboxStatus, Tables, Run, Schedule, Actor, Reason}
use dona.Schedules.Store.{Db, week, no_parts, latest, outbox_is}
use dona.Schedules.Settle.{
  is_unsent, withdrawn, delete_by, shorten, shorten_if, suppress, unsent_of, outbox_reason,
}
use dona.Schedules.Drain.{expire_schedule, schedule_times}
use dona.Schedules.Rowwise.{
  RowOrder, Rows, Rows-order, Rows-untouched, Leads-update, Leads-weaken, Leads-required,
}
use dona.Schedules.Untouched.{
  Untouched, Leads-retire_revisions, Leads-update_runs, Leads-update_schedules, Leads-audit,
  Leads-audit_each, Leads-suppress_events, Leads-complete_if_drained,
}

-- A row stays as it is, or is withdrawn before it was sent.
pub record Quiet (r t : Outbox) : Type 0 where
  pub attempt_same : t.attempt ≡ r.attempt
  pub status_kept :
      (t.status ≡ r.status) ⊎ ((is_unsent r.status ≡ true) × (t.status ≡ OutboxStatus.cancelled))

then_same :
    {a b : OutboxStatus} (c : OutboxStatus)
    → (b ≡ a) ⊎ ((is_unsent a ≡ true) × (b ≡ OutboxStatus.cancelled))
    → (c ≡ b) ⊎ ((is_unsent b ≡ true) × (c ≡ OutboxStatus.cancelled))
    → (c ≡ a) ⊎ ((is_unsent a ≡ true) × (c ≡ OutboxStatus.cancelled))
then_same c (inl e) (inl f) = inl (f ∙ e)
then_same c (inl e) (inr (u, f)) = inr (cc, f)
then_same c (inr (u, e)) (inl f) = inr (u, f ∙ e)
then_same c (inr (u, e)) (inr (v, f)) = inr (u, f)

pub Quiet-order : RowOrder Quiet
Quiet-order = record {
  same = λ r. record { attempt_same = refl; status_kept = inl refl };
  chain = λ r t u h k. record {
    attempt_same = k.attempt_same ∙ h.attempt_same;
    status_kept = then_same u.status h.status_kept k.status_kept;
  };
}

abbrev Silent : Tables → Tables → Type 0
Silent = Rows Quiet

o : IsOrder Silent
o = Rows-order Quiet-order

module _ {A : Type 0} where
  Leads-silent : (s : Tables) (m : Db A) → Leads Untouched s m → Leads Silent s m
  Leads-silent s m h = Leads-weaken s m (λ t u. Rows-untouched Quiet-order s t u.outbox_same) h

Leads-shorten : (rows : List Outbox) (s : Tables) → Leads Silent s (shorten rows)
unfolding shorten
Leads-shorten [] s = Leads-pure o s tt
Leads-shorten (row ∷ rows) s = Leads-gets o s _ _ (
    Leads-required o s _ _ λ run _. Leads-gets o s _ _ (
      Leads-required o s _ _ λ revision _.
        Leads-bind o s _ _
          (Leads-update Quiet-order s (outbox_is row.outbox_id)
            (delete_by (revision.expires_at + week)) (λ r _. refl)
            (λ r _. record { attempt_same = refl; status_kept = inl refl }))
          λ _ _. Leads-shorten rows _))

module _ (s : Tables) (id : String) where
  Leads-shorten_if : (reason : Reason) → Leads Silent s (shorten_if reason id)
  unfolding shorten_if
  Leads-shorten_if Reason.authorization_expired = Leads-gets o s _ _ (Leads-shorten _ s)
  Leads-shorten_if Reason.misfire = Leads-pure o s tt
  Leads-shorten_if Reason.overlap = Leads-pure o s tt
  Leads-shorten_if Reason.cancelled = Leads-pure o s tt
  Leads-shorten_if Reason.revision_replaced = Leads-pure o s tt
  Leads-shorten_if Reason.ambiguous_write = Leads-pure o s tt

module _ (s : Tables) (id : String) where
  chosen_is_unsent :
      (runs : List Run) (r : Outbox) → unsent_of id runs r ≡ true → is_unsent r.status ≡ true
  unfolding unsent_of
  chosen_is_unsent runs r h = ground arith

  pub Leads-suppress : (now : ℕ) (reason : Reason) → Leads Silent s (suppress id now reason)
  unfolding suppress
  Leads-suppress now reason = Leads-gets o s _ _ (
      Leads-gets o s _ _ (
        Leads-bind o s _ _
          (Leads-update Quiet-order s (unsent_of id s.runs) (withdrawn now) (λ r _. refl)
            λ r h. record {
              attempt_same = refl;
              status_kept = inr (chosen_is_unsent s.runs r h, refl);
            })
          λ _ _. Leads-bind o _ _ _ (Leads-shorten_if _ id reason) λ _ _. Leads-gets o _ _ _ (
            Leads-bind o _ _ _ (Leads-silent _ _ (Leads-update_runs _ _ _)) λ _ _.
              Leads-bind o _ _ _ (Leads-silent _ _ (Leads-suppress_events _ id now))
                λ _ _. Leads-silent _ _ (Leads-audit_each _ _ (outbox_reason reason) now))))

abbrev expiry : Schedule → ℕ → ℕ
expiry before now = latest now (schedule_times before)

pub Leads-expire_schedule :
    (s : Tables) (before : Schedule) (actor : Actor) (now : ℕ)
    → Leads Silent s (expire_schedule before actor now)
unfolding expire_schedule
Leads-expire_schedule s before actor now =
    Leads-bind o s _ _
      (Leads-suppress s before.schedule_id (expiry before now) Reason.authorization_expired)
      λ _ _. Leads-bind o _ _ _ (Leads-silent _ _ (Leads-update_schedules _ _ _)) λ _ _.
        Leads-bind o _ _ _
          (Leads-silent _ _ (
            Leads-retire_revisions _ before.schedule_id (expiry before now) (some before.revision)))
          λ _ _. Leads-gets o _ _ _ (
            Leads-required o _ _ _ λ after _.
              Leads-bind o _ _ _
                (Leads-silent _ _
                  (Leads-audit _ (some before) after "expire" actor (expiry before now) no_parts))
                λ _ _.
                  Leads-silent _ _
                    (Leads-complete_if_drained _ before.schedule_id (expiry before now)))
