-- ===== src/Schedules/Unsent.antt =====
-- What `expireUnsent` and `markAmbiguous` of dispatcher/src/scheduler/repository.ts do to the outbox,
-- under any relation on rows that suppression keeps.
use dona.Prelude.{◌≡◌, refl, ℕ, String, true, false, ◌&&◌, Option, none, some}
use dona.Exec.{pure}
use dona.Exec.Leads.{Leads, Leads-pure, Leads-bind, Leads-gets, Leads-if}
use dona.Schedules.Rows.{Outbox, OutboxStatus, Tables, Run, RunStatus, Schedule, Reason}
use dona.Schedules.Store.{Db, outbox_row, update_runs, system_actor, run_is}
use dona.Schedules.Settle.{is_unsent}
use dona.Schedules.Outboxes.{
  closed, end_run, ended_run, close_unsent, act_on, Refusal, send, refuse, retry_expired,
  expire_unsent_row, expire_unsent, doubt_at, in_doubt, review_run, run_in_doubt, mark_ambiguous,
  is_reminder, is_sendable_run,
}
use dona.Schedules.Rowwise.{
  RowOrder, Kept, Rows, Rows-order, Rows-untouched, Leads-update_row, Leads-weaken, Leads-required,
}
use dona.Schedules.Untouched.{
  Untouched, Untouched-order, Leads-retire_revisions, Leads-update_runs, Leads-update_schedules,
  Leads-audit_outbox, Leads-complete_if_drained,
}
use dona.Schedules.Quiet.{Quiet, Leads-suppress, Leads-expire_schedule}

Leads-end_run :
    (s : Tables) (row : Outbox) (run : Run) (status : RunStatus) (reason : Option Reason) (at : ℕ)
    → Leads Untouched s (end_run row run status reason at)
unfolding end_run
Leads-end_run s row run status reason at =
    Leads-if Untouched-order s (is_reminder row.kind && is_sendable_run run.status)
      (update_runs (run_is row.run_id) (ended_run status reason at)) (pure tt)
      (λ _. Leads-update_runs s _ _) (λ _. Leads-pure Untouched-order s tt)

pub Leads-review_run :
    (s : Tables) (row : Outbox) (run_id : String) → Leads Untouched s (review_run row run_id)
unfolding review_run
Leads-review_run s row run_id =
    Leads-if Untouched-order s (is_reminder row.kind) (update_runs (run_is run_id) run_in_doubt)
      (pure tt) (λ _. Leads-update_runs s _ _) (λ _. Leads-pure Untouched-order s tt)

module _ {R : Outbox → Outbox → Type 0} (k : RowOrder R)
    (q : (r t : Outbox) → Quiet r t → R r t) where
  Rows-Quiet : (s t : Tables) → Rows Quiet s t → Rows R s t
  Rows-Quiet s t h = record {
    rows = λ id. lift (outbox_row id s) (outbox_row id t) (h.rows id);
    distinct = h.distinct;
  }
    where
      lift : (a b : Option Outbox) → Kept Quiet a b → Kept R a b
      lift none b h = tt
      lift (some r) none h = absurd h
      lift (some r) (some t) h = q r t h

  pub Leads-Quiet :
      {A : Type 0} (s : Tables) (m : Db A) → Leads (Rows Quiet) s m → Leads (Rows R) s m
  Leads-Quiet s m h = Leads-weaken s m (λ t. Rows-Quiet s t) h

  pub Leads-Untouched :
      {A : Type 0} (s : Tables) (m : Db A) → Leads Untouched s m → Leads (Rows R) s m
  Leads-Untouched s m h = Leads-weaken s m (λ t u. Rows-untouched k s t u.outbox_same) h

  -- Ending a row with this status is in the relation.
  abbrev pub Closes : OutboxStatus → String → Tables → Type 0
  Closes status id s = (r : Outbox) (at : ℕ) → outbox_row id s ≡ some r → R r (closed status at r)

  Leads-close_unsent :
      (s : Tables) (row : Outbox) (run : Run) (status : OutboxStatus) (reason : Reason)
      (operation : String) (at : ℕ)
      → Closes status row.outbox_id s
      → Leads (Rows R) s (close_unsent row run status reason operation at)
  unfolding close_unsent
  Leads-close_unsent s row run status reason operation at c =
      let o = Rows-order k in
      Leads-bind o s _ _
        (Leads-update_row k s row.outbox_id (closed status at) (λ r. refl) (λ r e. c r at e))
        λ _ _.
          Leads-bind o _ _ _ (Leads-Untouched _ _ (Leads-end_run _ row run _ (some reason) at))
            λ _ _.
              Leads-bind o _ _ _
                (Leads-Untouched _ _ (Leads-audit_outbox _ row operation at none none))
                λ _ _.
                  Leads-bind o _ _ _
                    (Leads-Untouched _ _ (Leads-complete_if_drained _ run.schedule_id at))
                    λ _ _. Leads-pure o _ true

  module _ (s : Tables) (row : Outbox) (failed : Closes OutboxStatus.failed row.outbox_id s)
      (cancelled : Closes OutboxStatus.cancelled row.outbox_id s) where
    Leads-act_on :
        (run : Run) (schedule : Schedule) (at : ℕ) (why : Refusal)
        → Leads (Rows R) s (act_on row run schedule at why)
    unfolding act_on
    Leads-act_on run schedule at send = Leads-pure (Rows-order k) s false
    Leads-act_on run schedule at retry_expired =
        Leads-close_unsent s row run OutboxStatus.failed Reason.cancelled "outbox_retry_expired" at
          failed
    Leads-act_on run schedule at (refuse Reason.authorization_expired) =
        Leads-bind (Rows-order k) s _ _
          (Leads-Quiet s _
            (Leads-expire_schedule s schedule (system_actor "scheduler" schedule none) at))
          λ _ _. Leads-pure (Rows-order k) _ true
    Leads-act_on run schedule at (refuse Reason.misfire) =
        Leads-close_unsent s row run OutboxStatus.cancelled Reason.misfire "outbox_misfire" at
          cancelled
    Leads-act_on run schedule at (refuse Reason.overlap) =
        Leads-close_unsent s row run OutboxStatus.cancelled Reason.overlap "outbox_cancelled" at
          cancelled
    Leads-act_on run schedule at (refuse Reason.cancelled) =
        Leads-close_unsent s row run OutboxStatus.cancelled Reason.cancelled "outbox_cancelled" at
          cancelled
    Leads-act_on run schedule at (refuse Reason.revision_replaced) =
        Leads-close_unsent s row run OutboxStatus.cancelled Reason.revision_replaced
          "outbox_cancelled" at cancelled
    Leads-act_on run schedule at (refuse Reason.ambiguous_write) =
        Leads-close_unsent s row run OutboxStatus.cancelled Reason.ambiguous_write
          "outbox_cancelled" at cancelled

    Leads-expire_unsent_row :
        (now : ℕ) (eligible : Option ℕ) → Leads (Rows R) s (expire_unsent_row row now eligible)
    unfolding expire_unsent_row
    Leads-expire_unsent_row now eligible =
        let o = Rows-order k in
        Leads-gets o s _ _ (
          Leads-required o s _ _ λ run _. Leads-gets o s _ _ (
            Leads-required o s _ _ λ schedule _.
              Leads-gets o s _ _
                (Leads-required o s _ _ λ snapshot _. Leads-act_on run schedule _ _)))

  pub Leads-expire_unsent :
      (s : Tables) (row : Outbox) (now : ℕ) (eligible : Option ℕ)
      → (is_unsent row.status ≡ true → Closes OutboxStatus.failed row.outbox_id s)
      → (is_unsent row.status ≡ true → Closes OutboxStatus.cancelled row.outbox_id s)
      → Leads (Rows R) s (expire_unsent row now eligible)
  unfolding expire_unsent
  Leads-expire_unsent s row now eligible f c =
      Leads-if (Rows-order k) s (is_unsent row.status) _ _
        (λ u. Leads-expire_unsent_row s row (f u) (c u) now eligible)
        (λ _. Leads-pure (Rows-order k) s false)

  pub Leads-mark_ambiguous :
      (s : Tables) (row : Outbox) (now : ℕ)
      → ((r : Outbox) (at : ℕ) → outbox_row row.outbox_id s ≡ some r → R r (in_doubt at r))
      → Leads (Rows R) s (mark_ambiguous row now)
  unfolding mark_ambiguous
  Leads-mark_ambiguous s row now c =
      let o = Rows-order k in
      Leads-gets o s _ _ (
        Leads-required o s _ _ λ run _. Leads-gets o s _ _ (
          Leads-required o s _ _ λ before _.
            let at = doubt_at row run before now in
            Leads-bind o s _ _
              (Leads-update_row k s row.outbox_id (in_doubt at) (λ r. refl) (λ r e. c r at e))
              λ _ _.
                Leads-bind o _ _ _
                  (Leads-Quiet _ _ (Leads-suppress _ run.schedule_id at Reason.cancelled))
                  λ _ _.
                    Leads-bind o _ _ _ (Leads-Untouched _ _ (Leads-review_run _ row run.run_id))
                      λ _ _.
                        Leads-bind o _ _ _ (Leads-Untouched _ _ (Leads-update_schedules _ _ _))
                          λ _ _.
                            Leads-bind o _ _ _
                              (Leads-Untouched _ _
                                (Leads-retire_revisions _ run.schedule_id at none))
                              λ _ _. Leads-Untouched _ _ (
                                Leads-audit_outbox _ row "outbox_needs_review" at (some before)
                                  none)))
