-- ===== src/Schedules/Decisions.antt =====
-- What the calls of dispatcher/src/scheduler/repository.ts that end a claim before its write, and
-- the decision of an administrator, do to the outbox.
use dona.Prelude.{
  ◌≡◌, refl, sym, ◌∙◌, subst, ℕ, String, Bool, true, false, not, ◌||◌, Option, none, some, List, [],
  ◌∷◌, ◌≤◌, arith,
}
use dona.Exec.Leads.{
  IsOrder, Leads, Leads-write, Leads-pure, Leads-bind, Leads-gets, Leads-if, Leads-transaction,
  Leads-require, Leads-check, Leads-read,
}
use dona.Schedules.Rows.{Outbox, OutboxStatus, Tables, Actor, Schedule, Run, Reason, Audit}
use dona.Schedules.Store.{
  Db, outbox_row, get_outbox, update_runs, checked, latest, about_outbox, check_actor,
}
use dona.Schedules.Drain.{is_active, schedule_times}
use dona.Schedules.Outboxes.{closed, is_claimed, is_reminder}
use dona.Schedules.Receipts.{decision_code}
use dona.Schedules.Finish.{Outcome, is_revoked, outcome_text}
use dona.Schedules.Settlement.{when, active_schedule, paused_schedule, same_authorization}
use dona.Schedules.Reconcile.{
  reject_claim_before_write, pause_active, revoke_withdrawn, revoked_at, never_started,
  edit_last_audit, after_preflight, keep_withdrawn, finish_write_after_preflight, erase_start,
  Finding, reconciled, reconcile, is_in_doubt, of_stuck_job, reviewed_run, with_status,
  found_run_status, found_operation, found_status, reconcile_times, withdrawn_is, close_review,
}
use dona.Schedules.Rowwise.{Leads-update_row, Leads-required, Leads-required_last, Leads-or_throw}
use dona.Schedules.Untouched.{
  Untouched, Untouched-order, Leads-audit_outbox, Leads-update_runs, Leads-update_schedules,
  Leads-retire_revisions, Leads-complete_if_drained, Leads-audit,
}
use dona.Schedules.Quiet.{Leads-suppress}
use dona.Schedules.Unsent.{Leads-Untouched, Leads-Quiet}
use dona.Schedules.Custody.{stage, Custody, Custody-order, Quiet-Custody, Present-is}
use dona.Schedules.Recovered.{Guarded, Guarded-order}
use dona.Schedules.Started.{SameAs, read_row, Guarded-request_started}
use dona.Schedules.Finished.{Leads-when}
use dona.Schedules.Outcomes.{Guarded-finish_write}

module _ {A : Type 0} (s : Tables) (m : Db A) where
  pub untouching : Leads Untouched s m → Leads Guarded s m
  untouching h = Leads-Untouched Custody-order Quiet-Custody s m h

-- A row that was read with a status.
read_stage :
    (P : OutboxStatus → Type 0) (s : Tables) (id : String) (now : ℕ) (row : Outbox)
    → get_outbox id now s ≡ some row
    → P row.status
    → (r : Outbox) → outbox_row id s ≡ some r
    → P r.status
read_stage P s id now row e p r h =
    subst P (sym (Present-is (SameAs row) s id r (read_row s id now row e).0 h).status_read) p

abbrev Unchanged : Tables → Tables → Type 0
Unchanged s t = t ≡ s

Unchanged-order : IsOrder Unchanged
Unchanged-order = record { same = λ s. refl; chain = λ s t u h k. k ∙ h }

Leads-check_actor : (s : Tables) (actor : Actor) → Leads Unchanged s (check_actor actor)
unfolding check_actor
Leads-check_actor s actor =
    Leads-require Unchanged-order s _ _ _
      λ _. Leads-require Unchanged-order s _ _ _ λ _. Leads-check Unchanged-order s _ _

Leads-checked :
    (s : Tables) (id : String) (revision : ℕ) (actor : Actor) (owner_only : Bool)
    → Leads Unchanged s (checked id revision actor owner_only)
unfolding checked
Leads-checked s id revision actor owner_only = Leads-gets Unchanged-order s _ _ (
    Leads-or_throw Unchanged-order s _ _ _ λ row _. Leads-require Unchanged-order s _ _ _ λ _.
      Leads-bind Unchanged-order s _ _ (Leads-check_actor s actor)
        λ _ _. Leads-require Unchanged-order _ _ _ _ λ _. Leads-pure Unchanged-order _ row)

-- `checked` only reads.
pub checked_reads :
    (s : Tables) (id : String) (revision : ℕ) (actor : Actor) (owner_only : Bool)
    → (checked id revision actor owner_only s).1 ≡ s
checked_reads s id revision actor owner_only = (Leads-checked s id revision actor owner_only).after

pub Guarded-reject_claim_before_write :
    (s : Tables) (id token : String) (now : ℕ) (code : String)
    → Leads Guarded s (reject_claim_before_write id token now code)
unfolding reject_claim_before_write
Guarded-reject_claim_before_write s id token now code = Leads-transaction Guarded-order s _ (
    Leads-gets Guarded-order s _ _ (
      Leads-or_throw Guarded-order s _ _ _ λ row e. Leads-require Guarded-order s _ _ _ λ may.
        Leads-gets Guarded-order s _ _ (
          Leads-required Guarded-order s _ _ λ run _. Leads-gets Guarded-order s _ _ (
            Leads-required Guarded-order s _ _ λ schedule _.
              let at = latest now (row.created_at ∷ row.updated_at ∷ schedule_times schedule) in
              Leads-bind Guarded-order s _ _
                (Leads-update_row Custody-order s id (closed OutboxStatus.failed at) (λ r. refl)
                  (λ r h. rejected r at (
                    read_stage (λ a. stage a ≡ 0) s id now row e (waiting row.status (ground arith))
                      r h)))
                λ _ _.
                  Leads-bind Guarded-order _ _ _ (untouching _ _ (Leads-update_runs _ _ _)) λ _ _.
                    Leads-bind Guarded-order _ _ _
                      (untouching _ _ (
                        Leads-audit_outbox _ row "outbox_rejected" at (some schedule)
                          (some (decision_code code))))
                      λ _ _.
                        Leads-bind Guarded-order _ _ _
                          (untouching _ _ (Leads-complete_if_drained _ run.schedule_id at))
                          λ _ _.
                            Leads-gets Guarded-order _ _ _
                              (Leads-required_last Guarded-order _ _)))))
  where
    waiting : (a : OutboxStatus) → is_claimed a ≡ true → stage a ≡ 0
    waiting a k = ground arith

    rejected :
        (r : Outbox) (at : ℕ) → stage r.status ≡ 0 → Custody r (closed OutboxStatus.failed at r)
    rejected r at z = record {
      further = omega (arith, z);
      ended_unsent = λ k. refl;
      attempts_bounded = λ b. b;
    }

Guarded-close_review :
    (s : Tables) (id : String) (finding : Finding) (row : Outbox) (run : Run) (schedule : Schedule)
    (actor : Actor) (at : ℕ)
    → Leads Guarded s (close_review id finding row run schedule actor at)
unfolding close_review
Guarded-close_review s id finding row run schedule actor at =
    Leads-bind Guarded-order s _ _
      (Leads-when Guarded-order s
        (is_reminder row.kind || not (of_stuck_job row.completion_job_status)) _
        λ _. untouching s _ (Leads-update_runs s _ _))
      λ _ _. Leads-gets Guarded-order _ _ _ (
        Leads-bind Guarded-order _ _ _
          (untouching _ _ (
            Leads-audit _ (some schedule) schedule (found_operation finding) actor at (
              about_outbox
                (get_outbox id at
                  (when (is_reminder row.kind || not (of_stuck_job row.completion_job_status))
                    (update_runs (reviewed_run run.run_id)
                      (with_status (found_run_status finding) at))
                    s).1)
                none)))
          λ _ _.
            Leads-bind Guarded-order _ _ _
              (untouching _ _ (Leads-complete_if_drained _ run.schedule_id at))
              λ _ _. Leads-gets Guarded-order _ _ _ (Leads-required_last Guarded-order _ _))

pub Guarded-reconcile :
    (s : Tables) (id : String) (finding : Finding) (receipt : String) (actor : Actor) (now : ℕ)
    → Leads Guarded s (reconcile id finding receipt actor now)
unfolding reconcile
Guarded-reconcile s id finding receipt actor now = Leads-require Guarded-order s _ _ _ λ _.
    Leads-require Guarded-order s _ _ _ λ _. Leads-transaction Guarded-order s _ (
      Leads-gets Guarded-order s _ _ (
        Leads-or_throw Guarded-order s _ _ _ λ row e. Leads-require Guarded-order s _ _ _ λ doubt.
          Leads-gets Guarded-order s _ _ (
            Leads-required Guarded-order s _ _ λ run _. Leads-gets Guarded-order s _ _ (
              Leads-required Guarded-order s _ _ λ schedule _.
                let at = latest now (reconcile_times row run schedule) in
                Leads-read Guarded-order s _ _
                  (checked_reads s schedule.schedule_id schedule.revision actor false)
                  λ _ _.
                    Leads-bind Guarded-order s _ _
                      (Leads-update_row Custody-order s id (reconciled finding receipt at)
                        (λ r. refl)
                        (λ r h. decided r at (
                          read_stage (λ a. stage a ≡ 1) s id now row e (doubtful row.status doubt) r
                            h)))
                      λ _ _. Guarded-close_review _ id finding row run schedule actor at))))
  where
    doubtful : (a : OutboxStatus) → is_in_doubt a ≡ true → stage a ≡ 1
    doubtful a k = ground arith

    stages : (f : Finding) → 2 ≤ stage (found_status f)
    stages f = ground arith

    decided :
        (r : Outbox) (at : ℕ) → stage r.status ≡ 1 → Custody r (reconciled finding receipt at r)
    decided r at z = record {
      further = omega (arith, z, stages finding);
      ended_unsent = λ k. absurd (omega (arith, z, k));
      attempts_bounded = λ b. b;
    }

Leads-edit_last_audit :
    (s : Tables) (id operation : String) (f : Audit → List Audit)
    → Leads Untouched s (edit_last_audit id operation f)
unfolding edit_last_audit
Leads-edit_last_audit s id operation f =
    Leads-write Untouched-order s _ (record { outbox_same = refl })

Guarded-pause_active :
    (s : Tables) (schedule : Schedule) (id : String) (at : ℕ)
    → Leads Guarded s (pause_active schedule id at)
unfolding pause_active
Guarded-pause_active s schedule id at = Leads-when Guarded-order s (is_active schedule.state) _ λ _.
    Leads-bind Guarded-order s _ _
      (untouching s _ (Leads-update_schedules s (active_schedule id) (paused_schedule at)))
      λ _ _. Leads-Quiet Custody-order Quiet-Custody _ _ (Leads-suppress _ id at Reason.cancelled)

Guarded-revoke_withdrawn :
    (s : Tables) (row : Outbox) (now : ℕ) (code : String)
    → Leads Guarded s (revoke_withdrawn row now code)
unfolding revoke_withdrawn
Guarded-revoke_withdrawn s row now code =
    let o = Guarded-order in
    Leads-gets o s _ _ (
      Leads-required o s _ _ λ run _. Leads-gets o s _ _ (
        Leads-required o s _ _ λ schedule _. Leads-gets o s _ _ (
          Leads-required o s _ _ λ snapshot _. Leads-gets o s _ _ (
            Leads-required o s _ _ λ current _.
              let at = revoked_at now row run schedule in
              Leads-when o s (same_authorization snapshot current) _ λ _.
                Leads-bind o s _ _ (Guarded-pause_active s schedule run.schedule_id at) λ _ _.
                  Leads-bind o _ _ _
                    (untouching _ _
                      (Leads-retire_revisions _ run.schedule_id at (some schedule.revision)))
                    λ _ _.
                      untouching _ _ (
                        Leads-audit_outbox _ row "outbox_revoked" at (some schedule)
                          (some code))))))

Guarded-after_preflight :
    (s : Tables) (id token : String) (outcome : Outcome) (now after : ℕ) (code : String)
    (current : Option Outbox)
    → Leads Guarded s (after_preflight id token outcome now after code current)
unfolding after_preflight
Guarded-after_preflight s id token outcome now after code current =
    let o = Guarded-order in
    Leads-or_throw o s _ current _ λ row _. Leads-gets o s _ _ (
      Leads-required o s _ _ λ run _.
        Leads-bind o s _ _ (Guarded-request_started s id token now) λ _ _.
          Leads-bind o _ _ _ (Guarded-finish_write _ id token outcome now none after (some code))
            λ settled _.
              Leads-bind o _ _ _
                (Leads-update_row Custody-order _ id never_started (λ r. refl)
                  (λ r _. record {
                    further = omega arith;
                    ended_unsent = λ k. k;
                    attempts_bounded = λ b. b;
                  }))
                λ _ _.
                  Leads-bind o _ _ _
                    (untouching _ _
                      (Leads-edit_last_audit _ run.schedule_id "outbox_request_started" (λ a. [])))
                    λ _ _.
                      Leads-bind o _ _ _
                        (untouching _ _ (
                          Leads-edit_last_audit _ run.schedule_id (outcome_text outcome)
                            erase_start))
                        λ _ _. Leads-gets o _ _ _ (Leads-pure o _ _))

Guarded-keep_withdrawn :
    (s : Tables) (id : String) (outcome : Outcome) (now : ℕ) (code : String)
    (current : Option Outbox)
    → Leads Guarded s (keep_withdrawn id outcome now code current)
unfolding keep_withdrawn
Guarded-keep_withdrawn s id outcome now code current =
    let o = Guarded-order in
    Leads-required o s current _ λ row _.
      Leads-bind o s _ _
        (Leads-when o s (is_revoked outcome) _ λ _. Guarded-revoke_withdrawn s row now code)
        λ _ _. Leads-gets o _ _ _ (Leads-required_last o _ _)

pub Guarded-finish_write_after_preflight :
    (s : Tables) (id token : String) (outcome : Outcome) (now after : ℕ) (code : String)
    → Leads Guarded s (finish_write_after_preflight id token outcome now after code)
unfolding finish_write_after_preflight
Guarded-finish_write_after_preflight s id token outcome now after code =
    let o = Guarded-order in
    Leads-transaction o s _ (
      Leads-gets o s _ _ (
        let current = get_outbox id now s in
        Leads-if o s (withdrawn_is current) (keep_withdrawn id outcome now code current)
          (after_preflight id token outcome now after code current)
          (λ _. Guarded-keep_withdrawn s id outcome now code current)
          (λ _. Guarded-after_preflight s id token outcome now after code current)))
