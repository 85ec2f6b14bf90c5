-- ===== src/Schedules/Outcomes.antt =====
-- What the outcomes of dispatcher/src/scheduler/repository.ts do to the outbox: `finishWrite`, its
-- use after a preflight, the rejection of a claim, and the decision of an administrator.
use dona.Prelude.{◌≡◌, refl, ◌∙◌, ap, ℕ, String, true, ◌&&◌, Option, some, ◌+◌, ◌≤◌, arith, is_some}
use dona.Exec.{◌>>◌}
use dona.Exec.Leads.{Leads, Leads-bind, Leads-gets, Leads-transaction, Leads-require}
use dona.Schedules.Rows.{Outbox, OutboxStatus, Tables}
use dona.Schedules.Store.{outbox_row, get_outbox}
use dona.Schedules.Settle.{is_unsent}
use dona.Schedules.Outboxes.{is_reminder}
use dona.Schedules.Finish.{
  Outcome, sent, not_accepted, authorization_unavailable, unavailable, rejected, revoked, misfire,
  ambiguous, is_misfire, is_unavailable, retry_delay, outcome_status, settled_row,
}
use dona.Schedules.Settlement.{
  Turn, authorized_turn, retry_turn, loses_authorization, settle, end_turn, write_outcome,
  finish_write, outcome_operation, code_of, read_turn,
}
use dona.Schedules.Rowwise.{Leads-update_row, Leads-required}
use dona.Schedules.Untouched.{Leads-audit_outbox, Leads-update_runs}
use dona.Schedules.Unsent.{Leads-Untouched, Leads-Quiet}
use dona.Schedules.Custody.{stage, Custody-order, Quiet-Custody, Present, Present-is, Unmade-order}
use dona.Schedules.Recovered.{
  Guarded, Guarded-order, NotSent, InDoubt, Guarded-expire_unsent, Guarded-mark_ambiguous,
}
use dona.Schedules.Started.{read_row}
use dona.Schedules.Finished.{
  Flying, Leads-when, Leads-close_turn, Ends-read_turn, Leads-read_turn, quiet_outcome,
  settled-Custody, carry_unsent, Guarded-rest, misfire_unsent,
}

Flying-NotSent :
    (t : Turn) (s : Tables) (id : String) → Present (Flying t) s id → Present NotSent s id
Flying-NotSent t s id (x, e, (z, d)) = (x, e, omega (arith, z))

Guarded-settle :
    (s : Tables) (outcome : Outcome) (receipt : Option String) (after : ℕ) (t : Turn)
    → Present (Flying t) s t.row.outbox_id
    → Leads Guarded s (settle outcome receipt after t)
unfolding settle
Guarded-settle s outcome receipt after t w =
    let retry = retry_turn outcome after t in
    let status = outcome_status outcome retry (authorized_turn t) in
    let at = t.now + retry_delay after t.row in
    Leads-require Guarded-order s _ _ _ λ _.
      Leads-bind Guarded-order s _ _
        (Leads-update_row Custody-order s t.row.outbox_id (settled_row status retry at receipt t.at)
          (λ r. refl)
          (λ r e.
            settled-Custody status retry at receipt t.at r
              (Present-is (Flying t) s t.row.outbox_id r w e).0))
        λ _ _.
          Guarded-rest _ t (is_unavailable outcome && retry) (loses_authorization outcome retry t)
            (is_misfire outcome && authorized_turn t)
            λ m.
              carry_unsent s _ t.row.outbox_id
                (Leads-update_row Unmade-order s t.row.outbox_id
                  (settled_row status retry at receipt t.at) (λ r. refl)
                  (λ r e. record {
                    not_sent = λ h.
                        quiet_outcome outcome retry (authorized_turn t)
                          (misfire_unsent outcome (authorized_turn t) m);
                  }))
                (Flying-NotSent t s t.row.outbox_id w)

Guarded-end_turn :
    (s : Tables) (outcome : Outcome) (code : Option String) (t : Turn)
    → Leads Guarded s (end_turn outcome code t)
unfolding end_turn
Guarded-end_turn s outcome code t = Leads-gets Guarded-order s _ _ (
    Leads-required Guarded-order s _ _ λ row e.
      Leads-bind Guarded-order s _ _
        (Guarded-expire_unsent s row t.at (some t.now) (λ u. unsent_here row e u))
        λ _ _. Leads-gets Guarded-order _ _ _ (
          Leads-required Guarded-order _ _ _ λ final _.
            Leads-bind Guarded-order _ _ _
              (Leads-when Guarded-order _ (is_reminder t.row.kind && is_some final.terminal_at) _
                λ _. Leads-Untouched Custody-order Quiet-Custody _ _ (Leads-update_runs _ _ _))
              λ _ _. Leads-Untouched Custody-order Quiet-Custody _ _ (
                Leads-audit_outbox _ t.row (outcome_operation outcome (authorized_turn t)) t.at
                  (some t.schedule) (code_of code))))
  where
    low : (a : OutboxStatus) → is_unsent a ≡ true → stage a ≤ 2
    low a k = ground arith

    unsent_here :
        (row : Outbox)
        → get_outbox t.row.outbox_id t.at s ≡ some row
        → is_unsent row.status ≡ true
        → Present NotSent s row.outbox_id
    unsent_here row e u =
        let ((x, h, same), i) = read_row s t.row.outbox_id t.at row e in
        (x, ap (λ j. outbox_row j s) i ∙ h, low x.status (ap is_unsent same.status_read ∙ u))

module _ (s : Tables) (receipt : Option String) (after : ℕ) (code : Option String) (t : Turn)
    (w : Present (Flying t) s t.row.outbox_id) where
  settled_then_ended :
      (outcome : Outcome)
      → Leads Guarded s (settle outcome receipt after t >> end_turn outcome code t)
  settled_then_ended outcome =
      Leads-bind Guarded-order s _ _ (Guarded-settle s outcome receipt after t w)
        λ _ _. Guarded-end_turn _ outcome code t

  Guarded-write_outcome :
      (outcome : Outcome) → Leads Guarded s (write_outcome outcome receipt after code t)
  unfolding write_outcome
  Guarded-write_outcome ambiguous = Guarded-mark_ambiguous s t.row t.at (doubted w)
    where
      doubted : Present (Flying t) s t.row.outbox_id → Present InDoubt s t.row.outbox_id
      doubted (x, e, (z, d)) = (x, e, d)
  Guarded-write_outcome sent = settled_then_ended sent
  Guarded-write_outcome not_accepted = settled_then_ended not_accepted
  Guarded-write_outcome authorization_unavailable = settled_then_ended authorization_unavailable
  Guarded-write_outcome unavailable = settled_then_ended unavailable
  Guarded-write_outcome rejected = settled_then_ended rejected
  Guarded-write_outcome revoked = settled_then_ended revoked
  Guarded-write_outcome misfire = settled_then_ended misfire

pub Guarded-finish_write :
    (s : Tables) (id token : String) (outcome : Outcome) (now : ℕ) (receipt : Option String)
    (after : ℕ) (code : Option String)
    → Leads Guarded s (finish_write id token outcome now receipt after code)
unfolding finish_write
Guarded-finish_write s id token outcome now receipt after code =
    Leads-require Guarded-order s _ _ _ λ _. Leads-require Guarded-order s _ _ _ λ _.
      Leads-transaction Guarded-order s _ (
        Leads-bind Guarded-order s _ _ (Leads-read_turn s id token now) λ t e.
          Leads-bind Guarded-order _ _ _
            (Guarded-write_outcome _ receipt after code t
              ((Ends-read_turn s id token now).after t (read_turn id token now s).1
                (λ i. (e i, (read_turn id token now s).1)))
              outcome)
            λ _ _. Leads-Quiet Custody-order Quiet-Custody _ _ (Leads-close_turn _ t))
