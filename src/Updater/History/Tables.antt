-- ===== src/Updater/History/Tables.antt =====
-- The methods of updater/src/database.ts on the outbox, the logs and the writer's lease, and the history.
use dona.Prelude.{
  ℕ, String, Bool, Option, none, some, refl, inl, inr, Bool-cases, Option-cases, text_eq, ◌&&◌,
  ◌==◌,
}
use dona.Exec.{modify}
use dona.Exec.Leads.{
  Leads, Leads-pure, Leads-raise, Leads-bind, Leads-gets, Leads-require, Leads-modify, Leads-check,
  Leads-write, Leads-transaction,
}
use dona.Updater.Rows.{TerminalKey, OutboxRow, DiagnosticLogRow, DiagnosticLogCapture, WriterLease}
use dona.Updater.Store.{Store, Error}
use dona.Updater.Delivery.{update_outbox, mark_outbox_delivering}
use dona.Updater.Logs.{
  insert_log, update_logs, reserve_diagnostic_log, record_failed_diagnostic_log,
  discard_diagnostic_log,
}
use dona.Updater.Writer.{
  Surroundings, acquire_over, acquire_writer_lease, release_from, release_writer_lease,
  takeover_error,
}
use dona.Updater.History.{History, History-order}
use dona.Updater.History.Statements.{History-frame, Leads-get_required, Leads-or_throw_last}

pub Leads-update_outbox :
    (s : Store) (p : OutboxRow → Bool) (f : OutboxRow → OutboxRow)
    → Leads History s (update_outbox p f)
unfolding update_outbox
Leads-update_outbox s p f = Leads-write History-order s _ (History-frame s _ refl refl)

pub Leads-mark_outbox_delivering :
    (s : Store) (key : TerminalKey) (at : ℕ) → Leads History s (mark_outbox_delivering key at)
unfolding mark_outbox_delivering
Leads-mark_outbox_delivering s key at =
    Leads-bind History-order s _ _ (Leads-update_outbox s _ _)
      λ _ _. Leads-gets History-order _ _ _ (Leads-or_throw_last _ _ _)

Leads-insert_log : (s : Store) (l : DiagnosticLogRow) → Leads History s (insert_log l)
unfolding insert_log
Leads-insert_log s l = Leads-gets History-order s _ _ (
    Leads-require History-order s _ _ _
      λ _. Leads-write History-order s _ (History-frame s _ refl refl))

pub Leads-reserve_diagnostic_log :
    (s : Store) (c : DiagnosticLogCapture) → Leads History s (reserve_diagnostic_log c)
unfolding reserve_diagnostic_log
Leads-reserve_diagnostic_log s c = Leads-transaction History-order s _ (
    Leads-get_required s _ _ λ row _. Leads-require History-order s _ _ _ λ _. Leads-insert_log s _)

pub Leads-record_failed_diagnostic_log :
    (s : Store) (c : DiagnosticLogCapture) → Leads History s (record_failed_diagnostic_log c)
unfolding record_failed_diagnostic_log
Leads-record_failed_diagnostic_log s c = Leads-transaction History-order s _ (
    Leads-get_required s _ _ λ row _. Leads-require History-order s _ _ _ λ _. Leads-insert_log s _)

pub Leads-update_logs :
    (s : Store) (p : DiagnosticLogRow → Bool) (f : DiagnosticLogRow → DiagnosticLogRow) (e : Error)
    → Leads History s (update_logs p f e)
unfolding update_logs
Leads-update_logs s p f e = Leads-gets History-order s _ _ (
    Leads-modify History-order s _ _ (History-frame s _ refl refl)
      (Leads-check History-order _ _ e))

pub Leads-discard_diagnostic_log :
    (s : Store) (log_id : String) → Leads History s (discard_diagnostic_log log_id)
unfolding discard_diagnostic_log
Leads-discard_diagnostic_log s log_id = Leads-gets History-order s _ _ (
    Leads-modify History-order s _ _ (History-frame s _ refl refl)
      (Leads-check History-order _ _ _))

Leads-replace_writer :
    (s : Store) (w : WriterLease)
    → Leads {E = Error} History s (modify (λ t. record t { writer = some w }))
Leads-replace_writer s w = Leads-write History-order s _ (History-frame s _ refl refl)

Leads-acquire_over :
    (s : Store) (w : Surroundings) (token : String) (pid at : ℕ) (existing : Option WriterLease)
    → Leads History s (acquire_over w token pid at existing)
unfolding acquire_over
Leads-acquire_over s w token pid at none = Leads-replace_writer s _
Leads-acquire_over s w token pid at (some e) =
    elim (Bool-cases (text_eq e.owner_token token && e.owner_pid == pid)) [
      | inl b ↦ rw b (Leads-pure History-order s tt)
      | inr b ↦ rw b (elim (Option-cases (takeover_error w e)) [
        | inl n ↦ rw n (Leads-replace_writer s _)
        | inr (c, y) ↦ rw y (Leads-raise History-order s c)
      ])
    ]

pub Leads-acquire_writer_lease :
    (s : Store) (w : Surroundings) (token : String) (pid at : ℕ)
    → Leads History s (acquire_writer_lease w token pid at)
unfolding acquire_writer_lease
Leads-acquire_writer_lease s w token pid at = Leads-require History-order s _ _ _ λ _.
    Leads-transaction History-order s _
      (Leads-gets History-order s _ _ (Leads-acquire_over s w token pid at s.writer))

Leads-release_from :
    (s : Store) (token : String) (existing : Option WriterLease)
    → Leads History s (release_from token existing)
unfolding release_from
Leads-release_from s token none = Leads-raise History-order s _
Leads-release_from s token (some e) = elim (Bool-cases (text_eq e.owner_token token)) [
  | inl b ↦ rw b (Leads-write History-order s _ (History-frame s _ refl refl))
  | inr b ↦ rw b (Leads-raise History-order s _)
]

pub Leads-release_writer_lease :
    (s : Store) (token : String) → Leads History s (release_writer_lease token)
unfolding release_writer_lease
Leads-release_writer_lease s token =
    Leads-gets History-order s _ _ (Leads-release_from s token s.writer)
