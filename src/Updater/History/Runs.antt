-- ===== src/Updater/History/Runs.antt =====
-- The history of a request over any calls, in any order.
use dona.Prelude.{String, List, [], ◌∷◌}
use dona.Updater.Store.{Store}
use dona.Updater.Requests.{CanonicalPlan}
use dona.Updater.Calls.{
  Call, plans, approves, cancels, claims, rolls_back, reconciles, renews, asserts, moves, ends,
  records_generation, counts_restart, defers, clears, prepares, records_operation, delivers,
  delivered_as, reports, reviews, returns_lookup, returns_report, retries, reserves_log,
  records_failed_log, finalizes_log, discards_log, interrupts_log, purges_log, acquires, releases,
  step, run,
}
use dona.Updater.Delivery.{
  mark_outbox_delivered, mark_outbox_reported, mark_outbox_needs_review, mark_outbox_pending,
  defer_outbox_lookup, defer_outbox_report,
}
use dona.Updater.Logs.{finalize_diagnostic_log, interrupt_diagnostic_log, mark_diagnostic_purged}
use dona.Updater.History.{IsUnique, Evolves, History, History-order}
use dona.Updater.History.Claims.{
  Leads-claim, Leads-begin_operator_rollback, Leads-complete_evidence_reconcile,
}
use dona.Updater.History.Plans.{Leads-create_plan, Leads-approve, Leads-request_cancellation}
use dona.Updater.History.Others.{
  Leads-renew_lease, Leads-assert_lease, Leads-transition, Leads-terminal,
  Leads-record_activation_generation, Leads-increment_restart_attempts, Leads-defer_reconcile,
  Leads-clear_reconcile, Leads-prepare_runtime_operation, Leads-record_runtime_operation,
}
use dona.Updater.History.Tables.{
  Leads-update_outbox, Leads-mark_outbox_delivering, Leads-reserve_diagnostic_log,
  Leads-record_failed_diagnostic_log, Leads-update_logs, Leads-discard_diagnostic_log,
  Leads-acquire_writer_lease, Leads-release_writer_lease,
}

module _ (sha256 : CanonicalPlan → String) where
  step-History : (c : Call) (s : Store) → History s (step sha256 c s)
  unfolding step mark_outbox_delivered mark_outbox_reported mark_outbox_needs_review
      mark_outbox_pending defer_outbox_lookup defer_outbox_report finalize_diagnostic_log
      interrupt_diagnostic_log mark_diagnostic_purged
  step-History (plans a b c d e) s = (Leads-create_plan sha256 s a b c d e).after
  step-History (approves a b) s = (Leads-approve s a b).after
  step-History (cancels a b c d e) s = (Leads-request_cancellation s a b c d e).after
  step-History (claims a b c d) s = (Leads-claim s a b c d).after
  step-History (rolls_back a b c d e) s = (Leads-begin_operator_rollback s a b c d e).after
  step-History (reconciles a b c d) s = (Leads-complete_evidence_reconcile s a b c d).after
  step-History (renews a b c d e) s = (Leads-renew_lease s a b c d e).after
  step-History (asserts a b c d) s = (Leads-assert_lease s a b c d).after
  step-History (moves a b c d e f) s = (Leads-transition s a b c d e f).after
  step-History (ends a b c d e f g) s = (Leads-terminal s a b c d e f g).after
  step-History (records_generation a b c d) s = (Leads-record_activation_generation s a b c d).after
  step-History (counts_restart a b c) s = (Leads-increment_restart_attempts s a b c).after
  step-History (defers a b c d e f g) s = (Leads-defer_reconcile s a b c d e f g).after
  step-History (clears a b c) s = (Leads-clear_reconcile s a b c).after
  step-History (prepares a b c d e f g h) s =
      (Leads-prepare_runtime_operation s a b c d e f g h).after
  step-History (records_operation a b c d e f g) s =
      (Leads-record_runtime_operation s a b c d e f g).after
  step-History (delivers a b) s = (Leads-mark_outbox_delivering s a b).after
  step-History (delivered_as a b c) s = (Leads-update_outbox s _ _).after
  step-History (reports a b) s = (Leads-update_outbox s _ _).after
  step-History (reviews a b c d) s = (Leads-update_outbox s _ _).after
  step-History (returns_lookup a b c d) s = (Leads-update_outbox s _ _).after
  step-History (returns_report a b c d) s = (Leads-update_outbox s _ _).after
  step-History (retries a b c d) s = (Leads-update_outbox s _ _).after
  step-History (reserves_log a) s = (Leads-reserve_diagnostic_log s a).after
  step-History (records_failed_log a) s = (Leads-record_failed_diagnostic_log s a).after
  step-History (finalizes_log a) s = (Leads-update_logs s _ _ _).after
  step-History (discards_log a) s = (Leads-discard_diagnostic_log s a).after
  step-History (interrupts_log a b c) s = (Leads-update_logs s _ _ _).after
  step-History (purges_log a b) s = (Leads-update_logs s _ _ _).after
  step-History (acquires a b c d) s = (Leads-acquire_writer_lease s a b c d).after
  step-History (releases a) s = (Leads-release_writer_lease s a).after

  -- From a store with unique request ids, any calls keep the ids unique, lose no request, change no
  -- identity, lower no fence, move each state along the allowed transitions, and only add to the audit.
  pub run-History :
      (calls : List Call) (s : Store) → IsUnique s.requests → Evolves s (run sha256 calls s)
  unfolding run
  run-History [] s u = History-order.same s u
  run-History (c ∷ calls) s u =
      let e = step-History c s u in
      History-order.chain s (step sha256 c s) _ (λ _. e) (run-History calls (step sha256 c s)) u
