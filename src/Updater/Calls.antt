-- ===== src/Updater/Calls.antt =====
-- The methods of updater/src/database.ts as one alphabet of calls, so that a history is a list of
-- calls in the order in which the database runs them. Its connection runs one at a time.
use dona.Prelude.{ℕ, String, Option, List, [], ◌∷◌}
use dona.Updater.State.{UpdateState}
use dona.Updater.Rows.{
  ReplyTarget, Details, RuntimeOperationKind, RuntimeOperationPhase, TerminalKey,
  DiagnosticLogCapture,
}
use dona.Updater.Store.{Store, Db}
use dona.Updater.Mutation.{Assign}
use dona.Updater.Requests.{
  PlanRequest, PlanMaterial, CanonicalPlan, ApplyRequest, create_plan, approve,
  request_cancellation,
}
use dona.Updater.Leases.{claim, begin_operator_rollback, Confirmed, complete_evidence_reconcile}
use dona.Updater.Fenced.{
  renew_lease, assert_lease, transition, terminal, record_activation_generation,
  increment_restart_attempts, defer_reconcile, clear_reconcile,
}
use dona.Updater.Operations.{prepare_runtime_operation, record_runtime_operation}
use dona.Updater.Delivery.{
  mark_outbox_delivering, mark_outbox_delivered, mark_outbox_reported, mark_outbox_needs_review,
  mark_outbox_pending, defer_outbox_lookup, defer_outbox_report,
}
use dona.Updater.Logs.{
  reserve_diagnostic_log, record_failed_diagnostic_log, finalize_diagnostic_log,
  discard_diagnostic_log, interrupt_diagnostic_log, mark_diagnostic_purged,
}
use dona.Updater.Writer.{Surroundings, acquire_writer_lease, release_writer_lease}

pub data Call : Type 0 where
  plans : (request_id plan_id : String) → PlanRequest → PlanMaterial → (at : ℕ) → Call
  approves : ApplyRequest → (at : ℕ) → Call
  cancels : (id source : String) → ReplyTarget → (reason : String) → (at : ℕ) → Call
  claims : (id owner : String) → (lease_ms at : ℕ) → Call
  rolls_back : (id plan_hash owner : String) → (lease_ms at : ℕ) → Call
  reconciles : (id : String) → Confirmed → (active_sha : String) → (at : ℕ) → Call
  renews : (id : String) → (fence : ℕ) → (owner : String) → (lease_ms at : ℕ) → Call
  asserts : (id : String) → (fence : ℕ) → (owner : String) → (at : ℕ) → Call
  moves :
      (id : String) → (fence : ℕ) → UpdateState → (code : String) → List Assign → (at : ℕ) → Call
  ends :
      (id : String)
      → (fence : ℕ) → UpdateState
      → (code : String) → List Assign
      → (at : ℕ) → Details
      → Call
  records_generation : (id : String) → (fence generation at : ℕ) → Call
  counts_restart : (id : String) → (fence at : ℕ) → Call
  defers : (id : String) → (fence : ℕ) → (code message : String) → (after deadline at : ℕ) → Call
  clears : (id : String) → (fence at : ℕ) → Call
  prepares :
      (id : String)
      → (fence : ℕ) → RuntimeOperationKind
      → (target_ref : String) → (expected_sha previous_session_id : Option String)
      → (evidence : String) → (at : ℕ) → Call
  records_operation :
      (id : String)
      → (fence : ℕ) → RuntimeOperationKind
      → RuntimeOperationPhase
      → Option String
      → (evidence : String) → (at : ℕ) → Call
  delivers : TerminalKey → (at : ℕ) → Call
  delivered_as : TerminalKey → (event_id : String) → (at : ℕ) → Call
  reports : TerminalKey → (at : ℕ) → Call
  reviews returns_lookup returns_report retries :
      TerminalKey → (error : String) → (at delay_ms : ℕ) → Call
  reserves_log records_failed_log finalizes_log : DiagnosticLogCapture → Call
  discards_log : (log_id : String) → Call
  interrupts_log : (log_id error_code : String) → (at : ℕ) → Call
  purges_log : (log_id : String) → (at : ℕ) → Call
  acquires : Surroundings → (token : String) → (pid at : ℕ) → Call
  releases : (token : String) → Call

-- The store after a call, whether it returns or throws.
abbrev after : {A : Type 0} → Db A → Store → Store
after m s = (m s).1

module _ (sha256 : CanonicalPlan → String) where
  unfoldable pub step : Call → Store → Store
  step (plans request_id plan_id request material at) =
      after (create_plan sha256 request_id plan_id request material at)
  step (approves input at) = after (approve input at)
  step (cancels id source target reason at) =
      after (request_cancellation id source target reason at)
  step (claims id owner lease_ms at) = after (claim id owner lease_ms at)
  step (rolls_back id plan_hash owner lease_ms at) =
      after (begin_operator_rollback id plan_hash owner lease_ms at)
  step (reconciles id outcome active_sha at) =
      after (complete_evidence_reconcile id outcome active_sha at)
  step (renews id fence owner lease_ms at) = after (renew_lease id fence owner lease_ms at)
  step (asserts id fence owner at) = after (assert_lease id fence owner at)
  step (moves id fence to code fields at) = after (transition id fence to code fields at)
  step (ends id fence to code fields at details) =
      after (terminal id fence to code fields at details)
  step (records_generation id fence generation at) =
      after (record_activation_generation id fence generation at)
  step (counts_restart id fence at) = after (increment_restart_attempts id fence at)
  step (defers id fence code message due deadline at) =
      after (defer_reconcile id fence code message due deadline at)
  step (clears id fence at) = after (clear_reconcile id fence at)
  step (prepares id fence kind target sha session evidence at) =
      after (prepare_runtime_operation id fence kind target sha session evidence at)
  step (records_operation id fence kind phase session evidence at) =
      after (record_runtime_operation id fence kind phase session evidence at)
  step (delivers key at) = after (mark_outbox_delivering key at)
  step (delivered_as key event_id at) = after (mark_outbox_delivered key event_id at)
  step (reports key at) = after (mark_outbox_reported key at)
  step (reviews key error at delay_ms) = after (mark_outbox_needs_review key error at)
  step (returns_lookup key error at delay_ms) = after (defer_outbox_lookup key error at delay_ms)
  step (returns_report key error at delay_ms) = after (defer_outbox_report key error at delay_ms)
  step (retries key error at delay_ms) = after (mark_outbox_pending key error at delay_ms)
  step (reserves_log capture) = after (reserve_diagnostic_log capture)
  step (records_failed_log capture) = after (record_failed_diagnostic_log capture)
  step (finalizes_log capture) = after (finalize_diagnostic_log capture)
  step (discards_log log_id) = after (discard_diagnostic_log log_id)
  step (interrupts_log log_id error_code at) = after (interrupt_diagnostic_log log_id error_code at)
  step (purges_log log_id at) = after (mark_diagnostic_purged log_id at)
  step (acquires w token pid at) = after (acquire_writer_lease w token pid at)
  step (releases token) = after (release_writer_lease token)

  unfoldable pub run : List Call → Store → Store
  run [] s = s
  run (c ∷ cs) s = run cs (step c s)
