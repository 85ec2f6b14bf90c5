-- ===== src/Updater/Operations.antt =====
-- updater/src/database.ts: the journal of the operations on the runtime, one entry for each kind.
use dona.Prelude.{
  ℕ, String, Bool, ◌&&◌, ◌||◌, List, [], ◌∷◌, Option, none, is_none, is_some, text_eq, opt_text_eq,
  ◌==◌, if◌then◌else◌, find?, update_where, count_where,
}
use dona.Exec.{pure, gets, ◌>>=◌, ◌>>◌, modify, require, transaction}
use dona.Updater.State.{state_eq, needs_review}
use dona.Updater.Rows.{
  UpdateRow, RuntimeOperationKind, RuntimeOperationPhase, RuntimeOperationRow, kind_eq,
  legacy_confirmation, prepared,
}
use dona.Updater.Store.{
  Store, Db, is_at_fence, update_requests, operation_rejected, operation_intent_mismatch,
  operation_not_prepared, or_throw,
}

abbrev is_operation : String → RuntimeOperationKind → RuntimeOperationRow → Bool
is_operation id kind op = text_eq op.request_id id && kind_eq op.kind kind

unfoldable pub runtime_operation :
    String → RuntimeOperationKind → Store → Option RuntimeOperationRow
runtime_operation id kind s = find? (is_operation id kind) s.operations

-- A request that is not complete, or one under review whose operator confirms an old release.
unfoldable pub accepts_operation : String → ℕ → RuntimeOperationKind → UpdateRow → Bool
accepts_operation id fence kind r =
    is_at_fence id fence r
    && (is_none r.completed_at || state_eq r.state needs_review && kind_eq kind legacy_confirmation)

unfoldable pub new_operation :
    String
    → ℕ
    → RuntimeOperationKind
    → String
    → Option String
    → Option String
    → String
    → ℕ
    → RuntimeOperationRow
new_operation id fence kind target_ref expected_sha previous_session_id evidence at = record {
  request_id = id;
  fence = fence;
  kind = kind;
  phase = prepared;
  target_ref = target_ref;
  expected_sha = expected_sha;
  previous_session_id = previous_session_id;
  observed_session_id = none;
  evidence_json = evidence;
  created_at = at;
  updated_at = at;
}

-- `INSERT OR IGNORE`.
unfoldable pub insert_operation :
    RuntimeOperationRow → List RuntimeOperationRow → List RuntimeOperationRow
insert_operation new [] = new ∷ []
insert_operation new (op ∷ ops) =
    if is_operation new.request_id new.kind op then op ∷ ops else op ∷ insert_operation new ops

abbrev same_intent : String → Option String → Option String → RuntimeOperationRow → Bool
same_intent target_ref expected_sha previous_session_id op =
    text_eq op.target_ref target_ref
    && opt_text_eq op.expected_sha expected_sha
    && opt_text_eq op.previous_session_id previous_session_id

unfoldable pub prepare_runtime_operation :
    String
    → ℕ
    → RuntimeOperationKind
    → String
    → Option String
    → Option String
    → String
    → ℕ
    → Db RuntimeOperationRow
unfolding accepts_operation new_operation insert_operation runtime_operation
prepare_runtime_operation id fence kind target_ref expected_sha previous_session_id evidence at =
    transaction do
      update_requests (accepts_operation id fence kind) (λ r. r) (operation_rejected kind)
      modify (λ s. record s {
        operations =
            insert_operation
              (new_operation id fence kind target_ref expected_sha previous_session_id evidence at)
              s.operations;
      })
      found ← gets (runtime_operation id kind)
      op ← or_throw found (operation_intent_mismatch kind)
      require (same_intent target_ref expected_sha previous_session_id op)
          (operation_intent_mismatch kind)
      pure op

-- The rows that the UPDATE changes: none unless the request is at this fence and accepts the kind.
unfoldable pub recorded : String → ℕ → RuntimeOperationKind → Store → RuntimeOperationRow → Bool
unfolding accepts_operation
recorded id fence kind s op =
    is_operation id kind op && is_some (find? (accepts_operation id fence kind) s.requests)

unfoldable pub record_runtime_operation :
    String
    → ℕ
    → RuntimeOperationKind
    → RuntimeOperationPhase
    → Option String
    → String
    → ℕ
    → Db RuntimeOperationRow
unfolding recorded runtime_operation
record_runtime_operation id fence kind phase observed_session_id evidence at = do
  changed ← gets (λ s. count_where (recorded id fence kind s) s.operations)
  modify (λ s. record s {
    operations =
        update_where (recorded id fence kind s)
          (λ op. record op {
            fence = fence;
            phase = phase;
            observed_session_id = observed_session_id;
            evidence_json = evidence;
            updated_at = at;
          })
          s.operations;
  })
  require (changed == 1) (operation_not_prepared kind)
  found ← gets (runtime_operation id kind)
  or_throw found (operation_not_prepared kind)
