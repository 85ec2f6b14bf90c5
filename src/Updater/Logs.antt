-- ===== src/Updater/Logs.antt =====
-- updater/src/database.ts: the diagnostic logs of the attempts, and which of them retention purges.
use dona.Prelude.{
  ℕ, suc, ◌+◌, String, Bool, false, not, ◌&&◌, ◌||◌, List, [], ◌∷◌, ◌++◌, Option, none, some,
  is_none, is_some, text_eq, ◌==◌, ltb, if◌then◌else◌, find?, update_where, count_where,
  delete_where, select_where, sort_with,
}
use Prim.Native.String.{compare}
use text.Mathlib.Text.{is_le}
use dona.Exec.{gets, ◌>>=◌, ◌>>◌, modify, require, transaction}
use dona.Updater.Rows.{
  UpdateRow, DiagnosticLogCapture, DiagnosticLogRow, CaptureState, capturing, complete, truncated,
  write_failed, purged, capture_state_eq,
}
use dona.Updater.Store.{
  Store, Error, Db, has_request_id, get_required, constraint_violation, log_request_binding,
  log_finalize_binding, log_discard_binding, log_interrupt_state, log_purge_state,
}

unfoldable pub insert_log : DiagnosticLogRow → Db Unit
insert_log new = do
  clash ← gets (λ s. is_some (find? (λ l. text_eq l.log_id new.log_id) s.logs))
  require (not clash) constraint_violation
  modify (λ s. record s { logs = s.logs ++ new ∷ [] })

unfoldable pub update_logs :
    (DiagnosticLogRow → Bool) → (DiagnosticLogRow → DiagnosticLogRow) → Error → Db Unit
update_logs p f e = do
  changed ← gets (λ s. count_where p s.logs)
  modify (λ s. record s { logs = update_where p f s.logs })
  require (changed == 1) e

-- The request of a capture is in the attempt that the capture names, and not complete.
abbrev is_bound : DiagnosticLogCapture → UpdateRow → Bool
is_bound c row = row.attempt == c.attempt && is_none row.completed_at

unfoldable pub reserve_diagnostic_log : DiagnosticLogCapture → Db Unit
unfolding insert_log
reserve_diagnostic_log c = transaction do
  row ← get_required c.request_id
  require (is_bound c row) log_request_binding
  insert_log record {
    log_id = c.log_id;
    request_id = c.request_id;
    attempt = c.attempt;
    step = c.step;
    relative_ref = c.relative_ref;
    byte_size = 0;
    content_sha256 = none;
    capture_state = capturing;
    error_code = none;
    created_at = c.created_at;
    finalized_at = none;
    purged_at = none;
  }

abbrev is_empty_failure : DiagnosticLogCapture → Bool
is_empty_failure c =
    is_none c.relative_ref
    && c.byte_size == 0
    && is_none c.content_sha256
    && capture_state_eq c.capture_state write_failed

unfoldable pub record_failed_diagnostic_log : DiagnosticLogCapture → Db Unit
unfolding insert_log
record_failed_diagnostic_log c = transaction do
  row ← get_required c.request_id
  require (is_bound c row && is_empty_failure c) log_request_binding
  insert_log record {
    log_id = c.log_id;
    request_id = c.request_id;
    attempt = c.attempt;
    step = c.step;
    relative_ref = none;
    byte_size = 0;
    content_sha256 = none;
    capture_state = write_failed;
    error_code = c.error_code;
    created_at = c.created_at;
    finalized_at = some c.finalized_at;
    purged_at = none;
  }

abbrev is_capturing : String → DiagnosticLogRow → Bool
is_capturing log_id l = text_eq l.log_id log_id && capture_state_eq l.capture_state capturing

unfoldable pub finalize_diagnostic_log : DiagnosticLogCapture → Db Unit
unfolding update_logs
finalize_diagnostic_log c =
    update_logs
      (λ l.
        is_capturing c.log_id l
        && text_eq l.request_id c.request_id
        && l.attempt == c.attempt
        && text_eq l.step c.step)
      (λ l. record l {
        relative_ref = c.relative_ref;
        byte_size = c.byte_size;
        content_sha256 = c.content_sha256;
        capture_state = c.capture_state;
        error_code = c.error_code;
        finalized_at = some c.finalized_at;
      })
      log_finalize_binding

unfoldable pub discard_diagnostic_log : String → Db Unit
discard_diagnostic_log log_id = do
  changed ← gets (λ s. count_where (is_capturing log_id) s.logs)
  modify (λ s. record s { logs = delete_where (is_capturing log_id) s.logs })
  require (changed == 1) log_discard_binding

unfoldable pub interrupt_diagnostic_log : String → String → ℕ → Db Unit
unfolding update_logs
interrupt_diagnostic_log log_id error_code at =
    update_logs (is_capturing log_id)
      (λ l. record l {
        capture_state = write_failed;
        relative_ref = none;
        byte_size = 0;
        content_sha256 = none;
        error_code = some error_code;
        finalized_at = some at;
      })
      log_interrupt_state

abbrev is_purgeable : CaptureState → Bool
is_purgeable s =
    capture_state_eq s complete || capture_state_eq s truncated || capture_state_eq s write_failed

unfoldable pub mark_diagnostic_purged : String → ℕ → Db Unit
unfolding update_logs
mark_diagnostic_purged log_id at =
    update_logs (λ l. text_eq l.log_id log_id && is_purgeable l.capture_state)
      (λ l. record l {
        capture_state = purged;
        relative_ref = none;
        content_sha256 = none;
        error_code = none;
        purged_at = some at;
      })
      log_purge_state

abbrev belongs_to_complete : Store → DiagnosticLogRow → Bool
belongs_to_complete s l =
    is_some (find? (λ r. has_request_id l.request_id r && is_some r.completed_at) s.requests)

-- A time that may be missing, which sorts before every time.
abbrev time_key : Option ℕ → ℕ
time_key none = 0
time_key (some t) = suc t

-- `ORDER BY finalized_at DESC, log_id DESC`.
abbrev newer_first : DiagnosticLogRow → DiagnosticLogRow → Bool
newer_first a b =
    ltb (time_key b.finalized_at) (time_key a.finalized_at)
    || time_key a.finalized_at == time_key b.finalized_at && is_le (compare b.log_id a.log_id)

unfoldable pub diagnostic_retention_logs : Store → List DiagnosticLogRow
unfolding sort_with
diagnostic_retention_logs s =
    sort_with newer_first
      (select_where (λ l. is_purgeable l.capture_state && belongs_to_complete s l) s.logs)

abbrev is_expired : ℕ → DiagnosticLogRow → Bool
is_expired cutoff l = elim l.finalized_at [ none ↦ false | some t ↦ ltb t cutoff ]

-- The rows that the filter keeps as candidates, given the bytes retained so far.
unfoldable pub retention_filter :
    (cutoff limit retained : ℕ) → List DiagnosticLogRow → List DiagnosticLogRow
retention_filter cutoff limit retained [] = []
retention_filter cutoff limit retained (l ∷ ls) =
    let purge = l ∷ retention_filter cutoff limit retained ls in
    let retain = retention_filter cutoff limit (retained + l.byte_size) ls in
    if is_expired cutoff l || ltb limit (retained + l.byte_size) then purge else retain

-- `localeCompare` of two identifiers depends on the locale's order of texts.
module _ (locale_le : String → String → Bool) where
  abbrev older_first : DiagnosticLogRow → DiagnosticLogRow → Bool
  older_first a b =
      ltb (time_key a.finalized_at) (time_key b.finalized_at)
      || time_key a.finalized_at == time_key b.finalized_at && locale_le a.log_id b.log_id

  unfoldable pub diagnostic_retention_candidates : ℕ → ℕ → Store → List DiagnosticLogRow
  unfolding retention_filter sort_with
  diagnostic_retention_candidates cutoff limit s =
      sort_with older_first (retention_filter cutoff limit 0 (diagnostic_retention_logs s))
