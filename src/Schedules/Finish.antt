-- ===== src/Schedules/Finish.antt =====
-- dispatcher/src/scheduler/repository.ts: the start of a request and what its outcome does, and the
-- decision of an administrator on a request in doubt.
use dona.Prelude.{
  ℕ, String, Bool, true, false, not, ◌&&◌, ◌||◌, List, [], ◌∷◌, Option, none, some, text_discrete,
  ltb, leb, ◌==◌, ◌+◌, max, if◌then◌else◌, opt_is,
}
use dona.Exec.{pure, gets, require, transaction, ◌>>=◌, ◌>>◌}
use dona.Schedules.Rows.{Schedule, Revision, Run, Outbox, OutboxStatus}
use dona.Schedules.Store.{
  Db, or_else, latest, opt_leb, week, misfire_grace, required, or_throw, outbox_is, get_run,
  get_outbox, audit_outbox, update_outbox,
}
use dona.Schedules.Drain.{is_active}
use dona.Schedules.Outboxes.{is_reminder, run_can_send, tells_review, expire_unsent, is_claimed}

-- The claim that a caller holds: `status` with the token.
unfoldable pub holds_claim : String → ℕ → Outbox → Bool
unfolding text_discrete
holds_claim token now row =
    is_claimed row.status && opt_is token row.claim_token && not (opt_leb row.lease_until now)

abbrev pub started : ℕ → Outbox → Outbox
started at o = record o {
  status = OutboxStatus.request_started;
  request_started_at = some at;
  attempt = o.attempt + 1;
  updated_at = at;
}

abbrev pub start_times : Outbox → List ℕ
start_times row =
    row.created_at ∷ row.updated_at ∷ or_else row.request_started_at row.created_at ∷ []

unfoldable pub begin_request : Outbox → ℕ → Db Outbox
unfolding get_run update_outbox audit_outbox get_outbox text_discrete
begin_request row now = do
  found_run ← gets (get_run row.run_id)
  run ← required found_run
  require (run_can_send row.kind run.status) "write_not_authorized"
  require (ltb row.attempt 3) "attempt_limit"
  let at = latest now (start_times row)
  update_outbox (outbox_is row.outbox_id) (started at)
  audit_outbox row "outbox_request_started" at none none
  found ← gets (get_outbox row.outbox_id at)
  required found

abbrev pub as_some : Db Outbox → Db (Option Outbox)
as_some m = do row ← m; pure (some row)

unfoldable pub request_started : String → String → ℕ → Db Outbox
unfolding get_outbox holds_claim expire_unsent begin_request
request_started id token now = do
  result ← transaction do
    found ← gets (get_outbox id now)
    row ← or_throw "claim_conflict" found
    require (holds_claim token now row) "claim_conflict"
    ended ← expire_unsent row now none
    if ended then pure none else as_some (begin_request row now)
  or_throw "write_not_authorized" result

pub data Outcome : Type 0 where
  sent : Outcome
  not_accepted : Outcome
  authorization_unavailable : Outcome
  unavailable : Outcome
  rejected : Outcome
  revoked : Outcome
  misfire : Outcome
  ambiguous : Outcome

abbrev pub is_sent : Outcome → Bool
is_sent sent = true
is_sent outcome = false

abbrev pub is_unavailable : Outcome → Bool
is_unavailable unavailable = true
is_unavailable outcome = false

abbrev pub is_authorization_unavailable : Outcome → Bool
is_authorization_unavailable authorization_unavailable = true
is_authorization_unavailable outcome = false

abbrev pub is_revoked : Outcome → Bool
is_revoked revoked = true
is_revoked outcome = false

abbrev pub is_misfire : Outcome → Bool
is_misfire misfire = true
is_misfire outcome = false

-- An outcome that says that the request was not accepted, and may be tried again.
abbrev is_retryable : Outcome → Bool
is_retryable not_accepted = true
is_retryable authorization_unavailable = true
is_retryable unavailable = true
is_retryable outcome = false

abbrev pub outcome_text : Outcome → String
outcome_text sent = "outbox_sent"
outcome_text not_accepted = "outbox_not_accepted"
outcome_text authorization_unavailable = "outbox_authorization_unavailable"
outcome_text unavailable = "outbox_unavailable"
outcome_text rejected = "outbox_rejected"
outcome_text revoked = "outbox_revoked"
outcome_text misfire = "outbox_misfire"
outcome_text ambiguous = "outbox_ambiguous"

-- Whether the run may still be written about.
unfoldable pub is_authorized : Outbox → Run → Schedule → Revision → ℕ → Bool
is_authorized row run schedule snapshot now =
    run_can_send row.kind run.status
    && (is_active schedule.state || tells_review row run schedule)
    && (schedule.revision == run.revision || tells_review row run schedule)
    && ltb now snapshot.expires_at

abbrev pub retry_delay : ℕ → Outbox → ℕ
retry_delay after row = max after (if row.attempt == 1 then 1 else 5)

abbrev in_work_deadline : Outbox → ℕ → Bool
in_work_deadline row retry_at = is_reminder row.kind || leb retry_at (row.created_at + 900)

abbrev in_reminder_grace : Outbox → Run → ℕ → Bool
in_reminder_grace row run retry_at =
    not (is_reminder row.kind) || leb retry_at (run.scheduled_for + misfire_grace)

unfoldable pub retries : Outcome → Outbox → Run → Bool → ℕ → Bool
retries outcome row run authorized retry_at =
    is_retryable outcome
    && (is_unavailable outcome || ltb row.attempt 3)
    && authorized
    && in_work_deadline row retry_at
    && (not (is_authorization_unavailable outcome) || in_reminder_grace row run retry_at)

unfoldable pub outcome_status : Outcome → Bool → Bool → OutboxStatus
outcome_status sent retry authorized = OutboxStatus.sent
outcome_status outcome retry authorized =
    if retry
    then OutboxStatus.pending
    else (if authorized then OutboxStatus.failed else OutboxStatus.cancelled)

-- The columns that the outcome sets.
unfoldable pub settled_row : OutboxStatus → Bool → ℕ → Option String → ℕ → Outbox → Outbox
settled_row status retry available receipt at o = record o {
  status = status;
  available_at = available;
  request_started_at = if retry then none else o.request_started_at;
  receipt_id = receipt;
  claim_token = none;
  lease_until = none;
  terminal_at = if retry then none else some at;
  content_delete_at = if retry then none else some (at + week);
  updated_at = at;
}
