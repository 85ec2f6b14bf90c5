-- ===== src/Updater/Notification.antt =====
-- `insertOutbox` of updater/src/database.ts: the notification of a terminal state.
use dona.Prelude.{
  ℕ, Bool, not, ◌&&◌, ◌||◌, List, [], ◌∷◌, none, some, is_none, text_eq, if◌then◌else◌,
  update_where,
}
use dona.Exec.{◌>>◌, modify, require}
use dona.Updater.State.{is_terminal}
use dona.Updater.Rows.{
  UpdateRow, OutboxRow, pending, outbox_status_eq, TerminalKey, key_eq, TerminalPayload,
}
use dona.Updater.Store.{Db, outbox_requires_terminal}

unfoldable pub terminal_key : UpdateRow → TerminalKey
terminal_key row = record { request_id = row.request_id; fence = row.fence }

unfoldable pub terminal_payload : UpdateRow → ℕ → TerminalPayload
unfolding terminal_key
terminal_payload row at = record {
  external_event_id = terminal_key row;
  update_status = row.state;
  occurred_at = at;
  request_id = row.request_id;
  current_sha = row.current_sha;
  target_sha = row.target_sha;
  previous_sha = row.previous_sha;
  plan_hash = row.plan_hash;
  policy_version = row.policy_version;
  rollback_compatible = row.rollback_compatible;
  active_sha = row.observed_active_sha;
  error = elim row.last_error_code [
    | none ↦ none
    | some code ↦ if text_eq code "" then none else some (code, row.last_error_message)
  ];
  reply_target = row.reply_target_json;
}

unfoldable pub new_outbox : UpdateRow → ℕ → OutboxRow
unfolding terminal_key terminal_payload
new_outbox row at = record {
  outbox_id = terminal_key row;
  request_id = row.request_id;
  external_event_id = terminal_key row;
  payload_json = terminal_payload row at;
  status = pending;
  attempt_count = 0;
  last_error = none;
  created_at = at;
  updated_at = at;
  dispatcher_event_id = none;
  dispatcher_accepted_at = none;
  slack_reported_at = none;
  next_attempt_at = none;
  superseded_by_outbox_id = none;
}

-- `INSERT OR IGNORE`: an entry with the same key, as primary key or as external event, stays.
unfoldable pub insert_or_ignore : OutboxRow → List OutboxRow → List OutboxRow
insert_or_ignore new [] = new ∷ []
insert_or_ignore new (o ∷ os) =
    if key_eq o.outbox_id new.outbox_id || key_eq o.external_event_id new.external_event_id
    then o ∷ os
    else o ∷ insert_or_ignore new os

-- An older entry of the request that was never sent.
abbrev pub is_superseded_by : UpdateRow → TerminalKey → OutboxRow → Bool
is_superseded_by row key o =
    text_eq o.request_id row.request_id
    && not (key_eq o.outbox_id key)
    && outbox_status_eq o.status pending
    && is_none o.superseded_by_outbox_id

unfoldable pub outbox_after : UpdateRow → ℕ → List OutboxRow → List OutboxRow
unfolding terminal_key new_outbox insert_or_ignore
outbox_after row at outbox =
    update_where (is_superseded_by row (terminal_key row))
      (λ o. record o { superseded_by_outbox_id = some (terminal_key row); updated_at = at })
      (insert_or_ignore (new_outbox row at) outbox)

unfoldable pub insert_outbox : UpdateRow → ℕ → Db Unit
insert_outbox row at = do
  require (is_terminal row.state) outbox_requires_terminal
  modify (λ s. record s { outbox = outbox_after row at s.outbox })
