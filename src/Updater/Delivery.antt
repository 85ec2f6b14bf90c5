-- ===== src/Updater/Delivery.antt =====
-- updater/src/database.ts: the delivery of the notifications in the outbox.
use dona.Prelude.{
  ℕ, ◌+◌, String, Bool, true, ◌&&◌, ◌||◌, List, Option, none, some, is_none, leb, take, find?,
  update_where, select_where, sort_by, clip,
}
use dona.Exec.{gets, ◌>>=◌, ◌>>◌, modify}
use dona.Updater.Rows.{
  OutboxRow, TerminalKey, key_eq, pending, delivering, delivered, needs_review, outbox_status_eq,
}
use dona.Updater.Store.{Store, Db, or_throw, terminal_outbox_not_found}

abbrev is_due : ℕ → Option ℕ → Bool
is_due at none = true
is_due at (some next) = leb next at

abbrev awaits_delivery : ℕ → OutboxRow → Bool
awaits_delivery at o =
    (outbox_status_eq o.status pending
      || outbox_status_eq o.status delivering
      || outbox_status_eq o.status delivered && is_none o.slack_reported_at)
    && is_none o.superseded_by_outbox_id
    && is_due at o.next_attempt_at

unfoldable pub pending_outbox : ℕ → ℕ → Store → List OutboxRow
pending_outbox limit at s =
    take limit (sort_by (λ o. o.created_at) (select_where (awaits_delivery at) s.outbox))

abbrev pub has_key : TerminalKey → OutboxRow → Bool
has_key key o = key_eq o.outbox_id key

unfoldable pub update_outbox : (OutboxRow → Bool) → (OutboxRow → OutboxRow) → Db Unit
update_outbox p f = modify λ s. record s { outbox = update_where p f s.outbox }

unfoldable pub outbox_required : TerminalKey → Db OutboxRow
outbox_required key = do
  found ← gets (λ s. find? (has_key key) s.outbox)
  or_throw found (terminal_outbox_not_found key)

unfoldable pub mark_outbox_delivering : TerminalKey → ℕ → Db OutboxRow
unfolding update_outbox outbox_required
mark_outbox_delivering key at = do
  update_outbox
      (λ o.
        has_key key o
        && (outbox_status_eq o.status pending || outbox_status_eq o.status delivering))
      (λ o. record o {
        status = delivering;
        attempt_count = o.attempt_count + 1;
        last_error = none;
        next_attempt_at = none;
        updated_at = at;
      })
  outbox_required key

abbrev first_accepted : Option ℕ → ℕ → Option ℕ
first_accepted none at = some at
first_accepted (some earlier) at = some earlier

unfoldable pub mark_outbox_delivered : TerminalKey → String → ℕ → Db Unit
unfolding update_outbox
mark_outbox_delivered key dispatcher_event_id at = update_outbox (has_key key) λ o. record o {
  status = delivered;
  dispatcher_event_id = some dispatcher_event_id;
  dispatcher_accepted_at = first_accepted o.dispatcher_accepted_at at;
  next_attempt_at = some (at + 1000);
  last_error = none;
  updated_at = at;
}

unfoldable pub mark_outbox_reported : TerminalKey → ℕ → Db Unit
unfolding update_outbox
mark_outbox_reported key at =
    update_outbox (λ o. has_key key o && outbox_status_eq o.status delivered)
      λ o. record o {
        slack_reported_at = some at;
        next_attempt_at = none;
        last_error = none;
        updated_at = at;
      }

unfoldable pub mark_outbox_needs_review : TerminalKey → String → ℕ → Db Unit
unfolding update_outbox
mark_outbox_needs_review key error at = update_outbox (has_key key) λ o. record o {
  status = needs_review;
  next_attempt_at = none;
  last_error = some (clip 2000 error);
  updated_at = at;
}

unfoldable pub mark_outbox_pending : TerminalKey → String → (at delay_ms : ℕ) → Db Unit
unfolding update_outbox
mark_outbox_pending key error at delay_ms = update_outbox (has_key key) λ o. record o {
  status = pending;
  next_attempt_at = some (at + delay_ms);
  last_error = some (clip 2000 error);
  updated_at = at;
}

unfoldable pub defer_outbox_lookup : TerminalKey → String → (at delay_ms : ℕ) → Db Unit
unfolding update_outbox
defer_outbox_lookup key error at delay_ms = update_outbox (has_key key) λ o. record o {
  status = delivering;
  next_attempt_at = some (at + delay_ms);
  last_error = some (clip 2000 error);
  updated_at = at;
}

unfoldable pub defer_outbox_report : TerminalKey → String → (at delay_ms : ℕ) → Db Unit
unfolding update_outbox
defer_outbox_report key error at delay_ms = update_outbox (has_key key) λ o. record o {
  status = delivered;
  next_attempt_at = some (at + delay_ms);
  last_error = some (clip 2000 error);
  updated_at = at;
}
