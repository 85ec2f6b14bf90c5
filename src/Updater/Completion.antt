-- ===== src/Updater/Completion.antt =====
-- What a mutation that returned has done: the row, the lease, the active request, the notification.
use mathlib.Core.Option
use dona.Prelude.{
  ℕ, String, Bool, true, false, List, [], ◌∷◌, ◌++◌, Option, none, some, ◌≡◌, refl, ap, subst, ◌∙◌,
  ◌||◌, opt_is, is_some, find?, update_where, find?-update_where, if◌then◌else◌, arith,
}
use dona.Exec.{ok}
use dona.Exec.Ends.{
  Ends, Ends-pure, Ends-transaction, Ends-bind, Ends-read, Ends-require, Ends-modify, Ends-write,
}
use dona.Updater.State.{UpdateState, is_terminal}
use dona.Updater.Rows.{UpdateRow, Details, OutboxRow, TerminalKey, key_eq}
use dona.Updater.Store.{Store, has_request_id, is_at_fence, get}
use dona.Updater.Notification.{
  terminal_key, new_outbox, insert_or_ignore, outbox_after, insert_outbox, is_superseded_by,
}
use dona.Updater.Mutation.{
  Assign, assign, assign_all, completion_fields, transition_internal, clear_active,
  complete_internal,
}
use dona.Updater.Fenced.{terminal}
use dona.Updater.Returns.{Ends-get_required, Ends-update_requests, Ends-audit}
use dona.Updater.History.{Identity}
use dona.Updater.History.Statements.{find?-update_requests, get_self, has_request_id-get}
use dona.Updater.History.Mutations.{check_fields-same, assert_change-same, assign_all-Keeps}

abbrev set_row : UpdateState → ℕ → List Assign → UpdateRow → UpdateRow
set_row to at fields r = assign_all fields (record r { state = to; updated_at = at })

module _ (s : Store) (row : UpdateRow) (found : get row.request_id s ≡ some row) where
  get-set_row :
      (to : UpdateState) (at : ℕ) (fields : List Assign)
      → find?
          (has_request_id row.request_id)
          (update_where (is_at_fence row.request_id row.fence) (set_row to at fields) s.requests)
        ≡ some (set_row to at fields row)
  unfolding get
  get-set_row to at fields =
      find?-update_requests (is_at_fence row.request_id row.fence) (set_row to at fields)
        (λ r _. ap (λ (i : Identity). i.request_id) (assign_all-Keeps fields _).identity_kept)
        row.request_id s.requests
      ∙ rw found (ground arith)

-- The new row, and a store that differs in the requests and in the audit.
record Moved (s : Store) (row : UpdateRow) (to : UpdateState) (at : ℕ) (fields : List Assign)
    (r : UpdateRow) (t : Store) : Type 0 where
  row_set : r ≡ set_row to at fields row
  row_found : get row.request_id t ≡ some r
  outbox_kept : t.outbox ≡ s.outbox
  active_kept : t.active_request_id ≡ s.active_request_id

module _ (s : Store) (row : UpdateRow) (found : get row.request_id s ≡ some row) where
  Ends-transition_internal :
      (to : UpdateState) (at : ℕ) (fields : List Assign) (code : String) (details : Details)
      → Ends (Moved s row to at fields) s (transition_internal row to at fields code details)
  unfolding transition_internal get
  Ends-transition_internal to at fields code details =
      Ends-read _ s _ _ (assert_change-same row.state to s) λ _ _.
        Ends-read _ s _ _ (check_fields-same fields s) λ _ _. Ends-update_requests _ s _ _ _ _ (
          Ends-get_required _ _ _ _ λ updated now.
            Ends-audit _ _ updated _ to code details at _ λ entries. Ends-pure _ _ updated (record {
              row_set = moved updated now;
              row_found = now;
              outbox_kept = refl;
              active_kept = refl;
            }))
    where
      moved :
          (updated : UpdateRow)
          → find? (has_request_id row.request_id) (
              update_where (is_at_fence row.request_id row.fence) (set_row to at fields) s.requests)
            ≡ some updated
          → updated ≡ set_row to at fields row
      moved updated now = cc (get-set_row s row found to at fields)

abbrev pub has_terminal_key : TerminalKey → OutboxRow → Bool
has_terminal_key key o = key_eq o.outbox_id key || key_eq o.external_event_id key

-- What `completeInternal` promises.
pub record Completed (id : String) (to : UpdateState) (at : ℕ) (r : UpdateRow) (t : Store)
    : Type 0 where
  pub row_found : get id t ≡ some r
  pub state_set : r.state ≡ to
  pub to_terminal : is_terminal to ≡ true
  pub completed_now : r.completed_at ≡ some at
  pub lease_dropped : (r.lease_owner ≡ none) × (r.lease_expires_at ≡ none)
  pub not_active : opt_is id t.active_request_id ≡ false
  pub notified : is_some (find? (has_terminal_key (terminal_key r)) t.outbox) ≡ true

assign_all-append :
    (xs ys : List Assign) (r : UpdateRow)
    → assign_all (xs ++ ys) r ≡ assign_all ys (assign_all xs r)
unfolding assign_all
assign_all-append [] ys r = refl
assign_all-append (x ∷ xs) ys r = assign_all-append xs ys (assign x r)

completion-completes :
    (row r : UpdateRow) (to : UpdateState) (at : ℕ) (fields : List Assign)
    → let t = assign_all (completion_fields row to at fields) r in
      (t.completed_at ≡ some at) × (t.lease_owner ≡ none) × (t.lease_expires_at ≡ none)
unfolding completion_fields assign_all
completion-completes row r to at fields = rw (assign_all-append fields _ r) (ground arith)

insert_or_ignore-has :
    (new : OutboxRow) (os : List OutboxRow)
    → new.outbox_id ≡ new.external_event_id
    → is_some (find? (has_terminal_key new.outbox_id) (insert_or_ignore new os)) ≡ true
unfolding insert_or_ignore find?
insert_or_ignore-has new [] e = ground arith
insert_or_ignore-has new (o ∷ os) e = ground (arith, insert_or_ignore-has new os e)

is_some-map :
    (g : OutboxRow → OutboxRow) (o : Option OutboxRow) → is_some (Option.map g o) ≡ is_some o
is_some-map g none = refl
is_some-map g (some r) = refl

outbox_after-has :
    (row : UpdateRow) (at : ℕ) (os : List OutboxRow)
    → is_some (find? (has_terminal_key (terminal_key row)) (outbox_after row at os)) ≡ true
unfolding outbox_after new_outbox
outbox_after-has row at os =
    ap is_some (
      find?-update_where (has_terminal_key (terminal_key row))
        (is_superseded_by row (terminal_key row))
        (λ o. record o { superseded_by_outbox_id = some (terminal_key row); updated_at = at })
        (insert_or_ignore (new_outbox row at) os) (λ o _. refl))
    ∙ is_some-map _
        (find? (has_terminal_key (terminal_key row)) (insert_or_ignore (new_outbox row at) os))
    ∙ insert_or_ignore-has (new_outbox row at) os refl

module _ (s : Store) (row : UpdateRow) where
  Moved-Completed :
      (to : UpdateState) (at : ℕ) (fields : List Assign) (r : UpdateRow) (u : Store)
      → Moved s row to at (completion_fields row to at fields) r u
      → is_terminal r.state ≡ true
      → Completed row.request_id to at r (record u {
        active_request_id =
            if opt_is row.request_id u.active_request_id then none else u.active_request_id;
        outbox = outbox_after r at u.outbox;
      })
  unfolding get
  Moved-Completed to at fields r u m terminal =
      let after = record row { state = to; updated_at = at } in
      let done = completion-completes row after to at fields in
      let st = (assign_all-Keeps (completion_fields row to at fields) after).state_kept in
      let now : r.state ≡ to = ap (λ (x : UpdateRow). x.state) m.row_set ∙ st in
      record {
        row_found = m.row_found;
        state_set = now;
        to_terminal = subst (λ x. is_terminal x ≡ true) now terminal;
        completed_now = ap (λ (x : UpdateRow). x.completed_at) m.row_set ∙ done.0;
        lease_dropped = (
          ap (λ (x : UpdateRow). x.lease_owner) m.row_set ∙ done.1,
          ap (λ (x : UpdateRow). x.lease_expires_at) m.row_set ∙ done.2,
        );
        not_active = ground arith;
        notified = outbox_after-has r at u.outbox;
      }

  pub Ends-complete_internal :
      (to : UpdateState) (code : String) (fields : List Assign) (at : ℕ) (details : Details)
      → get row.request_id s ≡ some row
      → Ends (Completed row.request_id to at) s (complete_internal row to code fields at details)
  unfolding complete_internal clear_active insert_outbox
  Ends-complete_internal to code fields at details found =
      Ends-bind _ s _ _ _ (Ends-transition_internal s row found to at _ code details) λ r u m.
        Ends-modify _ u _ _ (
          Ends-bind _ _ (λ _ t. Completed row.request_id to at r t) _ _
            (Ends-require _ _ _ _ _
              λ terminal. Ends-write _ _ _ (Moved-Completed to at fields r u m terminal))
            λ _ t q. Ends-pure _ t r q)

Ends-terminal :
    (s : Store) (id : String) (fence : ℕ) (to : UpdateState) (code : String) (fields : List Assign)
    (at : ℕ) (details : Details)
    → Ends (Completed id to at) s (terminal id fence to code fields at details)
unfolding terminal
Ends-terminal s id fence to code fields at details = Ends-transaction _ s _ (
    Ends-get_required _ s id _ λ row found. Ends-require _ s _ _ _ λ _.
      subst
        (λ (k : String).
          Ends (Completed k to at) s (complete_internal row to code fields at details))
        (has_request_id-get id s row found)
        (Ends-complete_internal s row to code fields at details (get_self id s row found)))

-- If `terminal` returns a row, then the request stands at that row in the terminal state that was
-- asked for, completed now, without lease and not the active request, and an entry of the outbox has
-- the key of this request and fence.
pub terminal-Completed :
    (s : Store) (id : String) (fence : ℕ) (to : UpdateState) (code : String) (fields : List Assign)
    (at : ℕ) (details : Details) (r : UpdateRow) (t : Store)
    → terminal id fence to code fields at details s ≡ (ok r, t)
    → Completed id to at r t
terminal-Completed s id fence to code fields at details =
    (Ends-terminal s id fence to code fields at details).after
