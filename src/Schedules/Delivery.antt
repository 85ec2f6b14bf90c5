-- ===== src/Schedules/Delivery.antt =====
-- dispatcher/src/scheduler/repository.ts: the connector's turn: the insertion and the claims of
-- outbox rows, the start of a request and its outcome.
use Prim.Native.String
use dona.Prelude.{
  head, ℕ, String, Bool, true, false, not, ◌&&◌, ◌||◌, List, [], ◌∷◌, ◌++◌, Option, none, some,
  is_none, is_some, find?, select_where, count_where, text_eq, text_discrete, ltb, leb, ◌==◌, ◌+◌,
  if◌then◌else◌, opt_is, sort_with, zero, suc, ◌∷◌,
}
use dona.Exec.{pure, gets, modify, require, transaction, ◌>>=◌, ◌>>◌}
use dona.Schedules.Texts.{text_leb}
use dona.Schedules.Rows.{
  Schedule, Revision, Run, Outbox, OutboxKind, OutboxStatus, Job, Target, Tables, reminder,
  work_result,
}
use dona.Schedules.Store.{
  Db, opt_leb, required, outbox_is, get, get_run, revision_of, get_outbox, update_outbox,
}
use dona.Schedules.Drain.{is_active}
use dona.Schedules.Outboxes.{is_reminder, run_can_send, tells_review, recover}

-- What the runtime gives: `randomUUID` by the number of the draw, and SHA-256.
pub record Host : Type 0 where
  pub uuid : ℕ → String
  pub digest : String → String

unfoldable pub draw : Host → Db String
draw h = do
  n ← gets Tables.uuids_drawn
  modify λ s. record s { uuids_drawn = n + 1 }
  pure (h.uuid n)

abbrev pub kind_text : OutboxKind → String
kind_text reminder = "slack.reminder.post"
kind_text work_result = "slack.work_result.post"

abbrev job_is : Option String → Job → Bool
job_is none j = false
job_is (some id) j = text_eq j.job_id id

abbrev status_of : Option Job → Option String
status_of none = none
status_of (some j) = some j.status

abbrev job_of : Option Run → Option String
job_of none = none
job_of (some run) = run.job_id

unfoldable job_status_of : String → Tables → Option String
unfolding get_run text_discrete
job_status_of run_id s = status_of (find? (job_is (job_of (get_run run_id s))) s.jobs)

abbrev kind_is : Option OutboxKind → OutboxKind → Bool
kind_is none k = true
kind_is (some reminder) k = is_reminder k
kind_is (some work_result) k = not (is_reminder k)

-- The primary key, and UNIQUE(run_id, kind).
abbrev pub clashes : String → String → OutboxKind → Outbox → Bool
clashes id run_id kind o =
    text_eq o.outbox_id id || text_eq o.run_id run_id && kind_is (some kind) o.kind

abbrev pub new_outbox :
    Host → String → String → OutboxKind → Target → String → ℕ → Option String → Outbox
new_outbox h id run_id kind target content now job_status = record {
  outbox_id = id;
  run_id = run_id;
  kind = kind;
  idempotency_key = String.◌++◌ run_id (String.◌++◌ ":" (kind_text kind));
  target_json = target;
  content = some content;
  content_hash = h.digest content;
  status = OutboxStatus.pending;
  attempt = 0;
  available_at = now;
  claim_token = none;
  lease_until = none;
  request_started_at = none;
  receipt_id = none;
  created_at = now;
  updated_at = now;
  terminal_at = none;
  content_delete_at = none;
  completion_job_status = job_status;
}

unfoldable pub insert_outbox : Host → String → OutboxKind → Target → String → ℕ → Db Unit
unfolding draw job_status_of text_discrete
insert_outbox h run_id kind target content now = do
  drawn ← draw h
  let id = String.◌++◌ "outbox_" drawn
  job_status ← gets (job_status_of run_id)
  taken ← gets λ s. find? (clashes id run_id kind) s.outbox
  require (is_none taken) "UNIQUE constraint failed"
  modify λ s. record s {
    outbox = s.outbox ++ new_outbox h id run_id kind target content now job_status ∷ [];
  }

abbrev pub is_pending : OutboxStatus → Bool
is_pending OutboxStatus.pending = true
is_pending s = false

abbrev is_in_flight : OutboxStatus → Bool
is_in_flight OutboxStatus.claimed = true
is_in_flight OutboxStatus.request_started = true
is_in_flight s = false

-- The WHERE of `claimBatch`, of a row with its run, its schedule and the run's revision.
abbrev pub is_claimable : ℕ → Option OutboxKind → Outbox → Run → Schedule → Revision → Bool
is_claimable now kind o r s v =
    is_pending o.status
    && leb o.available_at now
    && is_some o.content
    && kind_is kind o.kind
    && (is_active s.state || tells_review o r s)
    && run_can_send o.kind r.status
    && (s.revision == r.revision || tells_review o r s)
    && ltb now v.expires_at
    && not (opt_leb o.content_delete_at now)

abbrev pub claimable_revision :
    ℕ → Option OutboxKind → Outbox → Run → Schedule → Option Revision → Bool
claimable_revision now kind o r s none = false
claimable_revision now kind o r s (some v) = is_claimable now kind o r s v

abbrev pub claimable_schedule :
    ℕ → Option OutboxKind → Outbox → Run → Tables → Option Schedule → Bool
claimable_schedule now kind o r t none = false
claimable_schedule now kind o r t (some s) =
    claimable_revision now kind o r s (revision_of r.schedule_id r.revision t)

abbrev pub claimable_run : ℕ → Option OutboxKind → Outbox → Tables → Option Run → Bool
claimable_run now kind o t none = false
claimable_run now kind o t (some r) = claimable_schedule now kind o r t (get r.schedule_id t)

unfoldable pub claimable : ℕ → Option OutboxKind → Tables → Outbox → Bool
unfolding get get_run revision_of
claimable now kind t o = claimable_run now kind o t (get_run o.run_id t)

abbrev tenant_by_schedule : Option Schedule → Option String
tenant_by_schedule none = none
tenant_by_schedule (some s) = some s.tenant_id

abbrev tenant_by_run : Tables → Option Run → Option String
tenant_by_run t none = none
tenant_by_run t (some r) = tenant_by_schedule (get r.schedule_id t)

unfoldable tenant_of : Tables → Outbox → Option String
unfolding get get_run
tenant_of t o = tenant_by_run t (get_run o.run_id t)

abbrev same_tenant : Option String → Option String → Bool
same_tenant none o = false
same_tenant (some tenant) o = opt_is tenant o

-- The rows of the same tenant that are claimed or on their way.
unfoldable tenant_load : Tables → Outbox → ℕ
unfolding tenant_of text_discrete
tenant_load t o =
    count_where (λ p. same_tenant (tenant_of t o) (tenant_of t p) && is_in_flight p.status) t.outbox

abbrev by_then : ℕ → ℕ → Bool → Bool
by_then a b tie = if ltb a b then true else (if a == b then tie else false)

-- The ORDER BY of `claimBatch`.
unfoldable pub goes_first : Tables → Outbox → Outbox → Bool
unfolding tenant_load text_leb
goes_first t a b =
    by_then (tenant_load t a) (tenant_load t b)
      (by_then a.available_at b.available_at (text_leb a.outbox_id b.outbox_id))

unfoldable pub next_claimable : ℕ → Option OutboxKind → Tables → Option Outbox
unfolding claimable goes_first sort_with
next_claimable now kind t =
    head (sort_with (goes_first t) (select_where (claimable now kind t) t.outbox))

abbrev pub taken : String → ℕ → ℕ → Outbox → Outbox
taken token until now o = record o {
  status = OutboxStatus.claimed;
  claim_token = some token;
  lease_until = some until;
  updated_at = now;
}

module _ (h : Host) where
  -- One turn of the loop of `claimBatch`.
  unfoldable pub take_row : ℕ → ℕ → Outbox → Db Outbox
  unfolding draw update_outbox get_outbox text_discrete
  take_row now lease row = do
    token ← draw h
    update_outbox (outbox_is row.outbox_id) (taken token (now + lease) now)
    found ← gets (get_outbox row.outbox_id now)
    required found

  abbrev pub claim_next : ℕ → ℕ → Db (List Outbox) → Option Outbox → Db (List Outbox)
  claim_next now lease rest none = pure []
  claim_next now lease rest (some row) = do
    taken ← take_row now lease row
    others ← rest
    pure (taken ∷ others)

  -- The loop, of at most the given number of turns.
  unfoldable pub claim_loop : ℕ → ℕ → ℕ → Option OutboxKind → Db (List Outbox)
  unfolding take_row next_claimable
  claim_loop zero now lease kind = pure []
  claim_loop (suc n) now lease kind = do
    found ← gets (next_claimable now kind)
    claim_next now lease (claim_loop n now lease kind) found

  abbrev in_range : ℕ → ℕ → ℕ → Bool
  in_range low high n = leb low n && leb n high

  unfoldable pub claim_batch : ℕ → ℕ → Option OutboxKind → ℕ → Db (List Outbox)
  unfolding claim_loop recover
  claim_batch now lease kind limit = do
    require (in_range 1 300 lease) "invalid_lease"
    require (in_range 1 100 limit) "invalid_limit"
    transaction do _ ← recover now false; claim_loop limit now lease kind
