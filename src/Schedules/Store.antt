-- ===== src/Schedules/Store.antt =====
-- dispatcher/src/scheduler/repository.ts: the reads that the methods share, the checks before a
-- change, the audit, and the retirement of revisions.
use dona.Prelude.{
  ℕ, String, Bool, true, false, not, ◌&&◌, ◌||◌, List, [], ◌∷◌, ◌++◌, Option, none, some, find?,
  update_where, text_eq, text_discrete, leb, ◌==◌, ◌+◌, max, min, if◌then◌else◌,
}
use dona.Exec.{Exec, raise, pure, gets, modify, require, ◌>>=◌, ◌>>◌}
use dona.Schedules.Texts.{check_id, opt_identity}
use dona.Schedules.Rows.{
  Role, Actor, Schedule, Revision, Run, Outbox, CompactSkip, Audit, AuditBefore, Tables, owner,
  admin,
}

abbrev pub Db : Type 0 → Type 0
Db A = Exec String Tables A

-- `x ?? d`.
abbrev pub or_else {ℓ} : {A : Type ℓ} → Option A → A → A
or_else none d = d
or_else (some a) d = a

-- `[…].sort().at(-1)`.
abbrev pub latest : ℕ → List ℕ → ℕ
latest t [] = t
latest t (u ∷ us) = latest (max t u) us

abbrev pub opt_leb : Option ℕ → ℕ → Bool
opt_leb none t = false
opt_leb (some a) t = leb a t

-- A week, for which ended content is kept.
abbrev pub week : ℕ
week = 604800

abbrev pub misfire_grace : ℕ
misfire_grace = 900

-- `row!` and a field of a missing row: a TypeError.
abbrev pub required : {A : Type 0} → Option A → Exec String Tables A
required none = raise "TypeError"
required (some a) = pure a

abbrev pub or_throw : {A : Type 0} → String → Option A → Exec String Tables A
or_throw e none = raise e
or_throw e (some a) = pure a

abbrev pub schedule_is : String → Schedule → Bool
schedule_is id r = text_eq r.schedule_id id

abbrev pub run_is : String → Run → Bool
run_is id r = text_eq r.run_id id

abbrev pub outbox_is : String → Outbox → Bool
outbox_is id r = text_eq r.outbox_id id

abbrev pub revision_is : String → ℕ → Revision → Bool
revision_is id n r = text_eq r.schedule_id id && r.revision == n

unfoldable pub get : String → Tables → Option Schedule
unfolding text_discrete
get id s = find? (schedule_is id) s.schedules

unfoldable pub get_run : String → Tables → Option Run
unfolding text_discrete
get_run id s = find? (run_is id) s.runs

unfoldable pub revision_of : String → ℕ → Tables → Option Revision
unfolding text_discrete
revision_of id n s = find? (revision_is id n) s.revisions

unfoldable pub outbox_row : String → Tables → Option Outbox
unfolding text_discrete
outbox_row id s = find? (outbox_is id) s.outbox

abbrev pub without_content : ℕ → Outbox → Outbox
without_content now row =
    if opt_leb row.content_delete_at now then record row { content = none } else row

abbrev pub shown : ℕ → Option Outbox → Option Outbox
shown now none = none
shown now (some row) = some (without_content now row)

-- `getOutbox`: content past its deadline is not shown.
unfoldable pub get_outbox : String → ℕ → Tables → Option Outbox
unfolding outbox_row
get_outbox id now s = shown now (outbox_row id s)

abbrev pub is_admin : Role → Bool
is_admin owner = false
is_admin admin = true

-- `checked`: the schedule, at the revision, for its owner or an admin of its tenant.
unfoldable pub may_act : Bool → Actor → Schedule → Bool
unfolding text_discrete
may_act owner_only actor row =
    text_eq actor.tenant_id row.tenant_id
    && (text_eq actor.actor_id row.owner_id || not owner_only && is_admin actor.role)

unfoldable pub check_actor : Actor → Db Unit
unfolding check_id
check_actor actor = do
  check_id actor.actor_id
  check_id actor.tenant_id
  require (opt_identity actor.source_event_id) "invalid_identity"

unfoldable pub checked : String → ℕ → Actor → Bool → Db Schedule
unfolding get may_act check_actor
checked id revision actor owner_only = do
  found ← gets (get id)
  row ← or_throw "schedule_not_found" found
  require (row.revision == revision) "revision_conflict"
  check_actor actor
  require (may_act owner_only actor row) "unauthorized"
  pure row

abbrev pub system_actor : String → Schedule → Option String → Actor
system_actor name row event = record {
  tenant_id = row.tenant_id;
  actor_id = name;
  role = admin;
  source_event_id = event;
}

-- The optional parts of an audit.
pub record AuditParts : Type 0 where
  pub outbox : Option Outbox
  pub run : Option Run
  pub compact_skip : Option CompactSkip
  pub decision_code : Option String

abbrev pub no_parts : AuditParts
no_parts = record { outbox = none; run = none; compact_skip = none; decision_code = none }

abbrev pub about_run : Run → AuditParts
about_run run = record { outbox = none; run = some run; compact_skip = none; decision_code = none }

abbrev pub about_outbox : Option Outbox → Option String → AuditParts
about_outbox row code = record {
  outbox = row;
  run = none;
  compact_skip = none;
  decision_code = code;
}

-- The run of an audit: that of the outbox row, or the one given.
abbrev audit_run : AuditParts → Tables → Option Run
audit_run p s = elim p.outbox [ none ↦ p.run | some o ↦ get_run o.run_id s ]

abbrev snapshot_of : Option Run → Schedule → Tables → Option Revision
snapshot_of none after s = revision_of after.schedule_id after.revision s
snapshot_of (some run) after s = revision_of run.schedule_id run.revision s

abbrev audit_hash : AuditParts → Revision → String
audit_hash p snapshot = elim p.outbox [ none ↦ snapshot.content_hash | some o ↦ o.content_hash ]

abbrev audit_entry :
    Option AuditBefore → Schedule → Revision → String → Actor → ℕ → AuditParts → Option Run → Audit
audit_entry before after snapshot operation actor now p run = record {
  schedule_id = after.schedule_id;
  revision = snapshot.revision;
  tenant_id = after.tenant_id;
  actor_id = actor.actor_id;
  source_event_id = actor.source_event_id;
  operation = operation;
  before_json = before;
  after_json = record {
    row = after;
    snapshot = snapshot;
    content_hash = audit_hash p snapshot;
    compact_skip = p.compact_skip;
    decision_code = p.decision_code;
    run = run;
    outbox = p.outbox;
  };
  created_at = now;
}

abbrev pub before_part : Option Schedule → Db (Option AuditBefore)
before_part none = pure none
before_part (some row) = do
  found ← gets (revision_of row.schedule_id row.revision)
  revision ← required found
  pure (some (record { row = row; revision = revision }))

unfoldable pub audit : Option Schedule → Schedule → String → Actor → ℕ → AuditParts → Db Unit
unfolding get_run revision_of
audit before after operation actor now p = do
  run ← gets (audit_run p)
  found ← gets (snapshot_of run after)
  snapshot ← required found
  entry ← before_part before
  modify λ s. record s {
    audit = s.audit ++ audit_entry entry after snapshot operation actor now p run ∷ [];
  }

-- `auditOutbox`, with the schedule before it when one is given.
unfoldable pub audit_outbox : Outbox → String → ℕ → Option Schedule → Option String → Db Unit
unfolding get_run get get_outbox audit
audit_outbox row operation now before code = do
  found_run ← gets (get_run row.run_id)
  run ← required found_run
  found ← gets (get run.schedule_id)
  schedule ← required found
  current ← gets (get_outbox row.outbox_id now)
  audit (some (or_else before schedule)) schedule operation (system_actor "scheduler" schedule none)
      now (about_outbox current code)

-- `retireRevisions`: a revision ends now or at its expiry, and its content a week later.
abbrev pub ended_at : ℕ → Revision → ℕ
ended_at now r = or_else r.terminal_at (max r.created_at (min r.expires_at now))

abbrev pub retired : ℕ → Revision → Revision
retired now r = record r {
  terminal_at = some (ended_at now r);
  content_delete_at = some (elim r.content_delete_at [
    | none ↦ ended_at now r + week
    | some at ↦ min at (ended_at now r + week)
  ]);
}

abbrev retires : String → Option ℕ → Revision → Bool
retires id none r = text_eq r.schedule_id id
retires id (some n) r = revision_is id n r

unfoldable pub retire_revisions : String → ℕ → Option ℕ → Db Unit
unfolding text_discrete
retire_revisions id now only =
    modify λ s. record s { revisions = update_where (retires id only) (retired now) s.revisions }

unfoldable pub update_outbox : (Outbox → Bool) → (Outbox → Outbox) → Db Unit
update_outbox p f = modify λ s. record s { outbox = update_where p f s.outbox }

unfoldable pub update_runs : (Run → Bool) → (Run → Run) → Db Unit
update_runs p f = modify λ s. record s { runs = update_where p f s.runs }

unfoldable pub update_schedules : (Schedule → Bool) → (Schedule → Schedule) → Db Unit
update_schedules p f = modify λ s. record s { schedules = update_where p f s.schedules }
