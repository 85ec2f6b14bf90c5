-- ===== src/Schedules/Authorization.antt =====
-- dispatcher/src/scheduler/repository.ts: `validateRevision`, and `create` and `update`.
use Prim.Native.String
use dona.Prelude.{
  ℕ, String, Bool, true, false, not, ◌&&◌, ◌||◌, [], ◌∷◌, ◌++◌, Option, none, some, is_none,
  is_some, find?, count_where, text_eq, opt_text_eq, text_discrete, opt_text_discrete, ltb, ◌==◌,
  ◌+◌,
}
use dona.Exec.{pure, gets, modify, require, transaction, ◌>>=◌, ◌>>◌}
use dona.Schedules.Texts.{check_id, strip_revision, starts_with}
use dona.Schedules.Rows.{
  ScheduleState, Schedule, Revision, Run, Reason, OutboxStatus, Outbox, Action, Job,
  CompletionState, CompletionResult, Tables, Actor, reminder_post, work_read_only,
}
use dona.Schedules.Store.{
  Db, latest, required, get, revision_of, checked, check_actor, audit, no_parts, schedule_is,
  is_admin, retire_revisions, update_schedules,
}
use dona.Schedules.Settle.{suppress}
use dona.Schedules.Drain.{schedule_times}
use dona.Schedules.Outboxes.{is_over, run_in_review}
use dona.Schedules.Receipts.{has_credential_pattern}
use dona.Schedules.Content.{is_safe, is_blank}
use dona.Schedules.Delivery.{Host}
use dona.Schedules.Inputs.{
  Codecs, RevisionInput, authorization_ok, content_limit, is_canonical, is_work, no_credential,
  target_ids, target_ok,
}

module _ (codecs : Codecs) where
  abbrev metadata_ok : RevisionInput → Bool
  metadata_ok input =
      opt_text_eq input.timezone (codecs.parse input.recurrence_json).1.0
      && opt_text_eq input.tzdb_version (codecs.parse input.recurrence_json).1.1

  unfoldable pub validate_revision : RevisionInput → String → String → ℕ → Db Unit
  unfolding check_id has_credential_pattern authorization_ok is_blank is_safe target_ids target_ok
      text_discrete opt_text_discrete
  validate_revision input who tenant now = do
    check_id input.authorization_id
    check_id input.approver_id
    require (no_credential input.authorization_id) "invalid_authorization"
    require (ltb 0 input.authorization_revision) "invalid_authorization"
    require (authorization_ok input who now) "invalid_authorization"
    require (not (is_work input.action && is_blank input.content)) "invalid_content"
    require (is_safe input.content (content_limit input.action)) "content_requires_redaction"
    require (target_ids input.target) "invalid_identity"
    require (target_ok input who tenant) "invalid_target"
    require
        (is_canonical (codecs.recurrence input.recurrence_json) input.recurrence_json
          && is_canonical (codecs.policy input.policy_json) input.policy_json)
        "noncanonical_domain_document"
    require (metadata_ok input) "domain_metadata_conflict"

  abbrev scope_of : Action → String
  scope_of reminder_post = "fixed_body"
  scope_of work_read_only = "fixed_objective_redacted_result"

  abbrev new_revision : Host → String → ℕ → RevisionInput → ℕ → Revision
  new_revision h id n input now = record {
    schedule_id = id;
    revision = n;
    recurrence_json = (codecs.parse input.recurrence_json).0;
    recurrence_hash = h.digest input.recurrence_json;
    policy_json = input.policy_json;
    policy_version = input.policy_version;
    timezone = input.timezone;
    tzdb_version = input.tzdb_version;
    authorization_id = input.authorization_id;
    authorization_revision = input.authorization_revision;
    content_scope = scope_of input.action;
    approver_id = input.approver_id;
    approved_at = input.approved_at;
    expires_at = input.expires_at;
    action = input.action;
    target_json = input.target;
    content = some input.content;
    content_hash = h.digest input.content;
    content_delete_at = none;
    created_at = now;
    terminal_at = none;
  }

  unfoldable insert_revision : Host → String → ℕ → RevisionInput → ℕ → Db Unit
  insert_revision h id n input now =
      modify λ s. record s { revisions = s.revisions ++ new_revision h id n input now ∷ [] }

  abbrev counts_for_tenant : String → Schedule → Bool
  counts_for_tenant tenant r = text_eq r.tenant_id tenant && not (is_over r.state)

  abbrev counts_for_owner : String → String → Schedule → Bool
  counts_for_owner tenant who r = counts_for_tenant tenant r && text_eq r.owner_id who

  unfoldable pub within_quota : String → String → Tables → Bool
  unfolding text_discrete
  within_quota tenant who s =
      ltb (count_where (counts_for_tenant tenant) s.schedules) 100
      && ltb (count_where (counts_for_owner tenant who) s.schedules) 20

  abbrev new_schedule : String → Actor → ℕ → ℕ → ℕ → Option String → String → Schedule
  new_schedule id actor next_due now sequence key hash = record {
    schedule_id = id;
    tenant_id = actor.tenant_id;
    owner_id = actor.actor_id;
    state = ScheduleState.active;
    revision = 1;
    next_due = some next_due;
    high_watermark = none;
    created_at = now;
    updated_at = now;
    terminal_at = none;
    list_sequence = sequence;
    idempotency_key_hash = key;
    create_payload_hash = hash;
  }

  -- INSERT INTO schedules, whose key is `schedule_id`.
  unfoldable insert_schedule : Schedule → Db Unit
  unfolding get
  insert_schedule row = do
    taken ← gets (get row.schedule_id)
    require (is_none taken) "UNIQUE constraint failed"
    modify λ s. record s { schedules = s.schedules ++ row ∷ [] }

  -- `fingerprint` stands for `definitionFingerprint` of what is to be done.
  unfoldable pub create :
      Host
      → (RevisionInput → String)
      → String
      → RevisionInput
      → ℕ
      → Actor
      → ℕ
      → Option String
      → Db Schedule
  unfolding check_id check_actor validate_revision within_quota insert_schedule insert_revision get
      audit
  create h fingerprint id input next_due actor now key = do
    check_id id
    check_actor actor
    require (not (is_admin actor.role) && ltb now next_due) "invalid_creation"
    validate_revision input actor.actor_id actor.tenant_id now
    require (input.authorization_revision == 1) "authorization_revision_conflict"
    transaction do
      free ← gets (within_quota actor.tenant_id actor.actor_id)
      require free "quota_exceeded"
      sequence ← gets Tables.next_value
      modify λ s. record s { next_value = s.next_value + 1 }
      insert_schedule (new_schedule id actor next_due now sequence key (fingerprint input))
      insert_revision h id 1 input now
      found ← gets (get id)
      row ← required found
      audit none row "create" actor now no_parts
      pure row

  abbrev is_renewable : ScheduleState → Bool
  is_renewable s = not (is_over s)

  abbrev past : Option ℕ → ℕ → Bool
  past none t = true
  past (some a) t = ltb a t

  abbrev stuck_job : Run → Job → Bool
  stuck_job run j = opt_text_eq run.job_id (some j.job_id) && text_eq j.status "needs_review"

  abbrev stuck_outbox : Run → Outbox → Bool
  stuck_outbox run o =
      text_eq o.run_id run.run_id && elim o.status [ OutboxStatus.needs_review ↦ true | _ ↦ false ]

  abbrev is_open_notice : CompletionState → Bool
  is_open_notice CompletionState.pending = true
  is_open_notice CompletionState.failed = true
  is_open_notice CompletionState.needs_review = true
  is_open_notice s = false

  abbrev stuck_notice : Run → CompletionResult → Bool
  stuck_notice run c = text_eq c.owner_run_id run.run_id && is_open_notice c.notification_state

  -- A run that has to be reconciled first.
  unfoldable needs_reconcile : String → Tables → Run → Bool
  unfolding text_discrete opt_text_discrete
  needs_reconcile id s run =
      text_eq run.schedule_id id
      && (run_in_review run.status
          || is_some (find? (stuck_job run) s.jobs)
          || is_some (find? (stuck_outbox run) s.outbox)
          || is_some (find? (stuck_notice run) s.completions))

  -- An authorization is used once: the same event is not taken again.
  unfoldable reuses : String → String → Revision → Bool
  unfolding starts_with text_discrete
  reuses id event v =
      text_eq v.schedule_id id
      && (text_eq v.authorization_id event
          || starts_with (String.◌++◌ event ":") v.authorization_id)

  abbrev renewed : ℕ → ℕ → Schedule → Schedule
  renewed next_due at r = record r {
    revision = r.revision + 1;
    state = ScheduleState.active;
    next_due = some next_due;
    updated_at = at;
    terminal_at = none;
  }

  unfoldable pub update : Host → String → ℕ → RevisionInput → ℕ → Actor → ℕ → Db Schedule
  unfolding checked revision_of needs_reconcile validate_revision reuses suppress retire_revisions
      insert_revision update_schedules get audit strip_revision text_discrete
  update h id expected_revision input next_due actor now = transaction do
    before ← checked id expected_revision actor true
    let at = latest now (schedule_times before)
    require (is_renewable before.state && ltb at next_due) "invalid_transition"
    require (past before.high_watermark next_due) "invalid_next_due"
    unsettled ← gets λ s. find? (needs_reconcile id s) s.runs
    require (is_none unsettled) "reconcile_required"
    validate_revision input before.owner_id before.tenant_id at
    reused ← gets λ s. find? (reuses id (strip_revision input.authorization_id)) s.revisions
    require (input.authorization_revision == expected_revision + 1 && is_none reused)
        "authorization_revision_conflict"
    suppress id at Reason.revision_replaced
    retire_revisions id at (some expected_revision)
    insert_revision h id (expected_revision + 1) input at
    update_schedules (schedule_is id) (renewed next_due at)
    found ← gets (get id)
    after ← required found
    audit (some before) after "update" actor at no_parts
    pure after
