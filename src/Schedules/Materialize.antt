-- ===== src/Schedules/Materialize.antt =====
-- dispatcher/src/scheduler/repository.ts: an occurrence of a schedule becomes a run, once.
use dona.Prelude.{
  ℕ, String, Bool, true, false, not, ◌&&◌, ◌||◌, List, [], ◌∷◌, ◌++◌, Option, none, some, is_none,
  is_some, find?, text_eq, text_discrete, ltb, leb, ◌==◌, ◌-◌, if◌then◌else◌, opt_is,
}
use dona.Exec.{raise, gets, modify, require, ◌>>=◌, ◌>>◌}
use dona.Dispatcher.Events.{EventRow}
use dona.Schedules.Rows.{
  Schedule, Claim, Revision, Run, RunStatus, Reason, Target, CompactSkip, CompletionState,
  CompletionResult, Tables, Actor,
}
use dona.Schedules.Store.{Db, opt_leb, misfire_grace}
use dona.Schedules.Settle.{is_unresolved}
use dona.Schedules.Drain.{is_active, has_open_outbox}
use dona.Schedules.Claims.{claim_of}

-- The event of an occurrence of work.
pub record WorkEvent : Type 0 where
  pub external_event_id : String
  pub occurred_at : ℕ
  pub tenant_id : String
  pub owner_id : String
  pub schedule_id : String
  pub run_id : String
  pub revision : ℕ
  pub occurrence_key : String
  pub objective : Option String
  pub result_destination : Target
  pub authorization_target : Option (String × String)

-- What `enqueue` answers.
pub record EnqueueResult : Type 0 where
  pub event_id : String
  pub duplicate : Bool
  pub payload_mismatch : Bool

-- The rest that the repository is given: `enqueue`, the text of an instant, and what JSON.parse finds
-- of a workspace and a channel in a reply target.
pub record Queue : Type 0 where
  pub enqueue : WorkEvent → ℕ → List EventRow → EnqueueResult × List EventRow
  pub instant_text : ℕ → String
  pub reply_place : String → Option (String × String)

-- The claim that a caller of `materialize` holds.
pub record HeldClaim : Type 0 where
  pub owner : String
  pub fence : ℕ
  pub occurrence_key : String

pub record Request : Type 0 where
  pub schedule_id : String
  pub expected_revision : ℕ
  pub scheduled_for : ℕ
  pub next_due : Option ℕ
  pub now : ℕ
  pub actor : Actor
  pub skip : Option Reason
  pub compact_skip : Option CompactSkip
  pub claim : Option HeldClaim

abbrev pub is_held : HeldClaim → ℕ → Claim → Bool
is_held held now c =
    opt_is held.owner c.claim_owner
    && c.claim_fence == held.fence
    && is_some c.claim_until
    && not (opt_leb c.claim_until now)

abbrev pub held_claim : HeldClaim → ℕ → Option Claim → Bool
held_claim held now none = false
held_claim held now (some c) = is_held held now c

abbrev pub stands : Option HeldClaim → ℕ → Option Claim → Bool
stands none now c = true
stands (some held) now c = held_claim held now c

unfoldable pub claim_stands : Request → Tables → Bool
unfolding claim_of text_discrete
claim_stands q s = stands q.claim q.now (claim_of q.schedule_id s)

abbrev occurrence_is : String → ℕ → Run → Bool
occurrence_is id at run = text_eq run.schedule_id id && run.scheduled_for == at

unfoldable pub occurrence_of : String → ℕ → Tables → Option Run
unfolding text_discrete
occurrence_of id at s = find? (occurrence_is id at) s.runs

abbrev pub after_opt : Option ℕ → ℕ → Bool
after_opt none t = true
after_opt (some u) t = ltb u t

abbrev later_than : ℕ → Option ℕ → Bool
later_than t none = true
later_than t (some u) = ltb t u

-- `nextDue <= scheduledFor || nextDue <= materializedAt` is refused.
abbrev pub next_due_ok : Request → ℕ → Bool
next_due_ok q at = later_than q.scheduled_for q.next_due && later_than at q.next_due

-- The occurrence is due, at or after the next one, and past the watermark.
abbrev pub occurrence_ok : Request → ℕ → Schedule → Bool
occurrence_ok q at row =
    is_active row.state
    && leb q.scheduled_for at
    && opt_leb row.next_due q.scheduled_for
    && after_opt row.high_watermark q.scheduled_for

abbrev is_next : ℕ → Option ℕ → Bool
is_next at none = false
is_next at (some due) = at == due

abbrev compact_ok : Request → ℕ → Option ℕ → CompactSkip → Bool
compact_ok q at next skip =
    is_next skip.from_time next
    && leb skip.from_time skip.through
    && ltb skip.through q.scheduled_for
    && ltb misfire_grace (at - skip.through)
    && ltb 0 skip.count

-- Occurrences that are skipped over are named.
abbrev pub check_compact : Request → ℕ → Schedule → Revision → Option CompactSkip → Db Unit
check_compact q at row revision none =
    require (is_next q.scheduled_for row.next_due) "compact_skip_required"
check_compact q at row revision (some skip) =
    if is_next q.scheduled_for row.next_due
    then raise "invalid_compact_skip"
    else (if revision.recurrence_json.is_once
        then raise "compact_skip_required"
        else require (compact_ok q at row.next_due skip) "invalid_compact_skip")

abbrev is_waiting_notice : CompletionState → Bool
is_waiting_notice CompletionState.pending = true
is_waiting_notice CompletionState.needs_review = true
is_waiting_notice s = false

abbrev waiting_notice_of : Run → CompletionResult → Bool
waiting_notice_of run c =
    text_eq c.owner_run_id run.run_id && is_waiting_notice c.notification_state

unfoldable blocks_next : String → Tables → Run → Bool
unfolding has_open_outbox text_discrete
blocks_next id s run =
    text_eq run.schedule_id id
    && (is_unresolved run.status
        || has_open_outbox s.outbox run
        || is_some (find? (waiting_notice_of run) s.completions))

-- Why the occurrence is skipped, if it is: too late, or while another is open.
unfoldable pub skip_reason : Request → ℕ → Tables → Option Reason
unfolding blocks_next
skip_reason q at s =
    if ltb misfire_grace (at - q.scheduled_for)
    then some Reason.misfire
    else (if is_some (find? (blocks_next q.schedule_id s) s.runs)
        then some Reason.overlap
        else none)

abbrev same_reason : Reason → Reason → Bool
same_reason Reason.misfire Reason.misfire = true
same_reason Reason.overlap Reason.overlap = true
same_reason a b = false

abbrev pub skip_ok : Option Reason → Option Reason → Bool
skip_ok none reason = true
skip_ok (some asked) none = false
skip_ok (some asked) (some reason) = same_reason asked reason

abbrev pub key_of : Queue → Request → String
key_of queue q = elim q.claim [
  | none ↦ queue.instant_text q.scheduled_for
  | some held ↦ held.occurrence_key
]

abbrev pub new_run : Request → String → String → ℕ → Option Reason → Run
new_run q run_id key at reason = record {
  run_id = run_id;
  schedule_id = q.schedule_id;
  revision = q.expected_revision;
  occurrence_key = key;
  scheduled_for = q.scheduled_for;
  status = elim reason [ none ↦ RunStatus.materialized | some r ↦ RunStatus.skipped ];
  reason = reason;
  event_id = none;
  job_id = none;
  created_at = at;
  started_at = none;
  terminal_at = elim reason [ none ↦ none | some r ↦ some at ];
}

-- The keys of `schedule_runs`.
abbrev pub clashes : Run → Run → Bool
clashes new run =
    text_eq run.run_id new.run_id
    || text_eq run.schedule_id new.schedule_id
      && (text_eq run.occurrence_key new.occurrence_key || run.scheduled_for == new.scheduled_for)

unfoldable pub insert_run : Run → Db Unit
unfolding text_discrete
insert_run run = do
  taken ← gets λ s. find? (clashes run) s.runs
  require (is_none taken) "UNIQUE constraint failed"
  modify λ s. record s { runs = s.runs ++ run ∷ [] }
