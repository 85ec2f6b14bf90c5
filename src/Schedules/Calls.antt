-- ===== src/Schedules/Calls.antt =====
-- Nine methods of dispatcher/src/scheduler/repository.ts by which a row of the outbox changes hands,
-- in any order. The purge, which deletes rows, is not one of them.
use dona.Prelude.{◌≡◌, refl, subst, ℕ, String, Bool, Option, none, some, List, [], ◌∷◌, ◌≤◌}
use dona.Exec.Leads.{Leads, Leads-pure, Leads-bind, Leads-gets, Leads-transaction, Leads-require}
use dona.Schedules.Rows.{Outbox, OutboxKind, Tables, Target, Actor, Schedule}
use dona.Schedules.Store.{outbox_row, system_actor}
use dona.Schedules.Outboxes.{recover}
use dona.Schedules.Delivery.{Host, insert_outbox, claim_batch}
use dona.Schedules.Finish.{Outcome, request_started}
use dona.Schedules.Settlement.{finish_write}
use dona.Schedules.Reconcile.{
  Finding, reject_claim_before_write, finish_write_after_preflight, reconcile,
}
use dona.Schedules.Claims.{expire_due, expire_rows}
use dona.Schedules.Rowwise.{Kept, Distinct, outbox_ids}
use dona.Schedules.Quiet.{Leads-expire_schedule}
use dona.Schedules.Unsent.{Leads-Quiet}
use dona.Schedules.Custody.{stage, Custody, Custody-order, Quiet-Custody}
use dona.Schedules.Recovered.{Guarded, Guarded-order, Guarded-recover}
use dona.Schedules.Started.{Guarded-request_started}
use dona.Schedules.Taken.{Guarded-insert_outbox, Guarded-claim_batch}
use dona.Schedules.Outcomes.{Guarded-finish_write}
use dona.Schedules.Decisions.{
  Guarded-reject_claim_before_write, Guarded-reconcile, Guarded-finish_write_after_preflight,
}

pub data Call : Type 0 where
  enter : String → OutboxKind → Target → String → ℕ → Call
  recovers : ℕ → Bool → Call
  claims : ℕ → ℕ → Option OutboxKind → ℕ → Call
  starts : String → String → ℕ → Call
  finishes : String → String → Outcome → ℕ → Option String → ℕ → Option String → Call
  finishes_early : String → String → Outcome → ℕ → ℕ → String → Call
  rejects : String → String → ℕ → String → Call
  reconciles : String → Finding → String → Actor → ℕ → Call
  expires : ℕ → ℕ → Call

-- The tables after a call, whether it returns or throws.
unfoldable pub step : Host → Call → Tables → Tables
unfolding insert_outbox recover claim_batch request_started finish_write
    finish_write_after_preflight reject_claim_before_write reconcile expire_due
step h (enter run_id kind place content now) s = (insert_outbox h run_id kind place content now s).1
step h (recovers now all) s = (recover now all s).1
step h (claims now lease kind limit) s = (claim_batch h now lease kind limit s).1
step h (starts id token now) s = (request_started id token now s).1
step h (finishes id token outcome now receipt after code) s =
    (finish_write id token outcome now receipt after code s).1
step h (finishes_early id token outcome now after code) s =
    (finish_write_after_preflight id token outcome now after code s).1
step h (rejects id token now code) s = (reject_claim_before_write id token now code s).1
step h (reconciles id finding receipt actor now) s = (reconcile id finding receipt actor now s).1
step h (expires now limit) s = (expire_due now limit s).1

unfoldable pub run : Host → List Call → Tables → Tables
unfolding step
run h [] s = s
run h (c ∷ cs) s = run h cs (step h c s)

Guarded-expire_rows :
    (rows : List Schedule) (s : Tables) (now : ℕ) → Leads Guarded s (expire_rows rows now)
unfolding expire_rows
Guarded-expire_rows [] s now = Leads-pure Guarded-order s tt
Guarded-expire_rows (row ∷ rows) s now =
    Leads-bind Guarded-order s _ _
      (Leads-Quiet Custody-order Quiet-Custody s _
        (Leads-expire_schedule s row (system_actor "scheduler" row none) now))
      λ _ _. Guarded-expire_rows rows _ now

Guarded-expire_due : (s : Tables) (now limit : ℕ) → Leads Guarded s (expire_due now limit)
unfolding expire_due
Guarded-expire_due s now limit = Leads-require Guarded-order s _ _ _ λ _.
    Leads-transaction Guarded-order s _ (
      Leads-gets Guarded-order s _ _ (
        Leads-bind Guarded-order s _ _ (Guarded-expire_rows _ s now)
          λ _ _. Leads-pure Guarded-order _ _))

Guarded-step : (h : Host) (c : Call) (s : Tables) → Distinct (outbox_ids s) → Guarded s (step h c s)
unfolding step
Guarded-step h (enter run_id kind place content now) s d =
    (Guarded-insert_outbox h s run_id kind place content now).after
Guarded-step h (recovers now all) s d = (Guarded-recover s now all d).after
Guarded-step h (claims now lease kind limit) s d =
    (Guarded-claim_batch h now lease s kind limit d).after
Guarded-step h (starts id token now) s d = (Guarded-request_started s id token now).after
Guarded-step h (finishes id token outcome now receipt after code) s d =
    (Guarded-finish_write s id token outcome now receipt after code).after
Guarded-step h (finishes_early id token outcome now after code) s d =
    (Guarded-finish_write_after_preflight s id token outcome now after code).after
Guarded-step h (rejects id token now code) s d =
    (Guarded-reject_claim_before_write s id token now code).after
Guarded-step h (reconciles id finding receipt actor now) s d =
    (Guarded-reconcile s id finding receipt actor now).after
Guarded-step h (expires now limit) s d = (Guarded-expire_due s now limit).after

Guarded-run :
    (h : Host) (cs : List Call) (s : Tables) → Distinct (outbox_ids s) → Guarded s (run h cs s)
unfolding run
Guarded-run h [] s d = Guarded-order.same s
Guarded-run h (c ∷ cs) s d =
    let first = Guarded-step h c s d in
    Guarded-order.chain s (step h c s) (run h cs (step h c s)) first
      (Guarded-run h cs (step h c s) (first.distinct d))

Kept-Custody :
    (a b : Option Outbox) (r : Outbox)
    → Kept Custody a b
    → a ≡ some r
    → (t : Outbox) × (b ≡ some t) × Custody r t
Kept-Custody none b r k e = cc
Kept-Custody (some x) none r k e = absurd k
Kept-Custody (some x) (some t) r k e = let i : x ≡ r = cc in (t, refl, subst (λ y. Custody y t) i k)

-- When the ids of the outbox are distinct, then after any calls of insertOutbox, recover, claimBatch,
-- requestStarted, finishWrite, finishWriteAfterPreflight, rejectClaimBeforeWrite, reconcile and
-- expireDue every row is still there. Its stage
-- (open, in doubt, ended unsent, sent) has not fallen, so that a request that is in doubt or was
-- sent is never made again; and a row that ended unsent has not been sent.
pub run-Settled :
    (h : Host) (cs : List Call) (s : Tables) (id : String) (r : Outbox)
    → Distinct (outbox_ids s)
    → outbox_row id s ≡ some r
    → (t : Outbox) × (outbox_row id (run h cs s) ≡ some t)
      × (stage r.status ≤ stage t.status)
      × (stage r.status ≡ 2 → stage t.status ≡ 2)
run-Settled h cs s id r d e =
    let (t, f, k) = Kept-Custody _ _ r ((Guarded-run h cs s d).rows id) e in
    (t, f, k.further, k.ended_unsent)

-- When the ids of the outbox are distinct, a row with at most three attempts is still there and has
-- at most three after any calls of insertOutbox, recover, claimBatch, requestStarted, finishWrite,
-- finishWriteAfterPreflight, rejectClaimBeforeWrite, reconcile and expireDue.
pub run-attempts :
    (h : Host) (cs : List Call) (s : Tables) (id : String) (r : Outbox)
    → Distinct (outbox_ids s)
    → outbox_row id s ≡ some r
    → r.attempt ≤ 3
    → (t : Outbox) × (outbox_row id (run h cs s) ≡ some t) × (t.attempt ≤ 3)
run-attempts h cs s id r d e few =
    let (t, f, k) = Kept-Custody _ _ r ((Guarded-run h cs s d).rows id) e in
    (t, f, k.attempts_bounded few)
