-- ===== src/Updater/Fencing.antt =====
-- The fences that a request has passed, and the mutations of updater/src/database.ts that name them.
use dona.Prelude.{
  ℕ, ◌<◌, String, Bool, true, List, [], ◌∷◌, Option, none, some, ◌≡◌, ◌≢◌, refl, subst,
  text_discrete, ◌==◌, find?, count_where, update_where-none, arith,
}
use dona.Exec.{Exec, err, ◌>>=◌, modify, require, transaction}
use dona.Updater.State.{UpdateState}
use dona.Updater.Rows.{UpdateRow, Details}
use dona.Updater.Store.{
  Store, Error, has_request_id, is_at_fence, get, get_required, update_requests, stale_fence,
  lease_renewal_fenced, lease_assertion_fenced, generation_fenced, restart_fenced,
  reconcile_defer_fenced, reconcile_clear_fenced,
}
use dona.Updater.Mutation.{Assign}
use dona.Updater.Requests.{CanonicalPlan}
use dona.Updater.Fenced.{
  renew_lease, assert_lease, transition, terminal, record_activation_generation,
  increment_restart_attempts, defer_reconcile, clear_reconcile,
}
use dona.Updater.Calls.{Call, run}
use dona.Updater.History.{IsUnique, Evolved}
use dona.Updater.History.Runs.{run-History}

absent-count :
    (id : String) (fence : ℕ) (p : UpdateRow → Bool) (rs : List UpdateRow)
    → ((r : UpdateRow) → p r ≡ true → is_at_fence id fence r ≡ true)
    → find? (has_request_id id) rs ≡ none
    → count_where p rs ≡ 0
unfolding find? count_where
absent-count id fence p [] only e = refl
absent-count id fence p (r ∷ rs) only e = ground (arith, only r, absent-count id fence p rs only)

other_fence-count :
    (id : String) (fence : ℕ) (p : UpdateRow → Bool) (rs : List UpdateRow) (row : UpdateRow)
    → ((r : UpdateRow) → p r ≡ true → is_at_fence id fence r ≡ true)
    → IsUnique rs
    → find? (has_request_id id) rs ≡ some row
    → row.fence ≢ fence
    → count_where p rs ≡ 0
unfolding find? count_where
other_fence-count id fence p [] row only u e n = refl
other_fence-count id fence p (r ∷ rs) row only u e n = elim (text_discrete r.request_id id) [
  | yes i ↦
      let absent : find? (has_request_id id) rs ≡ none =
        subst (λ (k : String). find? (has_request_id k) rs ≡ none) i u.0 in
      ground (arith, only r, absent-count id fence p rs only absent)
  | no i ↦ ground (arith, only r, other_fence-count id fence p rs row only u.1 (ground arith) n)
]

-- The request is there, and not at this fence.
pub record HasPassed (id : String) (fence : ℕ) (t : Store) : Type 0 where
  pub unique : IsUnique t.requests
  pub row : UpdateRow
  pub found : get id t ≡ some row
  pub passed : row.fence ≢ fence

module _ (id : String) (fence : ℕ) (t : Store) (h : HasPassed id fence t) where
  update_requests-rejects :
      (p : UpdateRow → Bool) (f : UpdateRow → UpdateRow) (e : Error)
      → ((r : UpdateRow) → p r ≡ true → is_at_fence id fence r ≡ true)
      → update_requests p f e t ≡ (err e, t)
  unfolding update_requests ◌>>=◌ modify require get
  update_requests-rejects p f e only =
      let none_changed : count_where p t.requests ≡ 0 =
        other_fence-count id fence p t.requests h.row only h.unique h.found h.passed in
      rw (none_changed, update_where-none p f t.requests none_changed)

  -- `row.fence !== fence` after `getRequired`.
  stale_check :
      {A : Type 0} (f : UpdateRow → Unit {0} → Exec Error Store A)
      → transaction
          (get_required id >>= λ row. require (row.fence == fence) stale_fence >>= f row)
          t
        ≡ (err stale_fence, t)
  unfolding transaction get_required ◌>>=◌ require
  stale_check f = rw (h.found) (ground (arith, h.passed))

module _ (id : String) (fence : ℕ) (t : Store) (h : HasPassed id fence t) where
  assertion-rejects :
      (owner : String) (at : ℕ) → assert_lease id fence owner at t ≡ (err lease_assertion_fenced, t)
  unfolding assert_lease ◌>>=◌ require
  assertion-rejects owner at = rw (h.found) (ground (arith, h.passed))

-- What every mutation that names the fence does.
pub record IsDead (id : String) (fence : ℕ) (t : Store) : Type 0 where
  pub transition_rejected :
      (to : UpdateState) (code : String) (fields : List Assign) (at : ℕ)
      → transition id fence to code fields at t ≡ (err stale_fence, t)
  pub terminal_rejected :
      (to : UpdateState) (code : String) (fields : List Assign) (at : ℕ) (details : Details)
      → terminal id fence to code fields at details t ≡ (err stale_fence, t)
  pub renewal_rejected :
      (owner : String) (lease_ms at : ℕ)
      → renew_lease id fence owner lease_ms at t ≡ (err lease_renewal_fenced, t)
  pub assertion_rejected :
      (owner : String) (at : ℕ) → assert_lease id fence owner at t ≡ (err lease_assertion_fenced, t)
  pub generation_rejected :
      (generation at : ℕ)
      → record_activation_generation id fence generation at t ≡ (err generation_fenced, t)
  pub restart_rejected :
      (at : ℕ) → increment_restart_attempts id fence at t ≡ (err restart_fenced, t)
  pub defer_rejected :
      (code message : String) (after deadline at : ℕ)
      → defer_reconcile id fence code message after deadline at t ≡ (err reconcile_defer_fenced, t)
  pub clear_rejected : (at : ℕ) → clear_reconcile id fence at t ≡ (err reconcile_clear_fenced, t)

HasPassed-IsDead : (id : String) (fence : ℕ) (t : Store) → HasPassed id fence t → IsDead id fence t
unfolding transition terminal renew_lease assert_lease record_activation_generation
    increment_restart_attempts defer_reconcile clear_reconcile
HasPassed-IsDead id fence t h = record {
  transition_rejected = λ to code fields at. stale_check id fence t h _;
  terminal_rejected = λ to code fields at details. stale_check id fence t h _;
  renewal_rejected =
      λ owner lease_ms at. update_requests-rejects id fence t h _ _ _ (λ r p. ground arith);
  assertion_rejected = λ owner at. assertion-rejects id fence t h owner at;
  generation_rejected = λ generation at. update_requests-rejects id fence t h _ _ _ (λ r p. p);
  restart_rejected = λ at. update_requests-rejects id fence t h _ _ _ (λ r p. p);
  defer_rejected = λ code message after deadline at.
      update_requests-rejects id fence t h _ _ _ (λ r p. ground arith);
  clear_rejected = λ at. update_requests-rejects id fence t h _ _ _ (λ r p. p);
}

later_fence :
    (o : Option UpdateRow) (row : UpdateRow) (fence : ℕ)
    → Evolved (some row) o
    → fence < row.fence
    → (r : UpdateRow) × (o ≡ some r) × (r.fence ≢ fence)
later_fence none row fence h b = absurd h
later_fence (some r) row fence h b = (r, refl, omega (arith, h.fence_grows))

-- Once a request has a higher fence than the one that a holder knows, then after any calls every
-- mutation of that holder is rejected with its fencing error and leaves the store as it is.
pub passed_fence-IsDead :
    (sha256 : CanonicalPlan → String) (calls : List Call) (s : Store) (id : String) (fence : ℕ)
    (row : UpdateRow)
    → IsUnique s.requests
    → get id s ≡ some row
    → fence < row.fence
    → IsDead id fence (run sha256 calls s)
passed_fence-IsDead sha256 calls s id fence row u found below =
    let e = run-History sha256 calls s u in
    let (r, now, passed) =
      later_fence (get id (run sha256 calls s)) row fence
        (subst (λ o. Evolved o (get id (run sha256 calls s))) found (e.rows id)) below in
    HasPassed-IsDead id fence (run sha256 calls s)
      (record { unique = e.unique; row = r; found = now; passed = passed })
