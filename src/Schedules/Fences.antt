-- ===== src/Schedules/Fences.antt =====
-- The claims of schedules of dispatcher/src/scheduler/repository.ts: what `claimDue` gives out, and
-- what `materialize` takes.
use dona.Prelude.{
  ◌≡◌, refl, not, ap, sym, subst, ◌∙◌, ℕ, String, true, false, List, [], ◌∷◌, Option, none, some,
  All-head, All-sort_with, All-select_where, find?-holds, text_eq, opt_is, ◌+◌, ◌<◌, ◌==◌, arith,
}
use dona.Exec.{ok, pure}
use dona.Exec.Leads.{IsOrder, Leads-require}
use dona.Exec.Ends.{
  Ends, Ends-bind, Ends-pure, Ends-gets, Ends-require, Ends-transaction, Ends-modify, Ends-read,
}
use dona.Schedules.Rows.{Schedule, Claim, Tables}
use dona.Schedules.Store.{get, opt_leb}
use dona.Schedules.Texts.{check_id}
use dona.Schedules.Claims.{
  free_claim, claim_of, is_claimable, next_due_schedule, due_before, upsert_claim, with_claim,
  claim_found, claim_due, check_ids,
}
use dona.Schedules.Delivery.{Host}
use dona.Schedules.Materialize.{HeldClaim, Queue, Request, held_claim, stands, claim_stands}
use dona.Schedules.Occurrence.{Materialized, materialize, materialize_checked}
use dona.Schedules.Decisions.{checked_reads}
use dona.Schedules.Rowwise.{text_same}
use dona.Schedules.Started.{Ends-required, Ends-or_throw}
use dona.Schedules.Upsert.{IsGiven, claim_put, claims_put, held_put, put, put-IsGiven}

-- What is given out of the tables `s`, and stands in the tables after it.
Given : Tables → String → ℕ → ℕ → Option (Schedule × Claim) → Tables → Type 0
Given s owner now lease none t = Unit
Given s owner now lease (some (row, c)) t =
    IsGiven row.schedule_id owner now lease (claim_of row.schedule_id s) c
    × (claim_of row.schedule_id t ≡ some c)

given :
    (s t : Tables) (owner : String) (now lease : ℕ) (id : String) (row : Schedule)
    → row.schedule_id ≡ id
    → free_claim now (claim_of id s) ≡ true
    → claim_of id t ≡ some (put id owner (now + lease) now (claim_of id s))
    → Given s owner now lease
        (with_claim row (some (put id owner (now + lease) now (claim_of id s))))
        t
unfolding Given
given s t owner now lease id row e f k =
    subst
      (λ i.
        IsGiven i owner now lease (claim_of i s) (put id owner (now + lease) now (claim_of id s))
        × (claim_of i t ≡ some (put id owner (now + lease) now (claim_of id s))))
      (sym e) (put-IsGiven id owner now lease (claim_of id s) f, k)

own_schedule :
    (s : Tables) (id : String) (row : Schedule) → get id s ≡ some row → row.schedule_id ≡ id
unfolding get
own_schedule s id row e = text_same (find?-holds (λ r. text_eq r.schedule_id id) s.schedules row e)

abbrev tables_put : Tables → String → String → ℕ → ℕ → Tables
tables_put s id owner now lease = record s { claims = claims_put id owner (now + lease) now s }

Ends-claim_found :
    (s : Tables) (owner : String) (now lease : ℕ) (o : Option Schedule)
    → ((r : Schedule) → o ≡ some r → free_claim now (claim_of r.schedule_id s) ≡ true)
    → Ends (Given s owner now lease) s (claim_found owner now lease o)
unfolding claim_found upsert_claim Given claim_of
Ends-claim_found s owner now lease none f = Ends-pure _ s none tt
Ends-claim_found s owner now lease (some r) f = Ends-modify _ s _ _ (
    Ends-gets _ _ _ _ (
      Ends-gets _ _ _ _ (
        Ends-required _ _ _ _ λ row e. Ends-pure _ _ _ (
          rw (held_put r.schedule_id owner (now + lease) now s (f r refl)) (
            given s (tables_put s r.schedule_id owner now lease) owner now lease r.schedule_id row
              (own_schedule (tables_put s r.schedule_id owner now lease) r.schedule_id row e)
              (f r refl) (claim_put r.schedule_id owner (now + lease) now s (f r refl)))))))

claimable_free :
    (now : ℕ) (excluded : List String) (s : Tables) (r : Schedule)
    → is_claimable now excluded s r ≡ true
    → free_claim now (claim_of r.schedule_id s) ≡ true
unfolding is_claimable
claimable_free now excluded s r h = ground arith

next_free :
    (now : ℕ) (excluded : List String) (s : Tables) (r : Schedule)
    → next_due_schedule now excluded s ≡ some r
    → free_claim now (claim_of r.schedule_id s) ≡ true
unfolding next_due_schedule
next_free now excluded s r e = claimable_free now excluded s r (
    All-head (λ x. is_claimable now excluded s x ≡ true) _ r
      (All-sort_with _ due_before _ (All-select_where (is_claimable now excluded s) s.schedules)) e)

checks_read : (ids : List String) (s : Tables) → (check_ids ids s).1 ≡ s
unfolding check_ids check_id pure
checks_read [] s = refl
checks_read (id ∷ ids) s =
    (Leads-require unchanged s _ _ _ λ _. record { after = checks_read ids s }).after
  where
    unchanged : IsOrder {S = Tables} (λ s t. t ≡ s)
    unchanged = record { same = λ s. refl; chain = λ s t u h k. k ∙ h }

Ends-claim_due :
    (s : Tables) (owner : String) (now lease : ℕ) (excluded : List String)
    → Ends (Given s owner now lease) s (claim_due owner now lease excluded)
unfolding claim_due check_id
Ends-claim_due s owner now lease excluded = Ends-require _ s _ _ _ λ _. Ends-require _ s _ _ _ λ _.
    Ends-require _ s _ _ _ λ _. Ends-read _ s _ _ (checks_read excluded s) λ _ _.
      Ends-transaction _ s _ (
        Ends-gets _ s _ _
          (Ends-claim_found s owner now lease _ (λ r e. next_free now excluded s r e)))

-- A claim that `claimDue` returns has the owner, the lease from now, and a fence past the one before
-- it, which was free; and it is the claim of its schedule.
pub claim_due-IsGiven :
    (s t : Tables) (owner : String) (now lease : ℕ) (excluded : List String) (row : Schedule)
    (c : Claim)
    → claim_due owner now lease excluded s ≡ (ok (some (row, c)), t)
    → IsGiven row.schedule_id owner now lease (claim_of row.schedule_id s) c
      × (claim_of row.schedule_id t ≡ some c)
unfolding Given
claim_due-IsGiven s t owner now lease excluded row c e =
    (Ends-claim_due s owner now lease excluded).after (some (row, c)) t e

-- What a call of `materialize` that returns has checked.
Ends-stands :
    (h : Host) (queue : Queue) (q : Request) (s : Tables)
    → Ends (λ _ _. claim_stands q s ≡ true) s (materialize_checked h queue q)
unfolding materialize_checked
Ends-stands h queue q s = Ends-gets _ s _ _ (
    Ends-or_throw _ s _ _ _ λ current _.
      Ends-read _ s _ _ (checked_reads s q.schedule_id current.revision q.actor false) λ row _.
        Ends-gets _ s _ _
          (Ends-require _ s _ _ _ λ stood. Ends-gets _ s _ _ (record { after = λ m t e. stood })))

Ends-materialize_stands :
    (h : Host) (queue : Queue) (q : Request) (s : Tables)
    → Ends (λ _ _. claim_stands q s ≡ true) s (materialize h queue q)
unfolding materialize
Ends-materialize_stands h queue q s =
    Ends-bind _ s (λ _ _. claim_stands q s ≡ true) _ _
      (Ends-transaction _ s _ (Ends-stands h queue q s))
      λ m t stood. record { after = λ a u e. stood }

-- After `claimDue` has returned a claim, a call of `materialize` with a claim, for the same schedule
-- on the tables that it left, returns only if its claim has the fence and the owner of that one, and
-- before the lease ends.
pub claim_due-Excludes :
    (s t u : Tables) (owner : String) (now lease : ℕ) (excluded : List String) (row : Schedule)
    (c : Claim) (h : Host) (queue : Queue) (q : Request) (held : HeldClaim) (m : Materialized)
    → claim_due owner now lease excluded s ≡ (ok (some (row, c)), t)
    → q.schedule_id ≡ row.schedule_id
    → q.claim ≡ some held
    → materialize h queue q t ≡ (ok m, u)
    → (held.fence ≡ c.claim_fence) × (held.owner ≡ owner) × (q.now < now + lease)
unfolding claim_stands
claim_due-Excludes s t u owner now lease excluded row c h queue q held m e i k d =
    let (g, f) = claim_due-IsGiven s t owner now lease excluded row c e in
    let checked = (Ends-materialize_stands h queue q t).after m u d in
    let stood = subst (λ a. stands a q.now (claim_of q.schedule_id t) ≡ true) k checked in
    let taken = subst (λ b. held_claim held q.now b ≡ true) (ap (λ j. claim_of j t) i ∙ f) stood in
    (
      fence_taken (ground arith),
      owner_taken (subst (λ o. opt_is held.owner o ≡ true) g.owned (ground arith)),
      early c.claim_until g.leased (ground arith),
    )
  where
    fence_taken : (c.claim_fence == held.fence) ≡ true → held.fence ≡ c.claim_fence
    fence_taken e = ground arith

    owner_taken : opt_is held.owner (some owner) ≡ true → held.owner ≡ owner
    owner_taken e = sym (text_same e)

    early :
        (o : Option ℕ) → o ≡ some (now + lease) → not (opt_leb o q.now) ≡ true → q.now < now + lease
    early none e k = cc
    early (some w) e k = ground arith
