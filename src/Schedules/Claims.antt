-- ===== src/Schedules/Claims.antt =====
-- dispatcher/src/scheduler/repository.ts: the schedules that are due, their claims and their expiry.
use dona.Prelude.{
  head, ℕ, String, Bool, true, false, not, ◌&&◌, ◌||◌, List, [], ◌∷◌, ◌++◌, Option, none, some,
  is_none, find?, update_where, select_where, count_where, text_eq, text_discrete, ltb, leb, ◌==◌,
  ◌+◌, if◌then◌else◌, opt_is, sort_with, take, length,
}
use dona.Exec.{pure, gets, modify, require, transaction, ◌>>=◌, ◌>>◌}
use dona.Schedules.Texts.{text_leb, check_id}
use dona.Schedules.Rows.{Schedule, Claim, Revision, Tables}
use dona.Schedules.Store.{Db, or_else, opt_leb, required, get, revision_of, system_actor}
use dona.Schedules.Drain.{is_active, expire_schedule}

abbrev pub claim_is : String → Claim → Bool
claim_is id c = text_eq c.schedule_id id

abbrev pub in_range : ℕ → ℕ → ℕ → Bool
in_range low high n = leb low n && leb n high

abbrev pub is_due : ℕ → Schedule → Bool
is_due now r = is_active r.state && opt_leb r.next_due now

-- ORDER BY next_due, schedule_id
abbrev pub due_before : Schedule → Schedule → Bool
due_before a b =
    if ltb (or_else a.next_due 0) (or_else b.next_due 0)
    then true
    else (if or_else a.next_due 0 == or_else b.next_due 0
        then text_leb a.schedule_id b.schedule_id
        else false)

unfoldable pub due : ℕ → ℕ → Db (List Schedule)
unfolding text_leb sort_with
due now limit = do
  require (in_range 1 100 limit) "invalid_limit"
  gets λ s. take limit (sort_with due_before (select_where (is_due now) s.schedules))

-- A claim that nobody holds at this time.
abbrev pub is_free : ℕ → Claim → Bool
is_free now c = is_none c.claim_until || opt_leb c.claim_until now

abbrev pub free_claim : ℕ → Option Claim → Bool
free_claim now none = true
free_claim now (some c) = is_free now c

unfoldable pub claim_of : String → Tables → Option Claim
unfolding text_discrete
claim_of id s = find? (claim_is id) s.claims

abbrev names : List String → String → Bool
names [] id = false
names (x ∷ xs) id = text_eq id x || names xs id

unfoldable pub is_claimable : ℕ → List String → Tables → Schedule → Bool
unfolding claim_of text_discrete
is_claimable now excluded s r =
    is_due now r && free_claim now (claim_of r.schedule_id s) && not (names excluded r.schedule_id)

unfoldable pub next_due_schedule : ℕ → List String → Tables → Option Schedule
unfolding is_claimable text_leb sort_with
next_due_schedule now excluded s =
    head (sort_with due_before (select_where (is_claimable now excluded s) s.schedules))

abbrev pub claimed_by : String → ℕ → Claim → Claim
claimed_by owner until c = record c {
  claim_owner = some owner;
  claim_until = some until;
  claim_fence = c.claim_fence + 1;
}

abbrev pub takes_claim : String → ℕ → Claim → Bool
takes_claim id now c = claim_is id c && is_free now c

abbrev pub first_claim : String → String → ℕ → Claim
first_claim id owner until = record {
  schedule_id = id;
  claim_owner = some owner;
  claim_until = some until;
  claim_fence = 1;
}

-- INSERT … ON CONFLICT DO UPDATE … WHERE the claim is free.
abbrev pub put_claim : String → String → ℕ → ℕ → Option Claim → List Claim → List Claim
put_claim id owner until now none cs = cs ++ first_claim id owner until ∷ []
put_claim id owner until now (some c) cs =
    update_where (takes_claim id now) (claimed_by owner until) cs

unfoldable pub upsert_claim : String → String → ℕ → ℕ → Db Unit
unfolding claim_of text_discrete
upsert_claim id owner until now =
    modify λ s. record s { claims = put_claim id owner until now (claim_of id s) s.claims }

abbrev pub held_by : String → String → Claim → Bool
held_by id owner c = claim_is id c && opt_is owner c.claim_owner

abbrev pub with_claim : Schedule → Option Claim → Option (Schedule × Claim)
with_claim row none = none
with_claim row (some c) = some (row, c)

unfoldable pub claim_found : String → ℕ → ℕ → Option Schedule → Db (Option (Schedule × Claim))
unfolding upsert_claim get text_discrete
claim_found owner now lease none = pure none
claim_found owner now lease (some r) = do
  upsert_claim r.schedule_id owner (now + lease) now
  claim ← gets λ s. find? (held_by r.schedule_id owner) s.claims
  found ← gets (get r.schedule_id)
  row ← required found
  pure (with_claim row claim)

unfoldable pub check_ids : List String → Db Unit
unfolding check_id
check_ids [] = pure tt
check_ids (id ∷ ids) = check_id id >> check_ids ids

unfoldable pub claim_due : String → ℕ → ℕ → List String → Db (Option (Schedule × Claim))
unfolding check_id check_ids next_due_schedule claim_found
claim_due owner now lease excluded = do
  check_id owner
  require (in_range 1 300 lease) "invalid_lease"
  require (leb (length excluded) 100) "invalid_limit"
  check_ids excluded
  transaction do found ← gets (next_due_schedule now excluded); claim_found owner now lease found

abbrev pub released : Claim → Claim
released c = record c { claim_owner = none; claim_until = none }

abbrev owned_by : String → Claim → Bool
owned_by owner c = opt_is owner c.claim_owner

unfoldable pub release_claims : String → Db ℕ
unfolding check_id text_discrete
release_claims owner = do
  check_id owner
  changes ← gets λ s. count_where (owned_by owner) s.claims
  modify λ s. record s { claims = update_where (owned_by owner) released s.claims }
  pure changes

-- The claim of a schedule given up.
unfoldable pub drop_claim : String → Db Unit
unfolding text_discrete
drop_claim id = modify λ s. record s { claims = update_where (claim_is id) released s.claims }

abbrev expired_revision : ℕ → Option Revision → Bool
expired_revision now none = false
expired_revision now (some v) = leb v.expires_at now

unfoldable is_expired_due : ℕ → Tables → Schedule → Bool
unfolding revision_of
is_expired_due now s r =
    is_due now r && expired_revision now (revision_of r.schedule_id r.revision s)

unfoldable pub expire_rows : List Schedule → ℕ → Db Unit
unfolding expire_schedule
expire_rows [] now = pure tt
expire_rows (row ∷ rows) now =
    expire_schedule row (system_actor "scheduler" row none) now >> expire_rows rows now

unfoldable pub expire_due : ℕ → ℕ → Db ℕ
unfolding is_expired_due expire_rows text_leb sort_with
expire_due now limit = do
  require (in_range 1 100 limit) "invalid_limit"
  transaction do
    rows ←
        gets
          λ s. take limit (sort_with due_before (select_where (is_expired_due now s) s.schedules))
    expire_rows rows now
    pure (length rows)
