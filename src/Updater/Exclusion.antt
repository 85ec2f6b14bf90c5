-- ===== src/Updater/Exclusion.antt =====
-- The lease of a claim in updater/src/database.ts, and the claims of others.
use dona.Prelude.{
  ℕ, ◌+◌, ◌<◌, String, Bool, true, false, Option, none, some, ◌≡◌, ◌≢◌, refl, ap, subst, ◌∙◌, ◌||◌,
  find?, update_where, arith,
}
use dona.Exec.{ok, ◌>>=◌, require, transaction}
use dona.Exec.Ends.{Ends, Ends-pure, Ends-transaction, Ends-read, Ends-gets, Ends-modify, Ends-if}
use dona.Updater.State.{is_terminal}
use dona.Updater.Rows.{UpdateRow}
use dona.Updater.Store.{Store, has_request_id, is_at_fence, get, get_required}
use dona.Updater.Leases.{claim, claim_row, take_lease, held_by_other, other_active_held}
use dona.Updater.Fenced.{assert_lease}
use dona.Updater.Returns.{Ends-get_required, Ends-audit}
use dona.Updater.History.Statements.{find?-update_requests, get_self, has_request_id-get}
use dona.Updater.History.Mutations.{assert_change-same}

-- What a claim leaves: the lease of its owner, at the next fence, on the active request.
pub record Claimed (s : Store) (id owner : String) (lease_ms at : ℕ) (r : UpdateRow) (t : Store)
    : Type 0 where
  pub before : UpdateRow
  pub before_found : get id s ≡ some before
  pub row_found : get id t ≡ some r
  pub owned : r.lease_owner ≡ some owner
  pub expires : r.lease_expires_at ≡ some (at + lease_ms)
  pub next_fence : r.fence ≡ before.fence + 1
  pub active : t.active_request_id ≡ some id

abbrev ClaimEnds :
    Store → (id owner : String) → (lease_ms at : ℕ) → Option UpdateRow → Store → Type 0
ClaimEnds s id owner lease_ms at none t = t ≡ s
ClaimEnds s id owner lease_ms at (some r) t = Claimed s id owner lease_ms at r t

module _ (s : Store) (row : UpdateRow) (found : get row.request_id s ≡ some row) where
  get-take_lease :
      (owner : String) (lease_ms at : ℕ)
      → find? (has_request_id row.request_id) (
          update_where
            (is_at_fence row.request_id row.fence)
            (take_lease row owner lease_ms at)
            s.requests)
        ≡ some (take_lease row owner lease_ms at row)
  unfolding get take_lease
  get-take_lease owner lease_ms at =
      find?-update_requests (is_at_fence row.request_id row.fence)
        (take_lease row owner lease_ms at) (λ r _. refl) row.request_id s.requests
      ∙ rw found (ground arith)

  taken :
      (owner : String) (lease_ms at : ℕ) (r : UpdateRow)
      → find? (has_request_id row.request_id) (
          update_where
            (is_at_fence row.request_id row.fence)
            (take_lease row owner lease_ms at)
            s.requests)
        ≡ some r
      → r ≡ take_lease row owner lease_ms at row
  taken owner lease_ms at r now = cc (get-take_lease owner lease_ms at)

  Ends-claim_row :
      (owner : String) (lease_ms at : ℕ)
      → Ends (ClaimEnds s row.request_id owner lease_ms at) s (claim_row row owner lease_ms at)
  unfolding claim_row get
  Ends-claim_row owner lease_ms at = Ends-read _ s _ _ (assert_change-same row.state _ s) λ _ _.
      Ends-modify _ s _ _ (
        Ends-get_required _ _ row.request_id _ λ r now. Ends-audit _ _ r _ _ _ _ at _ λ entries.
          let e = taken owner lease_ms at r now in
          Ends-pure _ _ (some r) (record {
            before = row;
            before_found = found;
            row_found = now;
            owned = ap (λ (x : UpdateRow). x.lease_owner) e;
            expires = ap (λ (x : UpdateRow). x.lease_expires_at) e;
            next_fence = ap (λ (x : UpdateRow). x.fence) e;
            active = refl;
          }))

Ends-claim :
    (s : Store) (id owner : String) (lease_ms at : ℕ)
    → Ends (ClaimEnds s id owner lease_ms at) s (claim id owner lease_ms at)
unfolding claim
Ends-claim s id owner lease_ms at = Ends-transaction _ s _ (
    Ends-get_required _ s id _ λ row found. Ends-gets _ s _ _ (
      Ends-if _ s _ _ _ (λ _. Ends-pure _ s none refl)
        λ _.
          subst
            (λ (k : String).
              Ends (ClaimEnds s k owner lease_ms at) s (claim_row row owner lease_ms at))
            (has_request_id-get id s row found)
            (Ends-claim_row s row (get_self id s row found) owner lease_ms at)))

-- What the store after a claim answers until the lease ends at `expiry`.
pub record KeepsOut (id owner : String) (expiry : ℕ) (r : UpdateRow) (t : Store) : Type 0 where
  pub accepted :
      (now : ℕ)
      → r.completed_at ≡ none
      → now < expiry
      → assert_lease id r.fence owner now t ≡ (ok tt, t)
  pub owner_refused :
      (other : String) (lease_ms now : ℕ)
      → other ≢ owner
      → now < expiry
      → claim id other lease_ms now t ≡ (ok none, t)
  pub request_refused :
      (other_id other : String) (lease_ms now : ℕ) (q : UpdateRow)
      → other_id ≢ id
      → get other_id t ≡ some q
      → is_terminal r.state ≡ false
      → now < expiry
      → claim other_id other lease_ms now t ≡ (ok none, t)

claim-busy :
    (t : Store) (id owner : String) (lease_ms now : ℕ) (r : UpdateRow)
    → get id t ≡ some r
    → (other_active_held id now t || held_by_other r owner now) ≡ true
    → claim id owner lease_ms now t ≡ (ok none, t)
unfolding claim transaction get_required ◌>>=◌
claim-busy t id owner lease_ms now r found busy = rw (found, busy)

module _ (s : Store) (id owner : String) (lease_ms at : ℕ) (r : UpdateRow) (t : Store)
    (id_set : id ≢ "") (owner_set : owner ≢ "") (c : Claimed s id owner lease_ms at r t) where
  held :
      (other : String) (now : ℕ)
      → other ≢ owner
      → now < at + lease_ms
      → held_by_other r other now ≡ true
  unfolding held_by_other
  held other now ne early = rw (c.owned, c.expires) (ground arith)

  active_held :
      (other_id : String) (now : ℕ)
      → other_id ≢ id
      → is_terminal r.state ≡ false
      → now < at + lease_ms
      → other_active_held other_id now t ≡ true
  unfolding other_active_held
  active_held other_id now ne live early =
      rw (c.active) (rw (c.row_found) (rw (c.expires) (ground arith)))

  lease_accepted :
      (now : ℕ)
      → r.completed_at ≡ none
      → now < at + lease_ms
      → assert_lease id r.fence owner now t ≡ (ok tt, t)
  unfolding assert_lease ◌>>=◌ require
  lease_accepted now open_row early = rw (c.row_found) (rw (c.owned, c.expires) (ground arith))

  or_true : (a b : Bool) → b ≡ true → (a || b) ≡ true
  or_true true b h = refl
  or_true false b h = h

  Claimed-KeepsOut : KeepsOut id owner (at + lease_ms) r t
  Claimed-KeepsOut = record {
    accepted = lease_accepted;
    owner_refused = λ other ms now ne early.
        claim-busy t id other ms now r c.row_found (or_true _ _ (held other now ne early));
    request_refused = λ other_id other ms now q ne found live early.
        claim-busy t other_id other ms now q found (rw (active_held other_id now ne live early));
  }

-- If a claim by an owner returns a row, then until the lease ends the owner's assertion at the new
-- fence is accepted if the row is not complete, no other owner can claim the request, and no other
-- request can be claimed if the row is in no terminal state. The fence is one more than before. The
-- ids of the request and of the owner are not empty.
pub claim-KeepsOut :
    (s : Store) (id owner : String) (lease_ms at : ℕ) (r : UpdateRow) (t : Store)
    → id ≢ ""
    → owner ≢ ""
    → claim id owner lease_ms at s ≡ (ok (some r), t)
    → KeepsOut id owner (at + lease_ms) r t × Claimed s id owner lease_ms at r t
claim-KeepsOut s id owner lease_ms at r t id_set owner_set e =
    let c = (Ends-claim s id owner lease_ms at).after (some r) t e in
    (Claimed-KeepsOut s id owner lease_ms at r t id_set owner_set c, c)
