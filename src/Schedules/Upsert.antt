-- ===== src/Schedules/Upsert.antt =====
-- The claim that the upsert of `claimDue` of dispatcher/src/scheduler/repository.ts leaves.
use dona.Prelude.{
  ◌≡◌, refl, ap, sym, ◌∙◌, ℕ, String, Bool, true, false, List, [], ◌∷◌, ◌++◌, Option, none, some,
  update_where, find?, find?-holds, ◌+◌, ◌<◌, arith, Bool-cases, inl, inr,
}
use dona.Schedules.Rows.{Claim, Tables}
use dona.Schedules.Claims.{
  claim_is, is_free, free_claim, claim_of, claimed_by, takes_claim, first_claim, put_claim, held_by,
}
use dona.Schedules.Rowwise.{text_self}

-- What a claim that is given out has: the owner, the lease, and a fence past the one before it,
-- which nobody held any more.
pub record IsGiven (id owner : String) (now lease : ℕ) (before : Option Claim) (c : Claim)
    : Type 0 where
  pub owned : c.claim_owner ≡ some owner
  pub leased : c.claim_until ≡ some (now + lease)
  pub was_free : free_claim now before ≡ true
  pub fence_past : (b : Claim) → before ≡ some b → b.claim_fence < c.claim_fence

module _ (id owner : String) (until now : ℕ) where
  -- The claim that the upsert leaves.
  abbrev pub put : Option Claim → Claim
  put none = first_claim id owner until
  put (some c) = claimed_by owner until c

  -- A test that fails where the schedule is another.
  module _ (q : Claim → Bool) (other : (x : Claim) → claim_is id x ≡ false → q x ≡ false) where
    found_first :
        (cs : List Claim)
        → q (first_claim id owner until) ≡ true
        → find? (claim_is id) cs ≡ none
        → find? q (cs ++ first_claim id owner until ∷ []) ≡ some (first_claim id owner until)
    unfolding find?
    found_first [] y e = rw y refl
    found_first (c ∷ cs) y e = elim (Bool-cases (claim_is id c)) [
      | inl h ↦ cc (sym (met h) ∙ e)
      | inr h ↦ past h ∙ found_first cs y (sym (skipped h) ∙ e)
    ]
      where
        met : claim_is id c ≡ true → find? (claim_is id) (c ∷ cs) ≡ some c
        met h = rw h refl

        skipped : claim_is id c ≡ false → find? (claim_is id) (c ∷ cs) ≡ find? (claim_is id) cs
        skipped h = rw h refl

        past :
            claim_is id c ≡ false
            → find? q ((c ∷ cs) ++ first_claim id owner until ∷ [])
              ≡ find? q (cs ++ first_claim id owner until ∷ [])
        past h = rw (other c h) refl

    found_updated :
        (cs : List Claim) (c : Claim)
        → q (claimed_by owner until c) ≡ true
        → find? (claim_is id) cs ≡ some c
        → is_free now c ≡ true
        → find? q (update_where (takes_claim id now) (claimed_by owner until) cs)
          ≡ some (claimed_by owner until c)
    unfolding find? update_where
    found_updated [] c y e f = cc
    found_updated (x ∷ cs) c y e f = elim (Bool-cases (claim_is id x)) [
      | inl h ↦ here h (first_is h)
      | inr h ↦ past h ∙ found_updated cs c y (sym (skipped h) ∙ e) f
    ]
      where
        first_is : claim_is id x ≡ true → x ≡ c
        first_is h = same (sym (met h) ∙ e)
          where
            met : claim_is id x ≡ true → find? (claim_is id) (x ∷ cs) ≡ some x
            met h = rw h refl

            same : {a b : Claim} → some a ≡ some b → a ≡ b
            same k = cc

        skipped : claim_is id x ≡ false → find? (claim_is id) (x ∷ cs) ≡ find? (claim_is id) cs
        skipped h = rw h refl

        past :
            claim_is id x ≡ false
            → find? q (update_where (takes_claim id now) (claimed_by owner until) (x ∷ cs))
              ≡ find? q (update_where (takes_claim id now) (claimed_by owner until) cs)
        past h = rw h (rw (other x h) refl)

        here :
            claim_is id x ≡ true
            → x ≡ c
            → find? q (update_where (takes_claim id now) (claimed_by owner until) (x ∷ cs))
              ≡ some (claimed_by owner until c)
        here h i = rw h (
            rw (ap (is_free now) i ∙ f) (
              rw (ap (λ z. q (claimed_by owner until z)) i ∙ y)
                (ap (λ z. some (claimed_by owner until z)) i)))

  module _ (q : Claim → Bool) (other : (x : Claim) → claim_is id x ≡ false → q x ≡ false)
      (own : (o : Option Claim) → claim_is id (put o) ≡ true → q (put o) ≡ true) where
    found_put :
        (cs : List Claim) (o : Option Claim)
        → find? (claim_is id) cs ≡ o
        → free_claim now o ≡ true
        → find? q (put_claim id owner until now o cs) ≡ some (put o)
    unfolding find? update_where
    found_put cs none e f = found_first q other cs (own none (text_self id)) e
    found_put cs (some c) e f =
        found_updated q other cs c (own (some c) (find?-holds (claim_is id) cs c e)) e f

  abbrev pub claims_put : Tables → List Claim
  claims_put s = put_claim id owner until now (claim_of id s) s.claims

  pub claim_put :
      (s : Tables)
      → free_claim now (claim_of id s) ≡ true
      → find? (claim_is id) (claims_put s) ≡ some (put (claim_of id s))
  unfolding claim_of
  claim_put s f = found_put (claim_is id) (λ x h. h) (λ o h. h) s.claims (claim_of id s) refl f

  pub held_put :
      (s : Tables)
      → free_claim now (claim_of id s) ≡ true
      → find? (held_by id owner) (claims_put s) ≡ some (put (claim_of id s))
  unfolding claim_of
  held_put s f = found_put (held_by id owner) not_held held s.claims (claim_of id s) refl f
    where
      not_held : (x : Claim) → claim_is id x ≡ false → held_by id owner x ≡ false
      not_held x h = rw h refl

      held : (o : Option Claim) → claim_is id (put o) ≡ true → held_by id owner (put o) ≡ true
      held none h = rw (text_self id) (rw (text_self owner) refl)
      held (some c) h = rw h (rw (text_self owner) refl)

pub put-IsGiven :
    (id owner : String) (now lease : ℕ) (o : Option Claim)
    → free_claim now o ≡ true
    → IsGiven id owner now lease o (put id owner (now + lease) now o)
put-IsGiven id owner now lease none f = record {
  owned = refl;
  leased = refl;
  was_free = f;
  fence_past = λ b e. cc;
}
put-IsGiven id owner now lease (some c) f = record {
  owned = refl;
  leased = refl;
  was_free = f;
  fence_past = λ b e. past b (same e);
}
  where
    same : {a b : Claim} → some a ≡ some b → a ≡ b
    same k = cc

    past : (b : Claim) → c ≡ b → b.claim_fence < c.claim_fence + 1
    past b i = omega (arith, ap Claim.claim_fence i)
