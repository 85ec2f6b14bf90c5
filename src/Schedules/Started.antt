-- ===== src/Schedules/Started.antt =====
-- What the insertion, the claims and the start of a request of
-- dispatcher/src/scheduler/repository.ts do to the outbox.
use dona.Prelude.{
  ◌≡◌, refl, sym, ◌∙◌, ap, subst, ℕ, String, Bool, true, false, Option, none, some, if◌then◌else◌,
  arith, ltb, ltb→lt,
}
use dona.Exec.{◌>>=◌, raise, pure, Result, ok}
use dona.Exec.Leads.{Leads, Leads-pure, Leads-bind, Leads-gets, Leads-transaction, Leads-require}
use dona.Exec.Ends.{Ends, Ends-bind, Ends-pure, Ends-gets, Ends-if}
use dona.Schedules.Rows.{Outbox, OutboxStatus, Tables, Run, Schedule, Reason}
use dona.Schedules.Store.{Db, required, or_throw, outbox_row, get_outbox, latest, shown, opt_leb}
use dona.Schedules.Settle.{is_unsent}
use dona.Schedules.Outboxes.{
  expire_unsent, expire_unsent_row, act_on, close_unsent, Refusal, send, refuse, retry_expired,
  is_claimed,
}
use dona.Schedules.Finish.{
  holds_claim, started, start_times, begin_request, as_some, request_started,
}
use dona.Schedules.Rowwise.{
  Leads-update_row, Leads-required, Leads-required_last, Leads-or_throw, Leads-or_throw_last,
  own_id,
}
use dona.Schedules.Untouched.{Leads-audit_outbox}
use dona.Schedules.Unsent.{Leads-Untouched}
use dona.Schedules.Custody.{stage, Custody, Custody-order, Quiet-Custody, Present, Present-is}
use dona.Schedules.Recovered.{Guarded, Guarded-order, NotSent, Guarded-expire_unsent}

-- A row of the table and what was read of it.
pub record SameAs (row r : Outbox) : Type 0 where
  pub status_read : r.status ≡ row.status
  pub attempt_read : r.attempt ≡ row.attempt

shown_row :
    (now : ℕ) (row r : Outbox) (b : Bool)
    → (if b then record r { content = none } else r) ≡ row
    → SameAs row r × (r.outbox_id ≡ row.outbox_id)
shown_row now row r true e = (
  record { status_read = ap Outbox.status e; attempt_read = ap Outbox.attempt e },
  ap Outbox.outbox_id e,
)
shown_row now row r false e = (
  record { status_read = ap Outbox.status e; attempt_read = ap Outbox.attempt e },
  ap Outbox.outbox_id e,
)

some_same : {a b : Outbox} → some a ≡ some b → a ≡ b
some_same e = cc

pub read_row :
    (s : Tables) (id : String) (now : ℕ) (row : Outbox)
    → get_outbox id now s ≡ some row
    → Present (SameAs row) s id × (row.outbox_id ≡ id)
unfolding get_outbox
read_row s id now row e = found (outbox_row id s) refl e
  where
    found :
        (o : Option Outbox)
        → outbox_row id s ≡ o
        → shown now o ≡ some row
        → Present (SameAs row) s id × (row.outbox_id ≡ id)
    found none h e = cc
    found (some r) h e =
        let (same, ids) = shown_row now row r (opt_leb r.content_delete_at now) (some_same e) in
        ((r, h, same), sym ids ∙ own_id s id r h)

module _ {A : Type 0} where
  Any-Ends : {s : Tables} (m : Db A) → Ends (λ _ _. Unit) s m
  Any-Ends m = record { after = λ a t h. tt }

-- What answers no and has written nothing.
abbrev Unwritten : Tables → Bool → Tables → Type 0
Unwritten s ended t = ended ≡ false → t ≡ s

module _ (s : Tables) (row : Outbox) (run : Run) (at : ℕ) where
  Ends-close_unsent :
      (status : OutboxStatus) (reason : Reason) (operation : String)
      → Ends (Unwritten s) s (close_unsent row run status reason operation at)
  unfolding close_unsent
  Ends-close_unsent status reason operation =
      Ends-bind _ s (λ _ _. Unit) _ _ (Any-Ends _)
        λ _ v _.
          Ends-bind _ v (λ _ _. Unit) _ _ (Any-Ends _)
            λ _ w _.
              Ends-bind _ w (λ _ _. Unit) _ _ (Any-Ends _)
                λ _ x _.
                  Ends-bind _ x (λ _ _. Unit) _ _ (Any-Ends _) λ _ y _. Ends-pure _ y true (λ h. cc)

  Ends-act_on :
      (schedule : Schedule) (why : Refusal) → Ends (Unwritten s) s (act_on row run schedule at why)
  unfolding act_on
  Ends-act_on schedule send = Ends-pure _ s false (λ h. refl)
  Ends-act_on schedule retry_expired =
      Ends-close_unsent OutboxStatus.failed Reason.cancelled "outbox_retry_expired"
  Ends-act_on schedule (refuse Reason.authorization_expired) =
      Ends-bind _ s (λ _ _. Unit) _ _ (Any-Ends _) λ _ v _. Ends-pure _ v true (λ h. cc)
  Ends-act_on schedule (refuse Reason.misfire) =
      Ends-close_unsent OutboxStatus.cancelled Reason.misfire "outbox_misfire"
  Ends-act_on schedule (refuse Reason.overlap) =
      Ends-close_unsent OutboxStatus.cancelled Reason.overlap "outbox_cancelled"
  Ends-act_on schedule (refuse Reason.cancelled) =
      Ends-close_unsent OutboxStatus.cancelled Reason.cancelled "outbox_cancelled"
  Ends-act_on schedule (refuse Reason.revision_replaced) =
      Ends-close_unsent OutboxStatus.cancelled Reason.revision_replaced "outbox_cancelled"
  Ends-act_on schedule (refuse Reason.ambiguous_write) =
      Ends-close_unsent OutboxStatus.cancelled Reason.ambiguous_write "outbox_cancelled"

module _ {A B : Type 0} (Q : B → Tables → Type 0) (s : Tables) where
  pub Ends-required :
      (o : Option A) (f : A → Db B)
      → ((a : A) → o ≡ some a → Ends Q s (f a))
      → Ends Q s (required o >>= f)
  unfolding ◌>>=◌ raise
  Ends-required none f h = record {
    after = λ b t e. cc (ap (λ (r : Result String B × Tables). r.0) e);
  }
  Ends-required (some a) f h = record { after = (h a refl).after }

  pub Ends-or_throw :
      (e : String) (o : Option A) (f : A → Db B)
      → ((a : A) → o ≡ some a → Ends Q s (f a))
      → Ends Q s (or_throw e o >>= f)
  unfolding ◌>>=◌ raise
  Ends-or_throw c none f h = record {
    after = λ b t e. cc (ap (λ (r : Result String B × Tables). r.0) e);
  }
  Ends-or_throw c (some a) f h = record { after = (h a refl).after }

module _ (s : Tables) (row : Outbox) (now : ℕ) (eligible : Option ℕ) where
  Ends-expire_unsent_row : Ends (Unwritten s) s (expire_unsent_row row now eligible)
  unfolding expire_unsent_row
  Ends-expire_unsent_row = Ends-gets _ s _ _ (
      Ends-required _ s _ _ λ run _. Ends-gets _ s _ _ (
        Ends-required _ s _ _ λ schedule _.
          Ends-gets _ s _ _
            (Ends-required _ s _ _ λ snapshot _. Ends-act_on s row run _ schedule _)))

  Ends-expire_unsent : Ends (Unwritten s) s (expire_unsent row now eligible)
  unfolding expire_unsent
  Ends-expire_unsent =
      Ends-if _ s (is_unsent row.status) _ _ (λ _. Ends-expire_unsent_row)
        (λ _. Ends-pure _ s false (λ h. refl))

  unwritten :
      (expire_unsent row now eligible s).0 ≡ ok false → (expire_unsent row now eligible s).1 ≡ s
  unwritten e =
      Ends-expire_unsent.after false (expire_unsent row now eligible s).1
        (λ i. (e i, (expire_unsent row now eligible s).1)) refl

-- A row that may be requested: claimed, as it was read.
abbrev Claimed : Outbox → Outbox → Type 0
Claimed row r = (stage r.status ≡ 0) × (r.attempt ≡ row.attempt)

Guarded-begin_request :
    (s : Tables) (row : Outbox) (now : ℕ)
    → Present (Claimed row) s row.outbox_id
    → Leads Guarded s (begin_request row now)
unfolding begin_request
Guarded-begin_request s row now w = Leads-gets Guarded-order s _ _ (
    Leads-required Guarded-order s _ _ λ run _. Leads-require Guarded-order s _ _ _ λ _.
      Leads-require Guarded-order s _ _ _ λ few.
        let at = latest now (start_times row) in
        Leads-bind Guarded-order s _ _
          (Leads-update_row Custody-order s row.outbox_id (started at) (λ r. refl)
            (λ r e. begun r at few (Present-is (Claimed row) s row.outbox_id r w e)))
          λ _ _.
            Leads-bind Guarded-order _ _ _
              (Leads-Untouched Custody-order Quiet-Custody _ _
                (Leads-audit_outbox _ row "outbox_request_started" at none none))
              λ _ _. Leads-gets Guarded-order _ _ _ (Leads-required_last Guarded-order _ _))
  where
    begun :
        (r : Outbox) (at : ℕ) → ltb row.attempt 3 ≡ true → Claimed row r → Custody r (started at r)
    begun r at few (z, a) = record {
      further = omega (arith, z);
      ended_unsent = λ e. absurd (omega (arith, z, e));
      attempts_bounded = λ b. omega (arith, a, ltb→lt row.attempt 3 few);
    }

Guarded-unless :
    (u : Tables) (row : Outbox) (now : ℕ) (ended : Bool)
    → (ended ≡ false → Present (Claimed row) u row.outbox_id)
    → Leads Guarded u (if ended then pure none else as_some (begin_request row now))
Guarded-unless u row now true w = Leads-pure Guarded-order u none
Guarded-unless u row now false w =
    Leads-bind Guarded-order u _ _ (Guarded-begin_request u row now (w refl))
      λ begun _. Leads-pure Guarded-order _ (some begun)

holds_claimed :
    (token : String) (now : ℕ) (row : Outbox)
    → holds_claim token now row ≡ true
    → stage row.status ≡ 0
unfolding holds_claim
holds_claimed token now row h = first row.status (ground arith)
  where
    first : (a : OutboxStatus) → is_claimed a ≡ true → stage a ≡ 0
    first a k = ground arith

pub Guarded-request_started :
    (s : Tables) (id token : String) (now : ℕ) → Leads Guarded s (request_started id token now)
unfolding request_started
Guarded-request_started s id token now =
    Leads-bind Guarded-order s _ _
      (Leads-transaction Guarded-order s _ (
        Leads-gets Guarded-order s _ _ (
          Leads-or_throw Guarded-order s _ _ _ λ row e.
            Leads-require Guarded-order s _ _ _
              λ h. attempted row e (holds_claimed token now row h))))
      λ result _. Leads-or_throw_last Guarded-order _ _ result
  where
    here : (row : Outbox) → get_outbox id now s ≡ some row → Present (SameAs row) s row.outbox_id
    here row e = let (w, i) = read_row s id now row e in subst (Present (SameAs row) s) (sym i) w

    claimed_here :
        (row : Outbox)
        → stage row.status ≡ 0
        → Present (SameAs row) s row.outbox_id
        → Present (Claimed row) s row.outbox_id
    claimed_here row z (x, e, same) =
        (x, e, (omega (arith, z, ap stage same.status_read), same.attempt_read))

    unsent_here :
        (row : Outbox)
        → stage row.status ≡ 0
        → Present (SameAs row) s row.outbox_id
        → Present NotSent s row.outbox_id
    unsent_here row z (x, e, same) = (x, e, omega (arith, z, ap stage same.status_read))

    attempted :
        (row : Outbox)
        → get_outbox id now s ≡ some row
        → stage row.status ≡ 0
        → Leads Guarded s (
            expire_unsent row now none >>= λ ended.
            if ended then pure none else as_some (begin_request row now))
    attempted row e z =
        Leads-bind Guarded-order s _ _
          (Guarded-expire_unsent s row now none (λ _. unsent_here row z (here row e)))
          λ ended r. Guarded-unless _ row now ended λ no.
            subst (λ u. Present (Claimed row) u row.outbox_id)
              (sym (unwritten s row now none (r ∙ ap ok no))) (claimed_here row z (here row e))
