-- ===== src/Schedules/Finished.antt =====
-- What `finishWrite` of dispatcher/src/scheduler/repository.ts does to the outbox.
use dona.Prelude.{
  ◌≡◌, refl, ◌∙◌, ap, ℕ, String, Bool, true, false, ◌&&◌, Option, none, some, ◌≤◌, arith, leb,
}
use dona.Exec.{◌>>=◌, pure}
use dona.Exec.Leads.{IsOrder, Leads, Leads-pure, Leads-bind, Leads-gets, Leads-if, Leads-require}
use dona.Exec.Ends.{Ends, Ends-pure, Ends-gets, Ends-require}
use dona.Schedules.Rows.{Outbox, OutboxStatus, Tables, Schedule, Reason, Revision}
use dona.Schedules.Store.{Db, outbox_is, outbox_row, update_outbox, get_outbox, system_actor}
use dona.Schedules.Outboxes.{is_started}
use dona.Schedules.Finish.{Outcome, is_sent, is_misfire, outcome_status, settled_row}
use dona.Schedules.Settlement.{
  Turn, given_back, pause_revoked, cancelled_row, skip_run, when, expire_current, in_flight,
  read_turn, close_turn, same_authorization, is_current, active_schedule, paused_schedule,
}
use dona.Schedules.Rowwise.{
  RowOrder, Rows, Rows-order, Leads-update_row, Leads-required, Leads-required_last, Leads-or_throw,
}
use dona.Schedules.Untouched.{
  Untouched, Leads-update_runs, Leads-update_schedules, Leads-retire_revisions,
  Leads-complete_if_drained,
}
use dona.Schedules.Quiet.{Quiet, Quiet-order, Leads-suppress, Leads-expire_schedule}
use dona.Schedules.Unsent.{Leads-Untouched, Leads-Quiet}
use dona.Schedules.Custody.{
  stage, Custody, Custody-order, Quiet-Custody, Present, Present-is, Present-carried, Unmade,
  Unmade-order, Quiet-Unmade, is_doubt,
}
use dona.Schedules.Recovered.{Guarded, Guarded-order, NotSent}
use dona.Schedules.Started.{SameAs, read_row, Ends-required, Ends-or_throw}

abbrev pub Calm : Tables → Tables → Type 0
Calm = Rows Quiet

pub Calm-order : IsOrder Calm
Calm-order = Rows-order Quiet-order

pub Calm-Untouched : {A : Type 0} (s : Tables) (m : Db A) → Leads Untouched s m → Leads Calm s m
Calm-Untouched s m h = Leads-Untouched Quiet-order (λ r t q. q) s m h

module _ {R : Tables → Tables → Type 0} (o : IsOrder R) where
  pub Leads-when :
      (s : Tables) (b : Bool) (m : Db Unit) → (b ≡ true → Leads R s m) → Leads R s (when b m)
  Leads-when s b m h = Leads-if o s b m (pure tt) h (λ _. Leads-pure o s tt)

pub Leads-pause_revoked :
    (s : Tables) (schedule : Schedule) (snapshot : Revision) (id : String) (at : ℕ)
    → Leads Calm s (pause_revoked schedule snapshot id at)
unfolding pause_revoked
Leads-pause_revoked s schedule snapshot id at = Leads-gets Calm-order s _ _ (
    Leads-required Calm-order s _ _ λ current _.
      Leads-if Calm-order s (same_authorization snapshot current && is_current schedule.state) _ _
        (λ _.
          Leads-bind Calm-order s _ _
            (Calm-Untouched s _
              (Leads-update_schedules s (active_schedule id) (paused_schedule at)))
            λ _ _.
              Leads-bind Calm-order _ _ _ (Leads-suppress _ id at Reason.cancelled)
                λ _ _. Calm-Untouched _ _ (Leads-retire_revisions _ id at (some schedule.revision)))
        (λ _. Leads-pure Calm-order s tt))

pub Leads-expire_current :
    (s : Tables) (schedule : Schedule) (now at : ℕ) → Leads Calm s (expire_current schedule now at)
unfolding expire_current
Leads-expire_current s schedule now at =
    Leads-if Calm-order s (is_current schedule.state) _ (pure tt)
      (λ _. Leads-gets Calm-order s _ _ (
        Leads-required Calm-order s _ _ λ revision _.
          Leads-when Calm-order s (leb revision.expires_at now) _
            λ _. Leads-expire_schedule s schedule (system_actor "scheduler" schedule none) at))
      (λ _. Leads-pure Calm-order s tt)

pub Leads-close_turn : (s : Tables) (t : Turn) → Leads Calm s (close_turn t)
unfolding close_turn
Leads-close_turn s t =
    Leads-bind Calm-order s _ _
      (Calm-Untouched s _ (Leads-complete_if_drained s t.run.schedule_id t.at))
      λ _ _. Leads-gets Calm-order _ _ _ (
        Leads-required Calm-order _ _ _ λ current _.
          Leads-bind Calm-order _ _ _ (Leads-expire_current _ current t.now t.at) λ _ _.
            Leads-bind Calm-order _ _ _
              (Calm-Untouched _ _ (Leads-complete_if_drained _ current.schedule_id t.at))
              λ _ _. Leads-gets Calm-order _ _ _ (Leads-required_last Calm-order _ _))

-- The row of a turn: a started request.
abbrev pub Flying : Turn → Outbox → Type 0
Flying t r = (stage r.status ≡ 0) × (is_doubt r.status ≡ true)

pub Ends-read_turn :
    (s : Tables) (id token : String) (now : ℕ)
    → Ends (λ t u. Present (Flying t) u t.row.outbox_id) s (read_turn id token now)
unfolding read_turn
Ends-read_turn s id token now = Ends-gets _ s _ _ (
    Ends-or_throw _ s _ _ _ λ row e. Ends-require _ s _ _ _ λ flying. Ends-gets _ s _ _ (
      Ends-required _ s _ _ λ run _. Ends-gets _ s _ _ (
        Ends-required _ s _ _ λ schedule _.
          Ends-gets _ s _ _
            (Ends-required _ s _ _ λ snapshot _. Ends-pure _ s _ (there row e flying)))))
  where
    aloft : (a : OutboxStatus) → is_started a ≡ true → (stage a ≡ 0) × (is_doubt a ≡ true)
    aloft a k = ground arith

    moved :
        (row r : Outbox)
        → SameAs row r
        → (stage row.status ≡ 0) × (is_doubt row.status ≡ true)
        → (stage r.status ≡ 0) × (is_doubt r.status ≡ true)
    moved row r same (z, d) = (ap stage same.status_read ∙ z, ap is_doubt same.status_read ∙ d)

    there :
        (row : Outbox)
        → get_outbox id now s ≡ some row
        → in_flight token row ≡ true
        → Present (λ r. (stage r.status ≡ 0) × (is_doubt r.status ≡ true)) s row.outbox_id
    there row e f =
        let ((x, h, same), i) = read_row s id now row e in
        (x, ap (λ j. outbox_row j s) i ∙ h, moved row x same (aloft row.status (ground arith)))

pub Leads-read_turn :
    (s : Tables) (id token : String) (now : ℕ) → Leads Guarded s (read_turn id token now)
unfolding read_turn
Leads-read_turn s id token now =
    let o = Guarded-order in
    Leads-gets o s _ _ (
      Leads-or_throw o s _ _ _ λ row _. Leads-require o s _ _ _ λ _. Leads-gets o s _ _ (
        Leads-required o s _ _ λ run _. Leads-gets o s _ _ (
          Leads-required o s _ _ λ schedule _.
            Leads-gets o s _ _ (Leads-required o s _ _ λ snapshot _. Leads-pure o s _))))

-- An outcome that says that nothing was sent.
pub quiet_outcome :
    (outcome : Outcome) (retry authorized : Bool)
    → is_sent outcome ≡ false
    → stage (outcome_status outcome retry authorized) ≤ 2
unfolding outcome_status
quiet_outcome outcome retry authorized h = ground arith

-- The statements of an outcome but its first, under a relation that they keep.
module _ {R : Outbox → Outbox → Type 0} (k : RowOrder R) (q : (r t : Outbox) → Quiet r t → R r t)
    (back : (r : Outbox) → R r (given_back r)) where
  Leads-skip_run :
      (s : Tables) (t : Turn)
      → ((r : Outbox) → outbox_row t.row.outbox_id s ≡ some r → R r (cancelled_row r))
      → Leads (Rows R) s (skip_run t)
  unfolding skip_run
  Leads-skip_run s t c =
      Leads-bind (Rows-order k) s _ _
        (Leads-update_row k s t.row.outbox_id cancelled_row (λ r. refl) c)
        λ _ _. Leads-Untouched k q _ _ (Leads-update_runs _ _ _)

  Leads-give_back :
      (s : Tables) (t : Turn) (b : Bool)
      → Leads (Rows R) s (when b (update_outbox (outbox_is t.row.outbox_id) given_back))
  Leads-give_back s t b =
      Leads-when (Rows-order k) s b _
        λ _. Leads-update_row k s t.row.outbox_id given_back (λ r. refl) (λ r e. back r)

  Leads-lose :
      (s : Tables) (t : Turn) (b : Bool)
      → Leads (Rows R) s (when b (pause_revoked t.schedule t.snapshot t.run.schedule_id t.at))
  Leads-lose s t b =
      Leads-when (Rows-order k) s b _ λ _.
        Leads-Quiet k q s _ (Leads-pause_revoked s t.schedule t.snapshot t.run.schedule_id t.at)

back-Custody : (r : Outbox) → Custody r (given_back r)
back-Custody r = record {
  further = omega arith;
  ended_unsent = λ e. e;
  attempts_bounded = λ h. omega (arith, h);
}

pub settled-Custody :
    (status : OutboxStatus) (retry : Bool) (available : ℕ) (receipt : Option String) (at : ℕ)
    (r : Outbox)
    → stage r.status ≡ 0
    → Custody r (settled_row status retry available receipt at r)
unfolding settled_row
settled-Custody status retry available receipt at r z = record {
  further = omega (arith, z);
  ended_unsent = λ e. absurd (omega (arith, z, e));
  attempts_bounded = λ b. b;
}

pub cancelled-Custody : (r : Outbox) → NotSent r → Custody r (cancelled_row r)
cancelled-Custody r n = record { further = n; ended_unsent = λ e. refl; attempts_bounded = λ b. b }

Unmade-given_back : (r : Outbox) → Unmade r (given_back r)
Unmade-given_back r = record { not_sent = λ h. h }

pub carry_unsent :
    {A : Type 0} (s : Tables) (m : Db A) (id : String)
    → Leads (Rows Unmade) s m
    → Present NotSent s id
    → Present NotSent (m s).1 id
carry_unsent s m id l w = Present-carried NotSent (λ r t h. h.not_sent) s (m s).1 l.after id w

-- The rest of an outcome after its first statement.
pub Guarded-rest :
    (s : Tables) (t : Turn) (b c d : Bool)
    → (d ≡ true → Present NotSent s t.row.outbox_id)
    → Leads Guarded s (
        when b (update_outbox (outbox_is t.row.outbox_id) given_back) >>= λ _.
        when c (pause_revoked t.schedule t.snapshot t.run.schedule_id t.at) >>= λ _.
        when d (skip_run t))
Guarded-rest s t b c d w =
    let o = Guarded-order in
    Leads-bind o s _ _ (Leads-give_back Custody-order Quiet-Custody back-Custody s t b) λ _ _.
      Leads-bind o _ _ _ (Leads-lose Custody-order Quiet-Custody back-Custody _ t c) λ _ _.
        Leads-when o _ d (skip_run t) λ m.
          Leads-skip_run Custody-order Quiet-Custody back-Custody _ t λ r e. cancelled-Custody r (
            Present-is NotSent _ t.row.outbox_id r
              (carry_unsent _ _ t.row.outbox_id
                (Leads-lose Unmade-order Quiet-Unmade Unmade-given_back _ t c)
                (carry_unsent s _ t.row.outbox_id
                  (Leads-give_back Unmade-order Quiet-Unmade Unmade-given_back s t b) (w m)))
              e)

pub misfire_unsent :
    (outcome : Outcome) (a : Bool) → is_misfire outcome && a ≡ true → is_sent outcome ≡ false
misfire_unsent outcome a h = ground arith
