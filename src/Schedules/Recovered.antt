-- ===== src/Schedules/Recovered.antt =====
-- What the recovery and the claims of dispatcher/src/scheduler/repository.ts do to the outbox.
use dona.Prelude.{
  ◌≡◌, refl, ℕ, Bool, true, Option, none, List, [], ◌∷◌, ◌≤◌, arith, All, select_where,
}
use dona.Exec.Leads.{IsOrder, Leads, Leads-pure, Leads-bind, Leads-gets, Leads-transaction}
use dona.Schedules.Rows.{Outbox, OutboxStatus, Tables}
use dona.Schedules.Store.{outbox_row}
use dona.Schedules.Settle.{is_unsent}
use dona.Schedules.Outboxes.{
  closed, in_doubt, mark_ambiguous, mark_each, expire_each, expire_unsent, recover, is_lost,
  is_abandoned, returned, unsent_row, counted, is_started, is_claimed,
}
use dona.Schedules.Rowwise.{
  Rows, Rows-order, Distinct, outbox_ids, Leads-update, select-Found, All-map,
}
use dona.Schedules.Unsent.{Leads-expire_unsent, Leads-mark_ambiguous}
use dona.Schedules.Custody.{
  stage, Custody, Custody-order, Quiet-Custody, Unmade, Unmade-order, Quiet-Unmade, is_doubt,
  Doubted, Doubted-order, Quiet-Doubted, Present, Present-is, Present-carried,
}

abbrev pub InDoubt : Outbox → Type 0
InDoubt r = is_doubt r.status ≡ true

abbrev pub NotSent : Outbox → Type 0
NotSent r = stage r.status ≤ 2

abbrev pub Guarded : Tables → Tables → Type 0
Guarded = Rows Custody

pub Guarded-order : IsOrder Guarded
Guarded-order = Rows-order Custody-order

doubt_stage : (a : OutboxStatus) → is_doubt a ≡ true → stage a ≤ 1
doubt_stage a h = ground arith

pub in_doubt-Custody : (r : Outbox) (at : ℕ) → InDoubt r → Custody r (in_doubt at r)
in_doubt-Custody r at d = record {
  further = doubt_stage r.status d;
  ended_unsent = λ e. absurd (omega (arith, e, doubt_stage r.status d));
  attempts_bounded = λ h. h;
}

ended-Custody :
    (status : OutboxStatus)
    → stage status ≡ 2
    → (r : Outbox) (at : ℕ) → NotSent r
    → Custody r (closed status at r)
ended-Custody status two r at n = record {
  further = omega (arith, two, n);
  ended_unsent = λ e. two;
  attempts_bounded = λ h. h;
}

module _ (s : Tables) (row : Outbox) (now : ℕ) where
  pub Guarded-mark_ambiguous :
      Present InDoubt s row.outbox_id → Leads Guarded s (mark_ambiguous row now)
  Guarded-mark_ambiguous w =
      Leads-mark_ambiguous Custody-order Quiet-Custody s row now
        λ r at e. in_doubt-Custody r at (Present-is InDoubt s row.outbox_id r w e)

  Doubted-mark_ambiguous : Leads (Rows Doubted) s (mark_ambiguous row now)
  Doubted-mark_ambiguous =
      Leads-mark_ambiguous Doubted-order Quiet-Doubted s row now
        λ r at e. record { still = λ h. refl }

  pub Guarded-expire_unsent :
      (eligible : Option ℕ)
      → (is_unsent row.status ≡ true → Present NotSent s row.outbox_id)
      → Leads Guarded s (expire_unsent row now eligible)
  Guarded-expire_unsent eligible w =
      Leads-expire_unsent Custody-order Quiet-Custody s row now eligible
        (λ u r at e.
          ended-Custody OutboxStatus.failed refl r at
            (Present-is NotSent s row.outbox_id r (w u) e))
        (λ u r at e.
          ended-Custody OutboxStatus.cancelled refl r at
            (Present-is NotSent s row.outbox_id r (w u) e))

  Unmade-expire_unsent :
      (eligible : Option ℕ) → Leads (Rows Unmade) s (expire_unsent row now eligible)
  Unmade-expire_unsent eligible =
      Leads-expire_unsent Unmade-order Quiet-Unmade s row now eligible
        (λ u r at e. record { not_sent = λ h. omega arith })
        (λ u r at e. record { not_sent = λ h. omega arith })

Guarded-mark_each :
    (rows : List Outbox) (s : Tables) (now : ℕ)
    → All (λ row. Present InDoubt s row.outbox_id) rows
    → Leads Guarded s (mark_each rows now)
unfolding mark_each
Guarded-mark_each [] s now w = Leads-pure Guarded-order s tt
Guarded-mark_each (row ∷ rows) s now (w, ws) =
    Leads-bind Guarded-order s _ _ (Guarded-mark_ambiguous s row now w) λ _ _.
      Guarded-mark_each rows _ now (
        All-map rows
          (λ x.
            Present-carried InDoubt (λ r t h. h.still) s _ (Doubted-mark_ambiguous s row now).after
              x.outbox_id)
          ws)

Guarded-expire_each :
    (rows : List Outbox) (s : Tables) (now : ℕ)
    → All (λ row. Present NotSent s row.outbox_id) rows
    → Leads Guarded s (expire_each rows now)
unfolding expire_each
Guarded-expire_each [] s now w = Leads-pure Guarded-order s 0
Guarded-expire_each (row ∷ rows) s now (w, ws) =
    Leads-bind Guarded-order s _ _ (Guarded-expire_unsent s row now none (λ _. w)) λ ended _.
      Leads-bind Guarded-order _ _ _
        (Guarded-expire_each rows _ now (
          All-map rows
            (λ x.
              Present-carried NotSent (λ r t h. h.not_sent) s _
                (Unmade-expire_unsent s row now none).after x.outbox_id)
            ws))
        λ rest _. Leads-pure Guarded-order _ (counted ended rest)

returned-Custody :
    (all : Bool) (now : ℕ) (r : Outbox) → is_abandoned all now r ≡ true → Custody r (returned now r)
returned-Custody all now r h = record {
  further = omega (arith, zero_stage r.status claimed_row);
  ended_unsent = λ e. absurd (omega (arith, e, zero_stage r.status claimed_row));
  attempts_bounded = λ b. b;
}
  where
    claimed_row : is_claimed r.status ≡ true
    claimed_row = ground arith

    zero_stage : (a : OutboxStatus) → is_claimed a ≡ true → stage a ≡ 0
    zero_stage a k = ground arith

lost-InDoubt : (all : Bool) (now : ℕ) (r : Outbox) → is_lost all now r ≡ true → InDoubt r
lost-InDoubt all now r h = started_in_doubt r.status (ground arith)
  where
    started_in_doubt : (a : OutboxStatus) → is_started a ≡ true → is_doubt a ≡ true
    started_in_doubt a k = ground arith

unsent-NotSent : (r : Outbox) → unsent_row r ≡ true → NotSent r
unsent-NotSent r h = small r.status h
  where
    small : (a : OutboxStatus) → is_unsent a ≡ true → stage a ≤ 2
    small a k = ground arith

pub selected :
    (P : Outbox → Type 0) (p : Outbox → Bool) (s : Tables)
    → ((r : Outbox) → p r ≡ true → P r)
    → Distinct (outbox_ids s)
    → All (λ row. Present P s row.outbox_id) (select_where p s.outbox)
unfolding outbox_row
selected P p s f d =
    All-map (select_where p s.outbox) (λ row h. (row, h.1, f row h.0)) (select-Found p s.outbox d)

Guarded-expire_selected :
    (s : Tables) (now : ℕ)
    → Distinct (outbox_ids s)
    → Leads Guarded s (expire_each (select_where unsent_row s.outbox) now)
Guarded-expire_selected s now d =
    Guarded-expire_each (select_where unsent_row s.outbox) s now
      (selected NotSent unsent_row s unsent-NotSent d)

pub Guarded-recover :
    (s : Tables) (now : ℕ) (all : Bool)
    → Distinct (outbox_ids s)
    → Leads Guarded s (recover now all)
unfolding recover
Guarded-recover s now all d = Leads-transaction Guarded-order s _ (
    Leads-gets Guarded-order s _ _ (
      let marked =
        Guarded-mark_each (select_where (is_lost all now) s.outbox) s now
          (selected InDoubt (is_lost all now) s (lost-InDoubt all now) d) in
      let back =
        Leads-update Custody-order _ (is_abandoned all now) (returned now) (λ r _. refl)
          (returned-Custody all now) in
      Leads-bind Guarded-order s _ _ marked λ _ _. Leads-gets Guarded-order _ _ _ (
        Leads-bind Guarded-order _ _ _ back λ _ _. Leads-gets Guarded-order _ _ _ (
          Leads-bind Guarded-order _ _ _
            (Guarded-expire_selected _ now (back.after.distinct (marked.after.distinct d)))
            λ expired _. Leads-pure Guarded-order _ _))))
