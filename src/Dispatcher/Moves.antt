-- ===== src/Dispatcher/Moves.antt =====
-- The methods of dispatcher/src/database.ts that settle an event, and how they move the events.
use dona.Prelude.{
  ℕ, String, Bool, true, false, ◌&&◌, List, [], ◌∷◌, ◌≡◌, refl, ◌≤◌, arith, is_yes, text_eq,
  text_discrete, if◌then◌else◌,
}
use dona.Exec.{Exec, gets, ◌>>◌}
use dona.Exec.Leads.{
  Leads, Leads-pure, Leads-transaction, Leads-bind, Leads-gets, Leads-write, Leads-if,
}
use dona.Dispatcher.Events.{
  EventStatus, queued, dispatching, waiting_agent, completed, retryable_failed, blocked,
  needs_review, dead_letter, status_discrete, EventRow, Fault, Tables, Others, Unauthorized, is_in,
  in_others,
}
use dona.Dispatcher.Queue.{
  seal, transition, is_ambiguous, review_notification, drop_notification, suppress_one,
  suppress_all, suppress_unauthorized, agent_owned, suppressible, mark_waiting, mark_blocked,
  mark_needs_review, accepted, failed_with, ambiguous, suppressed, is_at, has_blocked_event,
  next_waiting, next_available,
}
use dona.Dispatcher.Phases.{
  phase, Advances, Advances-order, Advances-others, Leads-in_others, Leads-update_events,
  Leads-update_one, Leads-get_required,
}

-- A list of statuses none of which is further than a phase.
abbrev pub UpTo : ℕ → List EventStatus → Type 0
UpTo n from = (s : EventStatus) → is_in from s ≡ true → phase s ≤ n

pub and_right : (a b : Bool) → (a && b) ≡ true → b ≡ true
and_right a b h = ground arith

pub is_yes-text : (a b : String) → text_eq a b ≡ true → a ≡ b
is_yes-text a b h = decided (text_discrete a b) h
  where
    decided : (d : Dec (a ≡ b)) → is_yes d ≡ true → a ≡ b
    decided (yes e) k = e
    decided (no n) k = cc

module _ {X : Type 0} (o : Others X) where
  pub Leads-seal : (s : Tables X) (id : String) (at : ℕ) → Leads Advances s (seal o id at)
  unfolding seal
  Leads-seal s id at = Leads-write Advances-order s _ (Advances-others s _)

  pub Leads-transition :
      (s : Tables X) (id : String) (from : List EventStatus) (to : EventStatus)
      (values : EventRow → EventRow) (now : ℕ)
      → UpTo (phase to) from
      → ((r : EventRow) → (values r).event_id ≡ r.event_id)
      → ((r : EventRow) → (values r).attempt_count ≡ r.attempt_count)
      → Leads Advances s (transition o id from to values now)
  unfolding transition
  Leads-transition s id from to values now up keep count = Leads-transaction Advances-order s _ (
      Leads-get_required s id _ λ current _.
        Leads-bind Advances-order s _ _
          (Leads-update_one s _ _ _ (λ r _. keep r)
            λ r _ h. record {
              further = up r.status (and_right _ _ h);
              attempted = omega (arith, count r);
            })
          λ _ _.
            Leads-if Advances-order _ _ _ _ (λ _. Leads-seal _ id now)
              (λ _. Leads-pure Advances-order _ tt))

  up_all : (from : List EventStatus) → UpTo 2 from
  up_all from queued h = omega arith
  up_all from dispatching h = omega arith
  up_all from waiting_agent h = omega arith
  up_all from completed h = omega arith
  up_all from retryable_failed h = omega arith
  up_all from blocked h = omega arith
  up_all from needs_review h = omega arith
  up_all from dead_letter h = omega arith

  up_dispatching : UpTo 1 (dispatching ∷ [])
  unfolding status_discrete
  up_dispatching s h = ground arith

  pub Leads-mark_waiting :
      (s : Tables X) (id : String) (at now : ℕ) → Leads Advances s (mark_waiting o id at now)
  unfolding mark_waiting
  Leads-mark_waiting s id at now =
      Leads-transition s id (dispatching ∷ []) waiting_agent (accepted at) now up_dispatching
        (λ _. refl) (λ _. refl)

  -- A transition to a status where the event rests.
  pub Leads-settle :
      (s : Tables X) (id : String) (from : List EventStatus) (to : EventStatus)
      (code message : String) (now : ℕ)
      → phase to ≡ 2
      → Leads Advances s (transition o id from to (failed_with code message) now)
  Leads-settle s id from to code message now e =
      Leads-transition s id from to (failed_with code message) now
        (λ t h. omega (arith, e, up_all from t h)) (λ _. refl) (λ _. refl)

  pub Leads-tell :
      (s : Tables X) (m n : Exec Fault X Unit) → Leads Advances s (in_others m >> in_others n)
  Leads-tell s m n =
      Leads-bind Advances-order s (in_others m) (λ _. in_others n) (Leads-in_others s m)
        λ _ _. Leads-in_others _ n

  pub Leads-mark_needs_review :
      (s : Tables X) (id code message : String) (now : ℕ)
      → Leads Advances s (mark_needs_review o id code message now)
  unfolding mark_needs_review
  Leads-mark_needs_review s id code message now = Leads-transaction Advances-order s _ (
      Leads-bind Advances-order s _ _
        (Leads-settle s id agent_owned needs_review code message now refl) λ _ _. Leads-tell _ _ _)

  pub Leads-mark_blocked :
      (s : Tables X) (id message : String) (from : List EventStatus) (at now : ℕ)
      → Leads Advances s (mark_blocked o id message from at now)
  unfolding mark_blocked
  Leads-mark_blocked s id message from at now = Leads-transaction Advances-order s _ (
      Leads-get_required s id _ λ row _.
        Leads-bind Advances-order s _ _ (by_source (text_eq row.source "dona_schedule"))
          λ _ _. Leads-tell _ _ _)
    where
      by_source :
          (b : Bool)
          → Leads Advances s (
              transition o id from
                (if b then needs_review else blocked)
                (failed_with "agent_blocked" message)
                now)
      by_source true = Leads-settle s id from needs_review "agent_blocked" message now refl
      by_source false = Leads-settle s id from blocked "agent_blocked" message now refl

  phase_top : (s : EventStatus) → phase s ≤ 2
  phase_top s = ground arith

  Leads-review_notification :
      (s : Tables X) (at : ℕ) (row : Unauthorized) → Leads Advances s (review_notification o at row)
  unfolding review_notification
  Leads-review_notification s at row =
      Leads-bind Advances-order s _ _
        (Leads-update_events s (is_at row.event_id suppressible) (ambiguous at) (λ r _. refl)
          λ r _ h. record { further = phase_top r.status; attempted = omega arith })
        λ _ _. Leads-in_others _ _

  Leads-drop_notification :
      (s : Tables X) (at : ℕ) (row : Unauthorized) → Leads Advances s (drop_notification o at row)
  unfolding drop_notification
  Leads-drop_notification s at row =
      Leads-bind Advances-order s _ _
        (Leads-update_events s (is_at row.event_id suppressible) (suppressed at) (λ r _. refl)
          λ r _ h. record { further = phase_top r.status; attempted = omega arith })
        λ _ _. Leads-tell _ _ _

  Leads-suppress_one :
      (s : Tables X) (at : ℕ) (row : Unauthorized) → Leads Advances s (suppress_one o at row)
  unfolding suppress_one
  Leads-suppress_one s at row =
      Leads-if Advances-order s (is_ambiguous o row) (review_notification o at row)
        (drop_notification o at row) (λ _. Leads-review_notification s at row)
        (λ _. Leads-drop_notification s at row)

  Leads-suppress_all :
      (rows : List Unauthorized) (s : Tables X) (at : ℕ) → Leads Advances s (suppress_all o at rows)
  unfolding suppress_all
  Leads-suppress_all [] s at = Leads-pure Advances-order s tt
  Leads-suppress_all (row ∷ rows) s at =
      Leads-bind Advances-order s _ _ (Leads-suppress_one s at row)
        λ _ _. Leads-suppress_all rows _ at

  pub Leads-suppress_unauthorized :
      (s : Tables X) (at : ℕ) → Leads Advances s (suppress_unauthorized o at)
  unfolding suppress_unauthorized
  Leads-suppress_unauthorized s at =
      Leads-transaction Advances-order s _
        (Leads-gets Advances-order s _ _ (Leads-suppress_all _ s at))

  pub Leads-has_blocked_event : (s : Tables X) (at : ℕ) → Leads Advances s (has_blocked_event o at)
  unfolding has_blocked_event gets
  Leads-has_blocked_event s at =
      Leads-bind Advances-order s _ _ (Leads-suppress_unauthorized s at)
        λ _ _. record { after = Advances-order.same _ }

  pub Leads-next_waiting : (s : Tables X) (at : ℕ) → Leads Advances s (next_waiting o at)
  unfolding next_waiting gets
  Leads-next_waiting s at =
      Leads-bind Advances-order s _ _ (Leads-suppress_unauthorized s at)
        λ _ _. record { after = Advances-order.same _ }

  pub Leads-next_available : (s : Tables X) (at : ℕ) → Leads Advances s (next_available o at)
  unfolding next_available gets
  Leads-next_available s at =
      Leads-bind Advances-order s _ _ (Leads-suppress_unauthorized s at)
        λ _ _. record { after = Advances-order.same _ }
