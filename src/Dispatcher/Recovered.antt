-- ===== src/Dispatcher/Recovered.antt =====
-- The events after a restart of the dispatcher, and its actions on the queue.
use dona.Prelude.{ℕ, String, List, [], ◌∷◌, Option, refl, ◌≤◌, arith}
use dona.Exec.{Exec, pure}
use dona.Exec.Leads.{
  Leads, Leads-pure, Leads-bind, Leads-gets, Leads-modify, Leads-transaction, Leads-if,
}
use dona.Dispatcher.Events.{
  EventStatus, completed, needs_review, EventRow, Fault, Tables, Others, is_in, in_others,
}
use dona.Dispatcher.Queue.{
  Db, dispatchable, failed_with, mark_blocked, mark_needs_review, record_waiting_error,
}
use dona.Dispatcher.Recovery.{
  StoredResult, for_each, is_stale, unknown_acceptance, unless_in, with_result, succeeded_with,
  or_default, settle_stale, recover_stale_dispatching, save_deterministic_completed,
  save_deterministic_failure,
}
use dona.Dispatcher.Worker.{Turn, dispatch}
use dona.Dispatcher.Phases.{
  phase, Advances, Advances-order, Advances-others, Leads-in_others, Leads-update_events,
  Leads-get_required,
}
use dona.Dispatcher.Moves.{Leads-transition, Leads-mark_needs_review, Leads-mark_blocked}
use dona.Dispatcher.Attempts.{Leads-record_waiting_error}
use dona.Dispatcher.Turns.{Advancing, dispatch-Advances}

phase_top : (s : EventStatus) → phase s ≤ 2
phase_top s = ground arith

module _ {X : Type 0} (o : Others X) where
  Leads-for_each :
      (m : String → Exec Fault X Unit) (ids : List String) (s : Tables X)
      → Leads Advances s (for_each o (λ id. in_others (m id)) ids)
  unfolding for_each
  Leads-for_each m [] s = Leads-pure Advances-order s tt
  Leads-for_each m (id ∷ ids) s =
      Leads-bind Advances-order s _ _ (Leads-in_others s (m id)) λ _ _. Leads-for_each m ids _

  Leads-settle_stale :
      (s : Tables X) (events : List EventRow) (notifications : List String) (at : ℕ)
      → Leads Advances s (settle_stale o events notifications at)
  unfolding settle_stale
  Leads-settle_stale s events notifications at =
      Leads-bind Advances-order s _ _ (Leads-for_each _ _ s) λ _ _.
        Leads-bind Advances-order _ _ _ (Leads-for_each _ _ _) λ _ _. Leads-pure Advances-order _ _

  Leads-recover_stale_dispatching :
      (s : Tables X) (at : ℕ) → Leads Advances s (recover_stale_dispatching o at)
  unfolding recover_stale_dispatching
  Leads-recover_stale_dispatching s at = Leads-transaction Advances-order s _ (
      Leads-gets Advances-order s _ _ (
        Leads-modify Advances-order s _ _ (Advances-others s _) (
          Leads-gets Advances-order _ _ _ (
            Leads-bind Advances-order _ _ _
              (Leads-update_events _ is_stale (unknown_acceptance at) (λ r _. refl)
                λ r _ h. record { further = phase_top r.status; attempted = omega arith })
              λ _ _. Leads-settle_stale _ _ _ at))))

  Leads-unless_in :
      (s : Tables X) (statuses : List EventStatus) (row : EventRow) (m : Db o Unit)
      → Leads Advances s m
      → Leads Advances s (unless_in o statuses row m)
  Leads-unless_in s statuses row m h =
      Leads-if Advances-order s (is_in statuses row.status) (pure tt) m
        (λ _. Leads-pure Advances-order s tt) (λ _. h)

  Leads-save_deterministic_completed :
      (s : Tables X) (id : String) (result : StoredResult) (path : String) (now : ℕ)
      → Leads Advances s (save_deterministic_completed o id result path now)
  unfolding save_deterministic_completed
  Leads-save_deterministic_completed s id result path now = Leads-get_required s id _ λ row _.
      Leads-unless_in s (completed ∷ []) row _ (
        Leads-transition o s id dispatchable completed (succeeded_with result path) now
          (λ t _. phase_top t) (λ _. refl) (λ _. refl))

  Leads-save_deterministic_failure :
      (s : Tables X) (id : String) (result : StoredResult) (path code : String) (now : ℕ)
      → Leads Advances s (save_deterministic_failure o id result path code now)
  unfolding save_deterministic_failure
  Leads-save_deterministic_failure s id result path code now = Leads-get_required s id _ λ row _.
      Leads-unless_in s (needs_review ∷ completed ∷ []) row _ (
        Leads-transition o s id dispatchable needs_review
          (λ r. failed_with code (or_default o result.summary) (with_result result path r)) now
          (λ t _. phase_top t) (λ _. refl) (λ _. refl))

-- What the dispatcher does to the queue: a turn of the worker for a row, a restart, what it notes of
-- an event that waits, and a result of its own.
pub data Action (X : Type 0) : Type 0 where
  turns : Turn X → EventRow → Action X
  recovers : ℕ → Action X
  notes_error : String → String → String → ℕ → Action X
  asks_review : String → String → String → ℕ → Action X
  blocks : String → String → List EventStatus → ℕ → Action X
  completes : String → StoredResult → String → ℕ → Action X
  gives_up : String → StoredResult → String → String → ℕ → Action X

module _ {X : Type 0} (o : Others X) (basename : String → String) (unlink : String → Option Fault)
    (backup_of result_path_of : String → String) (message_of : Fault → String)
    (max_attempts : ℕ) where
  abbrev pub act : Action X → Tables X → Tables X
  act (turns turn row) s =
      (dispatch o basename unlink backup_of result_path_of message_of max_attempts turn row s).1
  act (recovers at) s = (recover_stale_dispatching o at s).1
  act (notes_error id code message at) s = (record_waiting_error o id code message at s).1
  act (asks_review id code message at) s = (mark_needs_review o id code message at s).1
  act (blocks id message from at) s = (mark_blocked o id message from at at s).1
  act (completes id result path at) s = (save_deterministic_completed o id result path at s).1
  act (gives_up id result path code at) s =
      (save_deterministic_failure o id result path code at s).1

  -- In a turn, others only advance the events.
  abbrev pub IsFair : Action X → Type 0
  IsFair (turns turn row) = Advancing turn
  IsFair a = Unit

  pub act-Advances : (a : Action X) (s : Tables X) → IsFair a → Advances s (act a s)
  act-Advances (turns turn row) s h =
      dispatch-Advances o basename unlink backup_of result_path_of message_of max_attempts turn row
        s h
  act-Advances (recovers at) s h = (Leads-recover_stale_dispatching o s at).after
  act-Advances (notes_error id code message at) s h =
      (Leads-record_waiting_error o s id code message at).after
  act-Advances (asks_review id code message at) s h =
      (Leads-mark_needs_review o s id code message at).after
  act-Advances (blocks id message from at) s h =
      (Leads-mark_blocked o s id message from at at).after
  act-Advances (completes id result path at) s h =
      (Leads-save_deterministic_completed o s id result path at).after
  act-Advances (gives_up id result path code at) s h =
      (Leads-save_deterministic_failure o s id result path code at).after
