-- ===== src/Dispatcher/Turns.antt =====
-- What a turn of dispatcher/src/worker.ts does to every event of the queue.
use dona.Prelude.{ℕ, String, not, ◌||◌, [], ◌∷◌, Option, none, some, is_none, opt_is}
use dona.Exec.{pure, gets, ◌>>=◌}
use dona.Exec.Leads.{
  Leads, Leads-pure, Leads-bind, Leads-gets, Leads-modify, Leads-if, Leads-catching,
}
use dona.Dispatcher.Events.{
  EventStatus, queued, dispatching, waiting_agent, completed, retryable_failed, blocked,
  needs_review, dead_letter, EventRow, Fault, Tables, Others, is_in, get,
}
use dona.Dispatcher.Queue.{Db, agent_owned}
use dona.Dispatcher.Worker.{
  Turn, HerdrResult, Access, present, missing, unavailable, has_status, is_free, is_stuck,
  command_message, result_exists, path_unavailable, after_refusal, accept, after_prompt, submit,
  on_access, dispatch,
}
use dona.Dispatcher.Phases.{Advances, Advances-order}
use dona.Dispatcher.Moves.{Leads-mark_waiting, Leads-mark_needs_review, Leads-mark_blocked}
use dona.Dispatcher.Attempts.{
  Leads-record_pre_dispatch_failure, Leads-record_safe_prompt_failure, Leads-begin_dispatch,
}

-- What others do meanwhile takes no event back.
pub record Advancing {X : Type 0} (turn : Turn X) : Type 0 where
  pub preflight_advances : (s : Tables X) → Advances s (turn.during_preflight s)
  pub access_advances : (s : Tables X) → Advances s (turn.during_access s)
  pub prompt_advances : (s : Tables X) → Advances s (turn.during_prompt s)

module _ {X : Type 0} (o : Others X) (basename : String → String) (unlink : String → Option Fault)
    (backup_of result_path_of : String → String) (message_of : Fault → String)
    (max_attempts : ℕ) where
  Leads-ending :
      {A B : Type 0} (s : Tables X) (b : B) (m : Db o A)
      → Leads Advances s m
      → Leads Advances s (m >>= λ _. pure b)
  Leads-ending s b m h =
      Leads-bind Advances-order s m (λ _. pure b) h λ _ _. Leads-pure Advances-order _ b

  Leads-after_refusal :
      (s : Tables X) (id : String) (status : EventStatus) (r : HerdrResult) (at : ℕ)
      → Leads Advances s (
          after_refusal o basename unlink backup_of result_path_of message_of max_attempts id status
            r at)
  unfolding after_refusal
  Leads-after_refusal s id status r at =
      Leads-if Advances-order s (opt_is "agent_blocked" r.error_code) _ _
        (λ _. Leads-mark_blocked o s id (command_message r) agent_owned at at)
        λ _.
          Leads-if Advances-order s
            (opt_is "agent_not_found" r.error_code || opt_is "agent_not_running" r.error_code) _ _
            (λ _.
              Leads-if Advances-order s (is_in (waiting_agent ∷ []) status) _ _
                (λ _. Leads-mark_needs_review o s id _ _ at)
                (λ _.
                  Leads-ending s tt _
                    (Leads-record_safe_prompt_failure o s id _ _ max_attempts at)))
            (λ _. Leads-mark_needs_review o s id _ _ at)

  Leads-accept :
      (s : Tables X) (id : String) (status : EventStatus) (at : ℕ)
      → Leads Advances s
          (accept o basename unlink backup_of result_path_of message_of max_attempts id status at)
  unfolding accept gets
  Leads-accept s id dispatching at =
      Leads-bind Advances-order s _ _ (Leads-mark_waiting o s id at at)
        λ _ _. record { after = Advances-order.same _ }
  Leads-accept s id queued at = record { after = Advances-order.same s }
  Leads-accept s id waiting_agent at = record { after = Advances-order.same s }
  Leads-accept s id completed at = record { after = Advances-order.same s }
  Leads-accept s id retryable_failed at = record { after = Advances-order.same s }
  Leads-accept s id blocked at = record { after = Advances-order.same s }
  Leads-accept s id needs_review at = record { after = Advances-order.same s }
  Leads-accept s id dead_letter at = record { after = Advances-order.same s }

  Leads-after_prompt :
      (s : Tables X) (turn : Turn X) (id : String) (found : Option EventRow)
      → Leads Advances s (
          after_prompt o basename unlink backup_of result_path_of message_of max_attempts turn id
            found)
  unfolding after_prompt
  Leads-after_prompt s turn id none = Leads-pure Advances-order s none
  Leads-after_prompt s turn id (some row) =
      Leads-if Advances-order s (not (is_in agent_owned row.status)) _ _
        (λ _. Leads-pure Advances-order s none)
        λ _.
          Leads-if Advances-order s (turn.prompted.aborted || turn.stopping_at_prompt) _ _
            (λ _. Leads-ending s none _ (Leads-mark_needs_review o s id _ _ turn.at_prompt))
            λ _.
              Leads-if Advances-order s (not turn.prompted.succeeded) _ _
                (λ _.
                  Leads-ending s none _
                    (Leads-after_refusal s id row.status turn.prompted turn.at_prompt))
                (λ _. Leads-accept s id row.status turn.at_prompt)

  Leads-submit :
      (s : Tables X) (turn : Turn X) (row : EventRow)
      → Advancing turn
      → Leads Advances s
          (submit o basename unlink backup_of result_path_of message_of max_attempts turn row)
  unfolding submit
  Leads-submit s turn row adv =
      Leads-bind Advances-order s _ _
        (Leads-begin_dispatch o basename unlink backup_of s row.event_id _ turn.at_access)
        λ begun _.
          Leads-if Advances-order _ (is_in (completed ∷ []) begun.status) _ _
            (λ _. Leads-pure Advances-order _ none)
            λ _.
              Leads-modify Advances-order _ _ _ (adv.prompt_advances _)
                (Leads-gets Advances-order _ _ _ (Leads-after_prompt _ turn row.event_id _))

  Leads-path_unavailable :
      (s : Tables X) (row : EventRow) (message : String) (at : ℕ)
      → Leads Advances s (
          path_unavailable o basename unlink backup_of result_path_of message_of max_attempts row
            message at)
  unfolding path_unavailable
  Leads-path_unavailable s row message at = Leads-gets Advances-order s _ _ (
      Leads-if Advances-order s (not (has_status row.status (get row.event_id s))) _ _
        (λ _. Leads-pure Advances-order s tt)
        λ _.
          Leads-ending s tt _
            (Leads-record_pre_dispatch_failure o s row.event_id _ _ max_attempts at))

  Leads-result_exists :
      (s : Tables X) (row : EventRow) (at : ℕ)
      → Leads Advances s
          (result_exists o basename unlink backup_of result_path_of message_of max_attempts row at)
  unfolding result_exists
  Leads-result_exists s row at = Leads-gets Advances-order s _ _ (
      Leads-if Advances-order s (not (has_status row.status (get row.event_id s))) _ _
        (λ _. Leads-pure Advances-order s tt)
        λ _.
          Leads-bind Advances-order s _ _
            (Leads-begin_dispatch o basename unlink backup_of s row.event_id _ at)
            λ begun _.
              Leads-if Advances-order _ (is_in (completed ∷ []) begun.status) _ _
                (λ _. Leads-pure Advances-order _ tt)
                λ _. Leads-mark_needs_review o _ row.event_id _ _ at)

  Leads-on_access :
      (s : Tables X) (turn : Turn X) (row : EventRow) (a : Access)
      → Advancing turn
      → Leads Advances s
          (on_access o basename unlink backup_of result_path_of message_of max_attempts turn row a)
  unfolding on_access
  Leads-on_access s turn row present adv = Leads-ending s none _ (
      Leads-catching Advances-order s _ _ (Leads-result_exists s row turn.at_access)
        λ e. Leads-path_unavailable _ row (message_of e) turn.at_access)
  Leads-on_access s turn row missing adv = Leads-gets Advances-order s _ _ (
      Leads-if Advances-order s (not (has_status row.status (get row.event_id s))) _ _
        (λ _. Leads-pure Advances-order s none) λ _. Leads-submit s turn row adv)
  Leads-on_access s turn row (unavailable message) adv =
      Leads-ending s none _ (Leads-path_unavailable s row message turn.at_access)

  pub Leads-dispatch :
      (turn : Turn X) (row : EventRow) (s : Tables X)
      → Advancing turn
      → Leads Advances s
          (dispatch o basename unlink backup_of result_path_of message_of max_attempts turn row)
  unfolding dispatch
  Leads-dispatch turn row s adv = Leads-modify Advances-order s _ _ (adv.preflight_advances s) (
      Leads-gets Advances-order _ _ _ (
        Leads-if Advances-order _
          (turn.stopping_at_preflight
            || turn.preflight.aborted
            || not (has_status row.status (get row.event_id (turn.during_preflight s))))
          _ _ (λ _. Leads-pure Advances-order _ none)
          λ _.
            Leads-if Advances-order _
              (not turn.preflight.succeeded || is_none turn.preflight.agent_status) _ _
              (λ _. Leads-ending _ none _ (
                Leads-record_pre_dispatch_failure o _ row.event_id _ _ max_attempts
                  turn.at_preflight))
              λ _.
                Leads-if Advances-order _ (is_stuck turn.preflight.agent_status) _ _
                  (λ _. Leads-ending _ none _ (
                    Leads-mark_blocked o _ row.event_id
                      "dona-main was blocked before prompt submission"
                      (queued ∷ retryable_failed ∷ agent_owned) turn.at_preflight
                      turn.at_preflight))
                  λ _.
                    Leads-if Advances-order _ (not (is_free turn.preflight.agent_status)) _ _
                      (λ _. Leads-pure Advances-order _ none)
                      λ _.
                        Leads-modify Advances-order _ _ _ (adv.access_advances _)
                          (Leads-on_access _ turn row turn.access adv)))

  -- Where what others do at each await advances the events, a dispatch does so too, whatever Herdr
  -- and the file system answer and wherever it throws: no event is lost, none goes back from an
  -- accepted prompt or from a settled status, and no count of attempts falls.
  pub dispatch-Advances :
      (turn : Turn X) (row : EventRow) (s : Tables X)
      → Advancing turn
      → Advances s
          (dispatch o basename unlink backup_of result_path_of message_of max_attempts turn row s).1
  dispatch-Advances turn row s adv = (Leads-dispatch turn row s adv).after
