-- ===== src/Dispatcher/Worker.antt =====
-- dispatcher/src/worker.ts: one dispatch of an event. Herdr and the
-- file system answer by the fields of a turn, and at each `await` the tables may be changed by others.
use dona.Prelude.{
  ℕ, String, Bool, true, false, not, ◌||◌, [], ◌∷◌, Option, none, some, is_none, opt_is, text_eq,
  clip, if◌then◌else◌,
}
use dona.Exec.{pure, gets, modify, catching, ◌>>=◌, ◌>>◌}
use dona.Dispatcher.Events.{
  EventStatus, queued, retryable_failed, dispatching, waiting_agent, completed, status_discrete,
  EventRow, Fault, Tables, Others, is_in, get,
}
use dona.Dispatcher.Queue.{
  Db, agent_owned, mark_waiting, mark_blocked, mark_needs_review, record_pre_dispatch_failure,
  record_safe_prompt_failure, begin_dispatch,
}

pub data AgentStatus : Type 0 where
  idle : AgentStatus
  done : AgentStatus
  working : AgentStatus
  agent_blocked : AgentStatus
  unknown : AgentStatus

-- `HerdrCommandResult`, without the fields that the worker does not read.
pub record HerdrResult : Type 0 where
  pub succeeded : Bool
  pub stdout : String
  pub stderr : String
  pub timed_out : Bool
  pub aborted : Bool
  pub error_code : Option String
  pub agent_status : Option AgentStatus

abbrev first_of : String → String → String → String
first_of a b c = if text_eq a "" then (if text_eq b "" then c else b) else a

abbrev pub command_message : HerdrResult → String
command_message r =
    if r.aborted
    then "Herdr command was interrupted during shutdown"
    else if r.timed_out
    then "Herdr command timed out"
    else clip 2000 (first_of r.stderr r.stdout "Herdr command failed")

abbrev pub or_code : Option String → String → String
or_code none code = code
or_code (some given) code = given

-- `fs.access` of the result path.
pub data Access : Type 0 where
  present : Access
  missing : Access
  unavailable : String → Access

-- What one turn meets: the answers of Herdr and of the file system, whether the worker is being
-- stopped, the times that are read, and what others do to the tables at each `await`.
pub record Turn (X : Type 0) : Type 0 where
  pub preflight : HerdrResult
  pub access : Access
  pub prompted : HerdrResult
  pub stopping_at_preflight : Bool
  pub stopping_at_prompt : Bool
  pub at_preflight : ℕ
  pub at_access : ℕ
  pub at_prompt : ℕ
  pub during_preflight : Tables X → Tables X
  pub during_access : Tables X → Tables X
  pub during_prompt : Tables X → Tables X

abbrev pub has_status : EventStatus → Option EventRow → Bool
has_status s none = false
has_status s (some r) = is_in (s ∷ []) r.status

abbrev pub is_free : Option AgentStatus → Bool
is_free (some idle) = true
is_free (some done) = true
is_free s = false

abbrev pub is_stuck : Option AgentStatus → Bool
is_stuck (some agent_blocked) = true
is_stuck s = false

abbrev prompt_code : HerdrResult → String
prompt_code r = or_code r.error_code (if r.timed_out then "prompt_timeout" else "prompt_unknown")

module _ {X : Type 0} (o : Others X) (basename : String → String) (unlink : String → Option Fault)
    (backup_of result_path_of : String → String) (message_of : Fault → String)
    (max_attempts : ℕ) where
  abbrev begin_now : String → ℕ → Db o EventRow
  begin_now id at = begin_dispatch o basename unlink backup_of id (result_path_of id) at

  -- The file was there before the prompt.
  unfoldable pub result_exists : EventRow → ℕ → Db o Unit
  unfolding get begin_dispatch mark_needs_review status_discrete
  result_exists row at = do
    current ← gets (get row.event_id)
    if not (has_status row.status current) then pure tt else do
      begun ← begin_now row.event_id at
      if is_in (completed ∷ []) begun.status
          then pure tt
          else mark_needs_review o row.event_id "result_path_exists"
              "A result file already existed before prompt submission" at

  unfoldable pub path_unavailable : EventRow → String → ℕ → Db o Unit
  unfolding get record_pre_dispatch_failure status_discrete
  path_unavailable row message at = do
    current ← gets (get row.event_id)
    if not (has_status row.status current)
        then pure tt
        else record_pre_dispatch_failure o row.event_id "result_path_unavailable" message
            max_attempts at
          >>= λ _. pure tt

  -- What follows on the answer to the prompt: the row to wait for, where the agent took it.
  unfoldable pub after_refusal : String → EventStatus → HerdrResult → ℕ → Db o Unit
  unfolding mark_blocked mark_needs_review record_safe_prompt_failure
  after_refusal id status r at =
      if opt_is "agent_blocked" r.error_code
      then mark_blocked o id (command_message r) agent_owned at at
      else if opt_is "agent_not_found" r.error_code || opt_is "agent_not_running" r.error_code
      then (if is_in (waiting_agent ∷ []) status
          then mark_needs_review o id "prompt_acceptance_unknown"
              "Agent became unavailable after the event advanced during prompt submission" at
          else record_safe_prompt_failure o id (or_code r.error_code "agent_not_found")
              (command_message r) max_attempts at
            >>= λ _. pure tt)
      else mark_needs_review o id (prompt_code r) (command_message r) at

  unfoldable pub accept : String → EventStatus → ℕ → Db o (Option EventRow)
  unfolding mark_waiting get
  accept id dispatching at = do mark_waiting o id at at; gets (get id)
  accept id status at = gets (get id)

  abbrev ending : Db o Unit → Db o (Option EventRow)
  ending m = m >>= λ _. pure none

  unfoldable pub after_prompt : Turn X → String → Option EventRow → Db o (Option EventRow)
  unfolding mark_needs_review after_refusal accept status_discrete
  after_prompt turn id none = pure none
  after_prompt turn id (some row) =
      if not (is_in agent_owned row.status)
      then pure none
      else if turn.prompted.aborted || turn.stopping_at_prompt
      then ending (
          mark_needs_review o id "prompt_interrupted"
            "Dispatcher stopped while prompt acceptance was unknown" turn.at_prompt)
      else if not turn.prompted.succeeded
      then ending (after_refusal id row.status turn.prompted turn.at_prompt)
      else accept id row.status turn.at_prompt

  -- From `beginDispatch` on: the prompt is submitted only if the event is not suppressed.
  unfoldable pub submit : Turn X → EventRow → Db o (Option EventRow)
  unfolding begin_dispatch after_prompt get status_discrete
  submit turn row = do
    begun ← begin_now row.event_id turn.at_access
    if is_in (completed ∷ []) begun.status then pure none else do
      modify turn.during_prompt
      current ← gets (get row.event_id)
      after_prompt turn row.event_id current

  unfoldable pub on_access : Turn X → EventRow → Access → Db o (Option EventRow)
  unfolding result_exists path_unavailable submit get status_discrete
  on_access turn row present = ending (
      catching (result_exists row turn.at_access)
        λ e. path_unavailable row (message_of e) turn.at_access)
  on_access turn row missing = do
    current ← gets (get row.event_id)
    if not (has_status row.status current) then pure none else submit turn row
  on_access turn row (unavailable message) = ending (path_unavailable row message turn.at_access)

  -- `dispatch`, up to the call of `resumeWaiting` with the row that it gives.
  unfoldable pub dispatch : Turn X → EventRow → Db o (Option EventRow)
  unfolding get record_pre_dispatch_failure mark_blocked on_access status_discrete
  dispatch turn row = do
    modify turn.during_preflight
    current ← gets (get row.event_id)
    if turn.stopping_at_preflight || turn.preflight.aborted || not (has_status row.status current)
        then pure none
        else if not turn.preflight.succeeded || is_none turn.preflight.agent_status
        then (record_pre_dispatch_failure o row.event_id
              (or_code turn.preflight.error_code "herdr_unavailable")
              (command_message turn.preflight) max_attempts turn.at_preflight
            >>= λ _. pure none)
        else if is_stuck turn.preflight.agent_status
        then ending (
            mark_blocked o row.event_id "dona-main was blocked before prompt submission"
              (queued ∷ retryable_failed ∷ agent_owned) turn.at_preflight turn.at_preflight)
        else if not (is_free turn.preflight.agent_status)
        then pure none
        else do modify turn.during_access; on_access turn row turn.access
