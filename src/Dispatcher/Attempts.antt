-- ===== src/Dispatcher/Attempts.antt =====
-- The methods of dispatcher/src/database.ts that begin an attempt or note that it failed, and how
-- they move the events.
use dona.Prelude.{
  ℕ, String, Bool, true, false, List, [], ◌∷◌, Option, none, some, ◌≡◌, refl, ap, ◌∙◌, ◌≤◌, arith,
  Bool-cases, text_discrete, inl, inr, ◌+◌, count_where, ◌==◌,
}
use dona.Exec.{raise, pure, ◌>>=◌}
use dona.Exec.Leads.{
  Leads, Leads-pure, Leads-raise, Leads-transaction, Leads-bind, Leads-gets, Leads-if,
}
use dona.Dispatcher.Events.{
  EventStatus, queued, dispatching, waiting_agent, completed, retryable_failed, blocked,
  needs_review, dead_letter, status_discrete, EventRow, Fault, not_dispatchable, Tables, Others,
  is_in, has_id, get, update_events,
}
use dona.Dispatcher.Queue.{
  Db, dispatchable, bury, record_pre_dispatch_failure, record_safe_prompt_failure,
  record_waiting_error, row_in, retry_status, thrown, remove_file, remove_backup, is_suppressed,
  or_suppressed, begun_row, start, begin_dispatch, retried, given_up, failed_waiting, begun, is_at,
}
use dona.Dispatcher.Phases.{
  phase, Advances, Advances-order, Leads-update_events, Leads-get_required, Leads-get_required_last,
}
use dona.Dispatcher.Moves.{
  and_right, is_yes-text, Leads-seal, Leads-tell, Leads-suppress_unauthorized,
}

module _ {X : Type 0} (o : Others X) where
  Leads-bury :
      (s : Tables X) (status : EventStatus) (id : String) (at : ℕ)
      → Leads Advances s (bury o status id at)
  unfolding bury
  Leads-bury s dead_letter id at =
      Leads-bind Advances-order s _ _ (Leads-seal o s id at) λ _ _. Leads-tell o _ _ _
  Leads-bury s queued id at = Leads-pure Advances-order s tt
  Leads-bury s dispatching id at = Leads-pure Advances-order s tt
  Leads-bury s waiting_agent id at = Leads-pure Advances-order s tt
  Leads-bury s completed id at = Leads-pure Advances-order s tt
  Leads-bury s retryable_failed id at = Leads-pure Advances-order s tt
  Leads-bury s blocked id at = Leads-pure Advances-order s tt
  Leads-bury s needs_review id at = Leads-pure Advances-order s tt

  Leads-row_in :
      {B : Type 0} (s : Tables X) (statuses : List EventStatus) (found : Option EventRow)
      (e : Fault) (f : EventRow → Db o B)
      → ((r : EventRow) → found ≡ some r → is_in statuses r.status ≡ true → Leads Advances s (f r))
      → Leads Advances s (row_in o statuses found e >>= f)
  unfolding ◌>>=◌
  Leads-row_in s statuses none e f h = record { after = Advances-order.same s }
  Leads-row_in s statuses (some r) e f h = elim (Bool-cases (is_in statuses r.status)) [
    | inl k ↦ rw k (record { after = (h r refl k).after })
    | inr k ↦ rw k (record { after = Advances-order.same s })
  ]

  -- The row of an id is one row.
  same_row :
      (s : Tables X) (id : String) (r t : EventRow)
      → get id s ≡ some r
      → get t.event_id s ≡ some t
      → has_id id t ≡ true
      → t ≡ r
  unfolding get text_discrete
  same_row s id r t e f h = cc (is_yes-text t.event_id id h)

  phase_retry :
      (s : EventStatus) (attempts max_attempts : ℕ)
      → phase s ≡ 0
      → phase s ≤ phase (retry_status attempts max_attempts)
  phase_retry s attempts max_attempts e = omega (arith, e)

  early_dispatchable : (s : EventStatus) → is_in dispatchable s ≡ true → phase s ≡ 0
  unfolding status_discrete
  early_dispatchable s h = ground arith

  early_dispatching : (s : EventStatus) → is_in (dispatching ∷ []) s ≡ true → phase s ≡ 0
  unfolding status_discrete
  early_dispatching s h = ground arith

  Leads-retried :
      (s : Tables X) (id code message : String) (row : EventRow) (max_attempts at : ℕ)
      → get id s ≡ some row
      → phase row.status ≡ 0
      → Leads Advances s
          (update_events (has_id id) (retried (row.attempt_count + 1) max_attempts code message at))
  Leads-retried s id code message row max_attempts at found e =
      Leads-update_events s (has_id id)
        (retried (row.attempt_count + 1) max_attempts code message at) (λ r _. refl)
        λ r f h.
          let q = same_row s id row r found f h in
          record {
            further =
                phase_retry r.status (row.attempt_count + 1) max_attempts
                  (ap (λ (t : EventRow). phase t.status) q ∙ e);
            attempted = omega (arith, ap EventRow.attempt_count q);
          }

  Leads-given_up :
      (s : Tables X) (id code message : String) (row : EventRow) (max_attempts at : ℕ)
      → get id s ≡ some row
      → phase row.status ≡ 0
      → Leads Advances s
          (update_events (has_id id) (given_up row.attempt_count max_attempts code message at))
  Leads-given_up s id code message row max_attempts at found e =
      Leads-update_events s (has_id id) (given_up row.attempt_count max_attempts code message at)
        (λ r _. refl)
        λ r f h. record {
          further =
              phase_retry r.status row.attempt_count max_attempts
                (ap (λ (t : EventRow). phase t.status) (same_row s id row r found f h) ∙ e);
          attempted = omega arith;
        }

  pub Leads-record_pre_dispatch_failure :
      (s : Tables X) (id code message : String) (max_attempts at : ℕ)
      → Leads Advances s (record_pre_dispatch_failure o id code message max_attempts at)
  unfolding record_pre_dispatch_failure
  Leads-record_pre_dispatch_failure s id code message max_attempts at =
      Leads-transaction Advances-order s _ (
        Leads-gets Advances-order s _ _ (
          Leads-row_in s dispatchable (get id s) _ _ λ row found k.
            Leads-bind Advances-order s _ _
              (Leads-retried s id code message row max_attempts at found
                (early_dispatchable row.status k))
              λ _ _.
                Leads-bind Advances-order _ _ _ (Leads-bury _ _ id at)
                  λ _ _. Leads-get_required_last _ id))

  pub Leads-record_safe_prompt_failure :
      (s : Tables X) (id code message : String) (max_attempts at : ℕ)
      → Leads Advances s (record_safe_prompt_failure o id code message max_attempts at)
  unfolding record_safe_prompt_failure
  Leads-record_safe_prompt_failure s id code message max_attempts at =
      Leads-transaction Advances-order s _ (
        Leads-gets Advances-order s _ _ (
          Leads-row_in s (dispatching ∷ []) (get id s) _ _ λ row found k.
            Leads-bind Advances-order s _ _
              (Leads-given_up s id code message row max_attempts at found
                (early_dispatching row.status k))
              λ _ _. Leads-bind Advances-order _ _ _ (Leads-bury _ _ id at) λ _ _.
                Leads-bind Advances-order _ _ _ (Leads-seal o _ id at)
                  λ _ _. Leads-get_required_last _ id))

  pub Leads-record_waiting_error :
      (s : Tables X) (id code message : String) (at : ℕ)
      → Leads Advances s (record_waiting_error o id code message at)
  unfolding record_waiting_error
  Leads-record_waiting_error s id code message at =
      Leads-update_events s (is_at id (waiting_agent ∷ [])) (failed_waiting code message at)
        (λ r _. refl) λ r _ h. record { further = omega arith; attempted = omega arith }

  module _ (basename : String → String) (unlink : String → Option Fault)
      (backup_of : String → String) where
    Leads-thrown :
        (s : Tables X) (e : Option Fault) → Leads Advances s (thrown o basename unlink backup_of e)
    Leads-thrown s none = Leads-pure Advances-order s tt
    Leads-thrown s (some e) = Leads-raise Advances-order s e

    Leads-remove_file :
        (s : Tables X) (path : Option String)
        → Leads Advances s (remove_file o basename unlink backup_of path)
    Leads-remove_file s none = Leads-pure Advances-order s tt
    Leads-remove_file s (some path) = Leads-thrown s (unlink path)

    pub Leads-remove_backup :
        (s : Tables X) (row : EventRow)
        → Leads Advances s (remove_backup o basename unlink backup_of row)
    unfolding remove_backup
    Leads-remove_backup s row = Leads-remove_file s _

    Leads-or_suppressed :
        (s : Tables X) (id : String) (found : Option EventRow)
        → Leads Advances s (or_suppressed o basename unlink backup_of id found)
    Leads-or_suppressed s id none = Leads-raise Advances-order s _
    Leads-or_suppressed s id (some r) =
        Leads-if Advances-order s (is_suppressed o basename unlink backup_of r) (pure r)
          (raise (not_dispatchable id)) (λ _. Leads-pure Advances-order s r)
          (λ _. Leads-raise Advances-order s _)

    Leads-begun_row :
        (s : Tables X) (b : Bool) (id : String) (found : Option EventRow)
        → Leads Advances s (begun_row o basename unlink backup_of b id found)
    unfolding begun_row
    Leads-begun_row s true id found = Leads-get_required_last s id
    Leads-begun_row s false id found = Leads-or_suppressed s id found

    Leads-start :
        (s : Tables X) (id path : String) (at : ℕ)
        → Leads Advances s (start o basename unlink backup_of id path at)
    unfolding start
    Leads-start s id path at = Leads-gets Advances-order s _ _ (
        Leads-bind Advances-order s _ _
          (Leads-update_events s (is_at id dispatchable) (begun path at) (λ r _. refl)
            λ r _ h. record {
              further = omega (arith, early_dispatchable r.status (and_right _ _ h));
              attempted = omega arith;
            })
          λ _ _. Leads-gets Advances-order _ _ _ (
            Leads-begun_row _ (count_where (is_at id dispatchable) s.events == 1) id
              (get id (update_events (is_at id dispatchable) (begun path at) s).1)))

    pub Leads-begin_dispatch :
        (s : Tables X) (id path : String) (at : ℕ)
        → Leads Advances s (begin_dispatch o basename unlink backup_of id path at)
    unfolding begin_dispatch
    Leads-begin_dispatch s id path at =
        Leads-bind Advances-order s _ _ (Leads-suppress_unauthorized o s at) λ _ _.
          Leads-get_required _ id _ λ before _.
            Leads-bind Advances-order _ _ _ (Leads-remove_backup _ before)
              λ _ _. Leads-start _ id path at
