-- ===== src/Schedules/Untouched.antt =====
-- The methods of dispatcher/src/scheduler/repository.ts that do not write the outbox.
use dona.Prelude.{◌≡◌, refl, ◌∙◌, ℕ, String, Bool, Option, none, some, List, [], ◌∷◌, is_some}
use dona.Exec.{pure}
use dona.Exec.Leads.{IsOrder, Leads, Leads-write, Leads-pure, Leads-bind, Leads-gets, Leads-if}
use dona.Dispatcher.Events.{EventRow}
use dona.Schedules.Rows.{Outbox, Tables, Run, Schedule, Actor, CompletionResult}
use dona.Schedules.Store.{
  AuditParts, or_else, system_actor, about_outbox, get_outbox, latest, no_parts, before_part, audit,
  audit_outbox, retire_revisions, update_runs, update_schedules,
}
use dona.Schedules.Settle.{update_events, update_completions, suppress_events, audit_each}
use dona.Schedules.Drain.{
  last_terminal, schedule_times, complete, complete_settled, complete_exhausted,
  complete_if_drained,
}
use dona.Schedules.Rowwise.{Leads-required}

pub record Untouched (s t : Tables) : Type 0 where
  pub outbox_same : t.outbox ≡ s.outbox

pub Untouched-order : IsOrder Untouched
Untouched-order = record {
  same = λ s. record { outbox_same = refl };
  chain = λ s t u h k. record { outbox_same = k.outbox_same ∙ h.outbox_same };
}

module _ (s : Tables) where
  pub Leads-retire_revisions :
      (id : String) (now : ℕ) (only : Option ℕ) → Leads Untouched s (retire_revisions id now only)
  unfolding retire_revisions
  Leads-retire_revisions id now only =
      Leads-write Untouched-order s _ (record { outbox_same = refl })

  pub Leads-update_runs : (p : Run → Bool) (f : Run → Run) → Leads Untouched s (update_runs p f)
  unfolding update_runs
  Leads-update_runs p f = Leads-write Untouched-order s _ (record { outbox_same = refl })

  pub Leads-update_schedules :
      (p : Schedule → Bool) (f : Schedule → Schedule) → Leads Untouched s (update_schedules p f)
  unfolding update_schedules
  Leads-update_schedules p f = Leads-write Untouched-order s _ (record { outbox_same = refl })

  pub Leads-update_events :
      (p : EventRow → Bool) (f : EventRow → EventRow) → Leads Untouched s (update_events p f)
  unfolding update_events
  Leads-update_events p f = Leads-write Untouched-order s _ (record { outbox_same = refl })

  pub Leads-update_completions :
      (p : CompletionResult → Bool) (f : CompletionResult → CompletionResult)
      → Leads Untouched s (update_completions p f)
  unfolding update_completions
  Leads-update_completions p f = Leads-write Untouched-order s _ (record { outbox_same = refl })

  Leads-before_part : (o : Option Schedule) → Leads Untouched s (before_part o)
  Leads-before_part none = Leads-pure Untouched-order s none
  Leads-before_part (some row) =
      Leads-gets Untouched-order s _ _
        (Leads-required Untouched-order s _ _ λ revision _. Leads-pure Untouched-order s _)

  pub Leads-audit :
      (before : Option Schedule) (after : Schedule) (operation : String) (actor : Actor) (now : ℕ)
      (p : AuditParts)
      → Leads Untouched s (audit before after operation actor now p)
  unfolding audit
  Leads-audit before after operation actor now p = Leads-gets Untouched-order s _ _ (
      Leads-gets Untouched-order s _ _ (
        Leads-required Untouched-order s _ _ λ snapshot _.
          Leads-bind Untouched-order s _ _ (Leads-before_part before)
            λ entry _. Leads-write Untouched-order _ _ (record { outbox_same = refl })))

  pub Leads-audit_outbox :
      (row : Outbox) (operation : String) (now : ℕ) (before : Option Schedule)
      (code : Option String)
      → Leads Untouched s (audit_outbox row operation now before code)
  unfolding audit_outbox
  Leads-audit_outbox row operation now before code = Leads-gets Untouched-order s _ _ (
      Leads-required Untouched-order s _ _ λ run _. Leads-gets Untouched-order s _ _ (
        Leads-required Untouched-order s _ _ λ schedule _. Leads-gets Untouched-order s _ _ (
          Leads-audit (some (or_else before schedule)) schedule operation
            (system_actor "scheduler" schedule none) now
            (about_outbox (get_outbox row.outbox_id now s) code))))

pub Leads-audit_each :
    (rows : List Outbox) (s : Tables) (operation : String) (now : ℕ)
    → Leads Untouched s (audit_each rows operation now)
unfolding audit_each
Leads-audit_each [] s operation now = Leads-pure Untouched-order s tt
Leads-audit_each (row ∷ rows) s operation now =
    Leads-bind Untouched-order s _ _ (Leads-audit_outbox s row operation now none none)
      λ _ _. Leads-audit_each rows _ operation now

module _ (s : Tables) where
  pub Leads-suppress_events : (id : String) (now : ℕ) → Leads Untouched s (suppress_events id now)
  unfolding suppress_events
  Leads-suppress_events id now = Leads-gets Untouched-order s _ _ (
      Leads-bind Untouched-order s _ _ (Leads-update_events s _ _) λ _ _.
        Leads-gets Untouched-order _ _ _ (
          Leads-bind Untouched-order _ _ _ (Leads-update_events _ _ _)
            λ _ _. Leads-gets Untouched-order _ _ _ (Leads-update_completions _ _ _)))

  Leads-complete : (before : Schedule) (now : ℕ) → Leads Untouched s (complete before now)
  unfolding complete
  Leads-complete before now = Leads-gets Untouched-order s _ _ (
      Leads-bind Untouched-order s _ _ (Leads-update_schedules s _ _) λ _ _.
        Leads-bind Untouched-order _ _ _ (Leads-retire_revisions _ before.schedule_id _ none) λ _ _.
          Leads-gets Untouched-order _ _ _ (
            Leads-required Untouched-order _ _ _ λ after _.
              Leads-audit _ (some before) after "complete" (system_actor "scheduler" before none)
                (latest now (
                  or_else (last_terminal before.schedule_id s.runs) before.created_at
                  ∷ schedule_times before))
                no_parts))

  Leads-complete_settled :
      (before : Schedule) (now : ℕ) → Leads Untouched s (complete_settled before now)
  unfolding complete_settled
  Leads-complete_settled before now = Leads-gets Untouched-order s _ _ (
      Leads-if Untouched-order s (is_some _) (pure tt) (complete before now)
        (λ _. Leads-pure Untouched-order s tt) (λ _. Leads-complete before now))

  Leads-complete_exhausted :
      (before : Schedule) (now : ℕ) → Leads Untouched s (complete_exhausted before now)
  unfolding complete_exhausted
  Leads-complete_exhausted before now = Leads-gets Untouched-order s _ _ (
      Leads-required Untouched-order s _ _ λ revision _.
        Leads-if Untouched-order s _ (pure tt) (complete_settled before now)
          (λ _. Leads-pure Untouched-order s tt) (λ _. Leads-complete_settled before now))

  pub Leads-complete_if_drained :
      (id : String) (now : ℕ) → Leads Untouched s (complete_if_drained id now)
  unfolding complete_if_drained
  Leads-complete_if_drained id now = Leads-gets Untouched-order s _ _ (
      Leads-required Untouched-order s _ _ λ before _.
        Leads-if Untouched-order s _ (complete_exhausted before now) (pure tt)
          (λ _. Leads-complete_exhausted before now) (λ _. Leads-pure Untouched-order s tt))
