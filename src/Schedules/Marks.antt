-- ===== src/Schedules/Marks.antt =====
-- The watermark of a schedule in the methods of dispatcher/src/scheduler/repository.ts.
use dona.Prelude.{
  ◌≡◌, refl, subst, ℕ, String, Bool, true, false, List, [], ◌∷◌, Option, none, some, All,
  update_where, find?, find?-holds, is_some, if◌then◌else◌,
}
use dona.Exec.{pure}
use dona.Exec.Leads.{IsOrder, Leads, Leads-write, Leads-pure, Leads-bind, Leads-gets, Leads-if}
use dona.Schedules.Rows.{Schedule, Tables, Actor}
use dona.Schedules.Store.{
  AuditParts, get, schedule_is, before_part, audit, retire_revisions, update_schedules,
  system_actor, no_parts, latest, or_else,
}
use dona.Schedules.Drain.{
  complete, complete_settled, complete_exhausted, complete_if_drained, last_terminal,
  schedule_times, completed_schedule,
}
use dona.Schedules.Claims.{drop_claim}
use dona.Schedules.Materialize.{Request, HeldClaim}
use dona.Schedules.Occurrence.{if_claimed}
use dona.Schedules.Rowwise.{Leads-required}

module _ {A : Type 0} (Q : A → Type 0) (p : A → Bool) (f : A → A) where
  All-kept : (xs : List A) → ((x : A) → Q x → Q (f x)) → All Q xs → All Q (update_where p f xs)
  unfolding update_where
  All-kept [] k qs = tt
  All-kept (x ∷ xs) k (q, qs) = (chosen (p x), All-kept xs k qs)
    where
      chosen : (b : Bool) → Q (if b then f x else x)
      chosen true = k x q
      chosen false = q

  All-written :
      (xs : List A)
      → ((x : A) → p x ≡ true → Q (f x))
      → ((x : A) → p x ≡ false → Q x)
      → All Q (update_where p f xs)
  unfolding update_where
  All-written [] k l = tt
  All-written (x ∷ xs) k l = (chosen (p x) refl, All-written xs k l)
    where
      chosen : (b : Bool) → p x ≡ b → Q (if b then f x else x)
      chosen true e = k x e
      chosen false e = l x e

All-find? :
    {A : Type 0} (Q : A → Type 0) (p : A → Bool) (xs : List A) (a : A)
    → All Q xs
    → find? p xs ≡ some a
    → Q a
unfolding find?
All-find? Q p [] a qs e = cc
All-find? Q p (x ∷ xs) a (q, qs) e = chosen (p x) (All-find? Q p xs a qs) e
  where
    chosen :
        (b : Bool) → (find? p xs ≡ some a → Q a) → (if b then some x else find? p xs) ≡ some a → Q a
    chosen true k e = let i : x ≡ a = cc in subst Q i q
    chosen false k e = k e

module _ (id : String) (w : ℕ) where
  -- The schedule's watermark is `w`.
  pub HasMark : Schedule → Type 0
  HasMark r = schedule_is id r ≡ true → r.high_watermark ≡ some w

  abbrev pub Marked : Tables → Type 0
  Marked s = All HasMark s.schedules

  pub Marked-written :
      (f : Schedule → Schedule) (rows : List Schedule)
      → ((r : Schedule) → (f r).high_watermark ≡ some w)
      → All HasMark (update_where (schedule_is id) f rows)
  unfolding HasMark
  Marked-written f rows k = All-written HasMark (schedule_is id) f rows (λ r e h. k r) (λ r e h. cc)

  pub Marked-row :
      (s : Tables) (row : Schedule) → Marked s → get id s ≡ some row → row.high_watermark ≡ some w
  unfolding HasMark get
  Marked-row s row m e =
      All-find? HasMark (schedule_is id) s.schedules row m e
        (find?-holds (schedule_is id) s.schedules row e)

  pub record Carries (s t : Tables) : Type 0 where
    pub carried : Marked s → Marked t

  Carries-order : IsOrder Carries
  Carries-order = record {
    same = λ s. record { carried = λ h. h };
    chain = λ s t u h k. record { carried = λ m. k.carried (h.carried m) };
  }

  module _ (s : Tables) where
    Carries-retire_revisions :
        (i : String) (now : ℕ) (only : Option ℕ) → Leads Carries s (retire_revisions i now only)
    unfolding retire_revisions
    Carries-retire_revisions i now only =
        Leads-write Carries-order s _ (record { carried = λ h. h })

    Carries-before_part : (o : Option Schedule) → Leads Carries s (before_part o)
    Carries-before_part none = Leads-pure Carries-order s none
    Carries-before_part (some row) =
        Leads-gets Carries-order s _ _
          (Leads-required Carries-order s _ _ λ revision _. Leads-pure Carries-order s _)

    pub Carries-audit :
        (before : Option Schedule) (after : Schedule) (operation : String) (actor : Actor) (now : ℕ)
        (p : AuditParts)
        → Leads Carries s (audit before after operation actor now p)
    unfolding audit
    Carries-audit before after operation actor now p = Leads-gets Carries-order s _ _ (
        Leads-gets Carries-order s _ _ (
          Leads-required Carries-order s _ _ λ snapshot _.
            Leads-bind Carries-order s _ _ (Carries-before_part before)
              λ entry _. Leads-write Carries-order _ _ (record { carried = λ h. h })))

    pub Carries-if_claimed :
        (q : Request) (i : String) → Leads Carries s (if_claimed q (drop_claim i))
    unfolding drop_claim
    Carries-if_claimed q i = given q.claim
      where
        given :
            (c : Option HeldClaim)
            → Leads {E = String} {A = Unit} Carries s
                (elim c [ none ↦ pure tt | some held ↦ drop_claim i ])
        given none = Leads-pure Carries-order s tt
        given (some held) = Leads-write Carries-order s _ (record { carried = λ h. h })

    Carries-completed :
        (i : String) (at : ℕ)
        → Leads Carries s (update_schedules (schedule_is i) (completed_schedule at))
    unfolding update_schedules HasMark
    Carries-completed i at = Leads-write Carries-order s _ (record {
      carried = All-kept HasMark (schedule_is i) (completed_schedule at) s.schedules λ r h. h;
    })

  Carries-complete :
      (s : Tables) (before : Schedule) (now : ℕ) → Leads Carries s (complete before now)
  unfolding complete
  Carries-complete s before now = Leads-gets Carries-order s _ _ (
      Leads-bind Carries-order s _ _ (Carries-completed s _ _) λ _ _.
        Leads-bind Carries-order _ _ _ (Carries-retire_revisions _ before.schedule_id _ none) λ _ _.
          Leads-gets Carries-order _ _ _ (
            Leads-required Carries-order _ _ _ λ after _.
              Carries-audit _ (some before) after "complete" (system_actor "scheduler" before none)
                (latest now (
                  or_else (last_terminal before.schedule_id s.runs) before.created_at
                  ∷ schedule_times before))
                no_parts))

  Carries-complete_settled :
      (s : Tables) (before : Schedule) (now : ℕ) → Leads Carries s (complete_settled before now)
  unfolding complete_settled
  Carries-complete_settled s before now = Leads-gets Carries-order s _ _ (
      Leads-if Carries-order s (is_some _) (pure tt) (complete before now)
        (λ _. Leads-pure Carries-order s tt) (λ _. Carries-complete s before now))

  Carries-complete_exhausted :
      (s : Tables) (before : Schedule) (now : ℕ) → Leads Carries s (complete_exhausted before now)
  unfolding complete_exhausted
  Carries-complete_exhausted s before now = Leads-gets Carries-order s _ _ (
      Leads-required Carries-order s _ _ λ revision _.
        Leads-if Carries-order s _ (pure tt) (complete_settled before now)
          (λ _. Leads-pure Carries-order s tt) (λ _. Carries-complete_settled s before now))

  pub Carries-complete_if_drained :
      (s : Tables) (i : String) (now : ℕ) → Leads Carries s (complete_if_drained i now)
  unfolding complete_if_drained
  Carries-complete_if_drained s i now = Leads-gets Carries-order s _ _ (
      Leads-required Carries-order s _ _ λ before _.
        Leads-if Carries-order s _ (complete_exhausted before now) (pure tt)
          (λ _. Carries-complete_exhausted s before now) (λ _. Leads-pure Carries-order s tt))
