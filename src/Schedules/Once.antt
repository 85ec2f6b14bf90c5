-- ===== src/Schedules/Once.antt =====
-- dispatcher/src/scheduler/repository.ts: an occurrence that `materialize` has made a run of, and the
-- calls for it after that.
use Prim.Native.String
use dona.Prelude.{
  ◌≡◌, ◌⊎◌, inl, inr, refl, ap, subst, ℕ, String, Bool, true, false, Option, none, some, ltb, arith,
  ◌≤◌,
}
use dona.Exec.{Result, ok}
use dona.Exec.Leads.{Leads}
use dona.Exec.Ends.{
  Ends, Ends-bind, Ends-pure, Ends-gets, Ends-require, Ends-transaction, Ends-raise, Ends-read,
  Ends-write,
}
use dona.Schedules.Rows.{Schedule, Tables, Revision, Run}
use dona.Schedules.Store.{Db, get, get_run, checked, or_throw, schedule_is, update_schedules}
use dona.Schedules.Delivery.{Host}
use dona.Schedules.Materialize.{Queue, Request, occurrence_of, after_opt}
use dona.Schedules.Occurrence.{
  Materialized, advanced, about_occurrence, record_run, record_or_expire, materialize_new,
  materialize_found, materialize_checked, materialize, content_now,
}
use dona.Schedules.Started.{Ends-required, Ends-or_throw}
use dona.Schedules.Decisions.{checked_reads}
use dona.Schedules.Marks.{
  Marked, Carries, Carries-audit, Carries-if_claimed, Carries-complete_if_drained, Marked-written,
  Marked-row,
}

Ends-any : {A : Type 0} (s : Tables) (m : Db A) → Ends (λ _ _. Unit {0}) s m
Ends-any s m = record { after = λ a t e. tt }

module _ (q : Request) where
  abbrev Past : Tables → Type 0
  Past t = Marked q.schedule_id q.scheduled_for t

  Ends-Past :
      {A : Type 0} (s : Tables) (m : Db A)
      → Leads (Carries q.schedule_id q.scheduled_for) s m
      → Past s
      → Ends (λ _ t. Past t) s m
  Ends-Past s m l p = record {
    after = λ a t e. subst Past (ap (λ (r : Result String _ × Tables). r.1) e) (l.after.carried p);
  }

  Ends-advanced :
      (s : Tables) (at : ℕ)
      → Ends (λ _ t. Past t) s (update_schedules (schedule_is q.schedule_id) (advanced q at))
  unfolding update_schedules
  Ends-advanced s at =
      Ends-write _ s _
        (Marked-written q.schedule_id q.scheduled_for (advanced q at) s.schedules λ r. refl)

  -- A run that is returned as new, with the schedule past its occurrence.
  abbrev Made : Materialized → Tables → Type 0
  Made m t = (m.duplicate ≡ false) × Past t

  Ends-record_run :
      (h : Host) (queue : Queue) (s : Tables) (row : Schedule) (v : Revision) (content : String)
      (at : ℕ)
      → Ends Made s (record_run h queue q row v content at)
  unfolding record_run
  Ends-record_run h queue s row v content at =
      let id = q.schedule_id in
      let w = q.scheduled_for in
      Ends-gets _ s _ _ (
        Ends-require _ s _ _ _ λ _. Ends-bind _ s _ _ _ (Ends-any s _) λ drawn s1 _.
          Ends-bind _ s1 _ _ _ (Ends-any s1 _) λ _ s2 _.
            Ends-bind _ s2 _ _ _ (Ends-any s2 _) λ _ s3 _.
              Ends-bind _ s3 _ _ _ (Ends-advanced s3 at) λ _ s4 p4.
                Ends-bind _ s4 _ _ _ (Ends-Past s4 _ (Carries-if_claimed id w s4 q id) p4)
                  λ _ s5 p5. Ends-gets _ s5 _ _ (
                    Ends-required _ s5 _ _ λ after _. Ends-gets _ s5 _ _ (
                      Ends-bind _ s5 _ _ _
                        (Ends-Past s5 _
                          (Carries-audit id w s5 (some row) after "materialize" q.actor at
                            (about_occurrence (get_run (String.◌++◌ "run_" drawn) s5) q))
                          p5)
                        λ _ s6 p6.
                          Ends-bind _ s6 _ _ _
                            (Ends-Past s6 _ (Carries-complete_if_drained id w s6 _ _) p6)
                            λ _ s7 p7.
                              Ends-gets _ s7 _ _
                                (Ends-required _ s7 _ _ λ result _. Ends-pure _ s7 _ (refl, p7)))))

  -- An occurrence that was a run before.
  record Repeats (s : Tables) (m : Materialized) : Type 0 where
    pub repeated : m.duplicate ≡ true
    pub stood : occurrence_of q.schedule_id q.scheduled_for s ≡ some m.run

  -- A new run, of an occurrence past the watermark of its schedule.
  record Advances (s : Tables) (m : Materialized) (t : Tables) : Type 0 where
    pub made : m.duplicate ≡ false
    pub before : Schedule
    pub before_found : get q.schedule_id s ≡ some before
    pub after_mark : after_opt before.high_watermark q.scheduled_for ≡ true
    pub past : Past t

  Outcome : Tables → Option Materialized → Tables → Type 0
  Outcome s none t = Unit
  Outcome s (some m) t = Repeats s m ⊎ Advances s m t

  Ends-materialize_new :
      (h : Host) (queue : Queue) (s : Tables) (row : Schedule) (at : ℕ)
      → get q.schedule_id s ≡ some row
      → Ends (Outcome s) s (materialize_new h queue q row at)
  unfolding materialize_new record_or_expire Outcome
  Ends-materialize_new h queue s row at found = Ends-require _ s _ _ _ λ _.
      Ends-require _ s _ _ _ λ _. Ends-require _ s _ _ _ λ due. Ends-gets _ s _ _ (
        Ends-required _ s _ _ λ v _. Ends-require _ s _ _ _ λ _.
          Ends-bind _ s _ _ _ (Ends-any s _)
            λ _ u _. recorded v (ground arith) u (content_now v at))
    where
      recorded :
          (v : Revision)
          → after_opt row.high_watermark q.scheduled_for ≡ true
          → (u : Tables) (content : Option String)
          → Ends (Outcome s) u (record_or_expire h queue q row v at content)
      recorded v k u none = Ends-bind _ u _ _ _ (Ends-any u _) λ _ t _. Ends-pure _ t none tt
      recorded v k u (some content) =
          Ends-bind _ u _ _ _ (Ends-record_run h queue u row v content at) λ m t (d, p).
            Ends-pure _ t (some m) (
              inr
                (record { made = d; before = row; before_found = found; after_mark = k; past = p }))

  Ends-materialize_found :
      (h : Host) (queue : Queue) (s : Tables) (row : Schedule) (at : ℕ) (existing : Option Run)
      → get q.schedule_id s ≡ some row
      → occurrence_of q.schedule_id q.scheduled_for s ≡ existing
      → Ends (Outcome s) s (materialize_found h queue q row at existing)
  unfolding materialize_found Outcome
  Ends-materialize_found h queue s row at none found e = Ends-materialize_new h queue s row at found
  Ends-materialize_found h queue s row at (some run) found e =
      Ends-bind _ s _ _ _ (Ends-any s _)
        λ _ t _. Ends-pure _ t _ (inl (record { repeated = refl; stood = e }))

  Ends-checked :
      (s : Tables) (id : String) (revision : ℕ) (owner_only : Bool)
      → Ends (λ row _. get id s ≡ some row) s (checked id revision q.actor owner_only)
  unfolding checked
  Ends-checked s id revision owner_only = Ends-gets _ s _ _ (
      Ends-or_throw _ s _ _ _ λ row found. Ends-require _ s _ _ _ λ _.
        Ends-bind _ s _ _ _ (Ends-any s _)
          λ _ u _. Ends-require _ u _ _ _ λ _. Ends-pure _ u row found)

  Ends-materialize_checked :
      (h : Host) (queue : Queue) (s : Tables) → Ends (Outcome s) s (materialize_checked h queue q)
  unfolding materialize_checked
  Ends-materialize_checked h queue s =
      let id = q.schedule_id in
      Ends-gets _ s _ _ (
        Ends-or_throw _ s _ _ _ λ current _.
          Ends-read _ s _ _ (checked_reads s id current.revision q.actor false) λ row e.
            Ends-gets _ s _ _ (
              Ends-require _ s _ _ _ λ _. Ends-gets _ s _ _ (
                Ends-materialize_found h queue s row _ _
                  ((Ends-checked s id current.revision false).after row _
                    (λ i. (e i, (checked id current.revision q.actor false s).1)))
                  refl)))

  Ends-materialize :
      (h : Host) (queue : Queue) (s : Tables)
      → Ends (λ m t. Repeats s m ⊎ Advances s m t) s (materialize h queue q)
  unfolding materialize Outcome
  Ends-materialize h queue s =
      Ends-bind _ s _ _ _ (Ends-transaction _ s _ (Ends-materialize_checked h queue s)) last
    where
      last :
          (r : Option Materialized) (t : Tables)
          → Outcome s r t
          → Ends (λ m t. Repeats s m ⊎ Advances s m t) t (or_throw "authorization_expired" r)
      last none t o = Ends-raise _ t _
      last (some m) t o = Ends-pure _ t m o

-- Once `materialize` has returned a new run of an occurrence, a call on the tables that it left, for
-- an occurrence of that schedule that is not later, returns no new run if it returns: its result is
-- marked as a duplicate, and is the run of the occurrence that stands in the tables.
pub materialize-IsOnce :
    (h : Host) (queue : Queue) (q p : Request) (s t u : Tables) (first second : Materialized)
    → materialize h queue q s ≡ (ok first, t)
    → first.duplicate ≡ false
    → materialize h queue p t ≡ (ok second, u)
    → p.schedule_id ≡ q.schedule_id
    → p.scheduled_for ≤ q.scheduled_for
    → (second.duplicate ≡ true) × (occurrence_of p.schedule_id p.scheduled_for t ≡ some second.run)
materialize-IsOnce h queue q p s t u first second e new k id le =
    once ((Ends-materialize q h queue s).after first t e)
      ((Ends-materialize p h queue t).after second u k)
  where
    not_past : (o : Option ℕ) → o ≡ some q.scheduled_for → after_opt o p.scheduled_for ≡ true → ⊥
    not_past o e a = past (subst (λ o. after_opt o p.scheduled_for ≡ true) e a)
      where
        past : ltb q.scheduled_for p.scheduled_for ≡ true → ⊥
        past a = ground arith

    once :
        Repeats q s first ⊎ Advances q s first t
        → Repeats p t second ⊎ Advances p t second u
        → (second.duplicate ≡ true)
          × (occurrence_of p.schedule_id p.scheduled_for t ≡ some second.run)
    once (inl r) b = cc
    once (inr a) (inl r) = (r.repeated, r.stood)
    once (inr a) (inr b) = absurd (
        not_past b.before.high_watermark
          (Marked-row q.schedule_id q.scheduled_for t b.before a.past
            (subst (λ i. get i t ≡ some b.before) id b.before_found))
          b.after_mark)
