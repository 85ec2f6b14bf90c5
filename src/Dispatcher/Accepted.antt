-- ===== src/Dispatcher/Accepted.antt =====
-- An event whose prompt was accepted, and `beginDispatch` of dispatcher/src/database.ts.
use dona.Prelude.{
  ℕ, String, Bool, true, false, List, [], ◌∷◌, Option, none, some, ◌≡◌, refl, sym, ap, subst, ◌∙◌,
  inl, inr, ◌≤◌, arith, All, map, Bool-cases, find?, count_where, update_where, text_eq, ◌==◌,
  if◌then◌else◌,
}
use dona.Exec.{Result, ok, pure, raise, gets, modify, ◌>>=◌}
use dona.Exec.Ends.{bind_returned}
use dona.Dispatcher.Events.{
  EventStatus, status_discrete, EventRow, Fault, not_dispatchable, Tables, Others, is_in, has_id,
  get, get_required, or_missing, update_events,
}
use dona.Dispatcher.Queue.{
  dispatchable, is_at, is_suppressed, or_suppressed, begun_row, start, begun, suppress_unauthorized,
  remove_backup, begin_dispatch,
}
use dona.Dispatcher.Phases.{phase, Later, Advances, Advances-order}
use dona.Dispatcher.Moves.{Leads-suppress_unauthorized, is_yes-text}
use dona.Dispatcher.Attempts.{Leads-remove_backup}
use dona.Dispatcher.Histories.{Distinct, ids, Step, after, IsSparing, after-Spares}

late_status : (s : EventStatus) → 1 ≤ phase s → is_in dispatchable s ≡ false
unfolding status_discrete
late_status s h = ground arith

count_absent :
    (id : String) (rs : List EventRow)
    → All (λ j. id ≡ j → ⊥) (map EventRow.event_id rs)
    → count_where (is_at id dispatchable) rs ≡ 0
unfolding count_where
count_absent id [] h = refl
count_absent id (r ∷ rs) h = elim (Bool-cases (text_eq r.event_id id)) [
  | inl e ↦ absurd (h.0 (sym (is_yes-text r.event_id id e)))
  | inr e ↦ rw e (count_absent id rs h.1)
]

picked :
    (b : Bool) (t r : EventRow) (rest : Option EventRow)
    → b ≡ true
    → (if b then some t else rest) ≡ some r
    → t ≡ r
picked true t r rest h e = cc
picked false t r rest h e = cc

passed :
    (b : Bool) (t r : EventRow) (rest : Option EventRow)
    → b ≡ false
    → (if b then some t else rest) ≡ some r
    → rest ≡ some r
passed true t r rest h e = cc
passed false t r rest h e = e

count_late :
    (id : String) (rs : List EventRow) (r : EventRow)
    → Distinct (map EventRow.event_id rs)
    → find? (has_id id) rs ≡ some r
    → is_in dispatchable r.status ≡ false
    → count_where (is_at id dispatchable) rs ≡ 0
unfolding count_where find?
count_late id [] r d e l = refl
count_late id (t ∷ rs) r d e l = elim (Bool-cases (text_eq t.event_id id)) [
  | inl h ↦
      let same = picked (text_eq t.event_id id) t r (find? (has_id id) rs) h e in
      rw h (
        rw (ap (λ (u : EventRow). is_in dispatchable u.status) same ∙ l) (
          count_absent id rs (
            subst (λ i. All (λ j. i ≡ j → ⊥) (map EventRow.event_id rs))
              (is_yes-text t.event_id id h) d.0)))
  | inr h ↦
      rw h
        (count_late id rs r d.1 (passed (text_eq t.event_id id) t r (find? (has_id id) rs) h e) l)
]

ok_same : {r b : EventRow} → ◌≡◌ {A = Result Fault EventRow} (ok r) (ok b) → r ≡ b
ok_same h = cc

Later-phase :
    (o : Option EventRow) (r : EventRow)
    → 1 ≤ phase r.status
    → Later (some r) o
    → (t : EventRow) × (o ≡ some t) × (1 ≤ phase t.status)
Later-phase none r h l = absurd l
Later-phase (some t) r h l = (t, refl, omega (arith, l.further))

module _ {X : Type 0} (o : Others X) (basename : String → String) (unlink : String → Option Fault)
    (backup_of : String → String) where
  suppressed_only :
      (s : Tables X) (id : String) (found : Option EventRow) (b : EventRow)
      → (or_suppressed o basename unlink backup_of id found s).0 ≡ ok b
      → is_suppressed o basename unlink backup_of b ≡ true
  unfolding raise pure
  suppressed_only s id none b h = cc
  suppressed_only s id (some r) b h = by_test (is_suppressed o basename unlink backup_of r) refl h
    where
      by_test :
          (c : Bool)
          → is_suppressed o basename unlink backup_of r ≡ c
          → ((if c then pure {E = Fault} r else raise (not_dispatchable id)) s).0 ≡ ok b
          → is_suppressed o basename unlink backup_of b ≡ true
      by_test true e k =
          subst (λ q. is_suppressed o basename unlink backup_of q ≡ true) (ok_same k) e
      by_test false e k = cc

  begun_refuses :
      (t : Tables X) (c : Bool) (id : String) (found : Option EventRow) (b : EventRow)
      → c ≡ false
      → (begun_row o basename unlink backup_of c id found t).0 ≡ ok b
      → is_suppressed o basename unlink backup_of b ≡ true
  unfolding begun_row
  begun_refuses t true id found b c h = cc
  begun_refuses t false id found b c h = suppressed_only t id found b h

  start_refuses :
      (s : Tables X) (id path : String) (at : ℕ) (r b : EventRow)
      → Distinct (ids s)
      → get id s ≡ some r
      → 1 ≤ phase r.status
      → (start o basename unlink backup_of id path at s).0 ≡ ok b
      → is_suppressed o basename unlink backup_of b ≡ true
  unfolding start ◌>>=◌ update_events gets modify get
  start_refuses s id path at r b d found h e =
      begun_refuses
        (record s { events = update_where (is_at id dispatchable) (begun path at) s.events })
        (count_where (is_at id dispatchable) s.events == 1) id _ b
        (none_changed (count_where (is_at id dispatchable) s.events)
          (count_late id s.events r d found (late_status r.status h)))
        e
    where
      none_changed : (n : ℕ) → n ≡ 0 → (n == 1) ≡ false
      none_changed n q = ground arith

  read_required : (s : Tables X) (id : String) → (get_required id s).1 ≡ s
  unfolding get_required ◌>>=◌ gets
  read_required s id = by_row (get id s)
    where
      by_row : (found : Option EventRow) → (or_missing id found s).1 ≡ s
      by_row none = refl
      by_row (some r) = refl

  start_after :
      (s u : Tables X) (id path : String) (at : ℕ) (r b : EventRow)
      → Distinct (ids s)
      → get id s ≡ some r
      → 1 ≤ phase r.status
      → Advances s u
      → (start o basename unlink backup_of id path at u).0 ≡ ok b
      → is_suppressed o basename unlink backup_of b ≡ true
  start_after s u id path at r b d found h adv e =
      let (t, here, late) =
        Later-phase (get id u) r h (subst (λ q. Later q (get id u)) found (adv.rows id)) in
      start_refuses u id path at t b (subst Distinct (sym adv.ids_kept) d) here late e

  begin_refuses :
      (s : Tables X) (id path : String) (at : ℕ) (r b : EventRow)
      → Distinct (ids s)
      → get id s ≡ some r
      → 1 ≤ phase r.status
      → (begin_dispatch o basename unlink backup_of id path at s).0 ≡ ok b
      → is_suppressed o basename unlink backup_of b ≡ true
  unfolding begin_dispatch
  begin_refuses s id path at r b d found h e =
      let (a, _, e1) = bind_returned (suppress_unauthorized o at) _ s b e in
      let s1 = (suppress_unauthorized o at s).1 in
      let (before, _, e2) = bind_returned (get_required id) _ s1 b e1 in
      let s2 = (get_required id s1).1 in
      let (c, _, e3) = bind_returned (remove_backup o basename unlink backup_of before) _ s2 b e2 in
      start_after s (remove_backup o basename unlink backup_of before s2).1 id path at r b d found h
        (Advances-order.chain s s2 _
          (subst (λ q. Advances s q) (sym (read_required s1 id))
            (Leads-suppress_unauthorized o s at).after)
          (Leads-remove_backup o basename unlink backup_of s2 before).after)
        e3

  module _ (result_path_of : String → String) (message_of : Fault → String) (max_attempts : ℕ) where
    -- Where event ids are distinct, take any turns of the worker, restart recoveries, errors noted,
    -- reviews asked for, blocks, and deterministic results, and between them changes by others that
    -- keep the ids distinct and the event as far as it was after no fewer attempts, such as new
    -- events and retries of other events, but not a manual retry of it; within a turn others only
    -- advance the events. An event whose prompt was accepted, or that is settled, is not begun again
    -- after them: where `beginDispatch` of it returns, the row was completed as suppressed.
    pub accepted-NotBegun :
        (steps : List (Step X)) (s : Tables X) (id path : String) (at : ℕ) (r b : EventRow)
        → Distinct (ids s)
        → IsSparing o basename unlink backup_of result_path_of message_of max_attempts id steps s
        → get id s ≡ some r
        → 1 ≤ phase r.status
        → (begin_dispatch o basename unlink backup_of id path at
            (after o basename unlink backup_of result_path_of message_of max_attempts steps s)).0
          ≡ ok b
        → is_suppressed o basename unlink backup_of b ≡ true
    accepted-NotBegun steps s id path at r b d all found h e =
        let u = after o basename unlink backup_of result_path_of message_of max_attempts steps s in
        let spared =
          after-Spares o basename unlink backup_of result_path_of message_of max_attempts id steps s
            all in
        let (t, here, late) =
          Later-phase (get id u) r h (subst (λ q. Later q (get id u)) found spared.later) in
        begin_refuses u id path at t b (spared.distinct_kept d) here late e
