-- ===== src/Dispatcher/Phases.antt =====
-- How far an event has come in the queue of dispatcher/src/database.ts: before its prompt was
-- accepted, accepted, or settled. The relation of the tables before and after a method, and the
-- statements that keep it.
use dona.Prelude.{
  ℕ, String, Bool, true, false, Option, none, some, ◌≡◌, refl, ap, ◌∙◌, subst, sym, ◌≤◌, arith,
  find?-holds, find?-update_where, update_where, text_eq, map, List, [], ◌∷◌, if◌then◌else◌,
}
use mathlib.Core.Option
use dona.Exec.{Exec, ◌>>=◌}
use dona.Exec.Leads.{
  IsOrder, Leads, Leads-write, Leads-gets, Leads-bind, Leads-check, Leads-raise, Leads-pure,
}
use dona.Dispatcher.Events.{
  EventStatus, queued, dispatching, waiting_agent, retryable_failed, EventRow, Fault, Tables,
  has_id, in_others, get, get_required, or_missing, update_events, update_one,
}

abbrev pub phase : EventStatus → ℕ
phase queued = 0
phase retryable_failed = 0
phase dispatching = 0
phase waiting_agent = 1
phase s = 2

-- A later row of an event is as far or further, after as many attempts or more.
pub record Advanced (r t : EventRow) : Type 0 where
  pub further : phase r.status ≤ phase t.status
  pub attempted : r.attempt_count ≤ t.attempt_count

abbrev pub Later : Option EventRow → Option EventRow → Type 0
Later none o = Unit
Later (some r) none = ⊥
Later (some r) (some t) = Advanced r t

pub Later-refl : (o : Option EventRow) → Later o o
Later-refl none = tt
Later-refl (some r) = record { further = omega arith; attempted = omega arith }

pub Later-trans : (a b c : Option EventRow) → Later a b → Later b c → Later a c
Later-trans none b c h k = tt
Later-trans (some r) none c h k = absurd h
Later-trans (some r) (some t) none h k = absurd k
Later-trans (some r) (some t) (some u) h k = record {
  further = omega (arith, h.further, k.further);
  attempted = omega (arith, h.attempted, k.attempted);
}

chosen :
    (f : EventRow → EventRow) (r : EventRow) (b : Bool)
    → (b ≡ true → Advanced r (f r))
    → Advanced r (if b then f r else r)
chosen f r true h = h refl
chosen f r false h = record { further = omega arith; attempted = omega arith }

Later-map :
    (f : EventRow → EventRow) (p : EventRow → Bool) (o : Option EventRow)
    → ((r : EventRow) → o ≡ some r → p r ≡ true → Advanced r (f r))
    → Later o (Option.map (λ r. if p r then f r else r) o)
Later-map f p none h = tt
Later-map f p (some r) h = chosen f r (p r) (h r refl)

ids-update_where :
    (p : EventRow → Bool) (f : EventRow → EventRow) (rs : List EventRow)
    → ((r : EventRow) → p r ≡ true → (f r).event_id ≡ r.event_id)
    → map EventRow.event_id (update_where p f rs) ≡ map EventRow.event_id rs
unfolding update_where
ids-update_where p f [] keep = refl
ids-update_where p f (r ∷ rs) keep = ap2 (kept (p r) (keep r)) (ids-update_where p f rs keep)
  where
    kept :
        (b : Bool)
        → (b ≡ true → (f r).event_id ≡ r.event_id)
        → (if b then f r else r).event_id ≡ r.event_id
    kept true k = k refl
    kept false k = refl

    ap2 : {i j : String} {is js : List String} → i ≡ j → is ≡ js → i ∷ is ≡ j ∷ js
    ap2 h k = cc

module _ {X : Type 0} where
  -- Every event is still there and has advanced, and none is added.
  pub record Advances (s t : Tables X) : Type 0 where
    pub rows : (id : String) → Later (get id s) (get id t)
    pub ids_kept : map EventRow.event_id t.events ≡ map EventRow.event_id s.events

  pub Advances-order : IsOrder Advances
  Advances-order = record {
    same = λ s. record { rows = λ id. Later-refl (get id s); ids_kept = refl };
    chain = λ s t u h k. record {
      rows = λ id. Later-trans (get id s) (get id t) (get id u) (h.rows id) (k.rows id);
      ids_kept = k.ids_kept ∙ h.ids_kept;
    };
  }

  pub Advances-others : (s : Tables X) (x : X) → Advances s (record s { others = x })
  unfolding get
  Advances-others s x = record { rows = λ id. Later-refl (get id s); ids_kept = refl }

  pub Leads-in_others : (s : Tables X) (m : Exec Fault X Unit) → Leads Advances s (in_others m)
  unfolding in_others
  Leads-in_others s m = record { after = Advances-others s (m s.others).1 }

  pub get_self :
      (id : String) (s : Tables X) (r : EventRow) → get id s ≡ some r → get r.event_id s ≡ some r
  unfolding get
  get_self id s r e = subst (λ i. get i s ≡ some r) (sym (own id s r e)) e
    where
      own : (id : String) (s : Tables X) (r : EventRow) → get id s ≡ some r → r.event_id ≡ id
      own id s r e = ground (arith, find?-holds (has_id id) s.events r e)

  pub Leads-update_events :
      (s : Tables X) (p : EventRow → Bool) (f : EventRow → EventRow)
      → ((r : EventRow) → p r ≡ true → (f r).event_id ≡ r.event_id)
      → ((r : EventRow) → get r.event_id s ≡ some r → p r ≡ true → Advanced r (f r))
      → Leads Advances s (update_events p f)
  unfolding update_events get
  Leads-update_events s p f keep step = Leads-write Advances-order s _ (record {
    rows = λ id.
        rw
          (find?-update_where (has_id id) p f s.events
            (λ r h. ap (λ (i : String). text_eq i id) (keep r h)))
          (Later-map f p (get id s) (λ r e. step r (get_self id s r e)));
    ids_kept = ids-update_where p f s.events keep;
  })

  pub Leads-update_one :
      (s : Tables X) (p : EventRow → Bool) (f : EventRow → EventRow) (e : Fault)
      → ((r : EventRow) → p r ≡ true → (f r).event_id ≡ r.event_id)
      → ((r : EventRow) → get r.event_id s ≡ some r → p r ≡ true → Advanced r (f r))
      → Leads Advances s (update_one p f e)
  unfolding update_one
  Leads-update_one s p f e keep step = Leads-gets Advances-order s _ _ (
      Leads-bind Advances-order s _ _ (Leads-update_events s p f keep step)
        λ _ _. Leads-check Advances-order _ _ e)

  Leads-or_missing :
      {B : Type 0} (s : Tables X) (id : String) (o : Option EventRow)
      (f : EventRow → Exec Fault (Tables X) B)
      → ((r : EventRow) → o ≡ some r → Leads Advances s (f r))
      → Leads Advances s (or_missing id o >>= f)
  unfolding ◌>>=◌
  Leads-or_missing s id none f h = record { after = Advances-order.same s }
  Leads-or_missing s id (some r) f h = record { after = (h r refl).after }

  pub Leads-get_required :
      {B : Type 0} (s : Tables X) (id : String) (f : EventRow → Exec Fault (Tables X) B)
      → ((r : EventRow) → get id s ≡ some r → Leads Advances s (f r))
      → Leads Advances s (get_required id >>= f)
  unfolding get_required ◌>>=◌
  Leads-get_required s id f h = record { after = (Leads-or_missing s id (get id s) f h).after }

  pub Leads-get_required_last : (s : Tables X) (id : String) → Leads Advances s (get_required id)
  unfolding get_required
  Leads-get_required_last s id = Leads-gets Advances-order s _ _ (last (get id s))
    where
      last : (o : Option EventRow) → Leads Advances s (or_missing id o)
      last none = Leads-raise Advances-order s _
      last (some r) = Leads-pure Advances-order s r
