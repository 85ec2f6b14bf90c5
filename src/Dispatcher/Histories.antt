-- ===== src/Dispatcher/Histories.antt =====
-- Actions of the dispatcher of dispatcher/src/database.ts and worker.ts on its queue, and what others
-- do to the tables between them: new events, results of the agent, an operator's commands.
use dona.Prelude.{ℕ, String, List, [], ◌∷◌, Option, ◌≡◌, subst, sym, All, map}
use dona.Dispatcher.Events.{EventRow, Fault, Tables, Others, get}
use dona.Dispatcher.Phases.{Later, Later-refl, Later-trans, Advances}
use dona.Dispatcher.Recovered.{Action, IsFair, act, act-Advances}

-- No text stands twice in the list: `event_id` is the primary key.
abbrev pub Distinct : List String → Type 0
Distinct [] = Unit
Distinct (i ∷ is) = All (λ j. i ≡ j → ⊥) is × Distinct is

abbrev pub ids : {X : Type 0} → Tables X → List String
ids s = map EventRow.event_id s.events

-- Event ids stay distinct, and the event `id` is still there and has advanced. Other events may come,
-- go, or be put back.
pub record Spares {X : Type 0} (id : String) (s t : Tables X) : Type 0 where
  pub distinct_kept : Distinct (ids s) → Distinct (ids t)
  pub later : Later (get id s) (get id t)

Spares-refl : {X : Type 0} (id : String) (s : Tables X) → Spares id s s
Spares-refl id s = record { distinct_kept = λ d. d; later = Later-refl (get id s) }

Spares-trans :
    {X : Type 0} (id : String) (s t u : Tables X) → Spares id s t → Spares id t u → Spares id s u
Spares-trans id s t u h k = record {
  distinct_kept = λ d. k.distinct_kept (h.distinct_kept d);
  later = Later-trans (get id s) (get id t) (get id u) h.later k.later;
}

Advances-Spares : {X : Type 0} (id : String) (s t : Tables X) → Advances s t → Spares id s t
Advances-Spares id s t a = record {
  distinct_kept = subst Distinct (sym a.ids_kept);
  later = a.rows id;
}

-- An action of the dispatcher, or the tables that others leave.
pub data Step (X : Type 0) : Type 0 where
  acts : Action X → Step X
  others_leave : Tables X → Step X

module _ {X : Type 0} (o : Others X) (basename : String → String) (unlink : String → Option Fault)
    (backup_of result_path_of : String → String) (message_of : Fault → String)
    (max_attempts : ℕ) where
  abbrev pub after : List (Step X) → Tables X → Tables X
  after [] s = s
  after (acts a ∷ rest) s =
      after rest (act o basename unlink backup_of result_path_of message_of max_attempts a s)
  after (others_leave t ∷ rest) s = after rest t

  -- Each time others leave the tables, they have spared the event.
  abbrev pub IsSparing : String → List (Step X) → Tables X → Type 0
  IsSparing id [] s = Unit
  IsSparing id (acts a ∷ rest) s =
      IsFair o basename unlink backup_of result_path_of message_of max_attempts a
      × IsSparing id rest
          (act o basename unlink backup_of result_path_of message_of max_attempts a s)
  IsSparing id (others_leave t ∷ rest) s = Spares id s t × IsSparing id rest t

  pub after-Spares :
      (id : String) (steps : List (Step X)) (s : Tables X)
      → IsSparing id steps s
      → Spares id s (after steps s)
  after-Spares id [] s h = Spares-refl id s
  after-Spares id (acts a ∷ rest) s (h, k) =
      let t = act o basename unlink backup_of result_path_of message_of max_attempts a s in
      Spares-trans id s t (after rest t)
        (Advances-Spares id s t
          (act-Advances o basename unlink backup_of result_path_of message_of max_attempts a s h))
        (after-Spares id rest t k)
  after-Spares id (others_leave t ∷ rest) s (h, k) =
      Spares-trans id s t (after rest t) h (after-Spares id rest t k)
