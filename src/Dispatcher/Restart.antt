-- ===== src/Dispatcher/Restart.antt =====
-- `recoverStaleDispatching` of dispatcher/src/database.ts.
use dona.Prelude.{ℕ, false, ◌≡◌, All, count_where, update_where}
use dona.Exec.{Exec}
use dona.Exec.Leads.{Leads}
use dona.Dispatcher.Events.{Tables}
use dona.Dispatcher.Recovery.{is_stale, unknown_acceptance}

-- After a restart no event is dispatching, each that was is under review, every other event is as it
-- was, and the count is of those that were.
pub record IsRecovered {X : Type 0} (at : ℕ) (s t : Tables X) (n : ℕ) : Type 0 where
  pub none_dispatching : All (λ r. is_stale r ≡ false) t.events
  pub moved_only : t.events ≡ update_where is_stale (unknown_acceptance at) s.events
  pub counted : n ≡ count_where is_stale s.events

abbrev SameEvents : {X : Type 0} → Tables X → Tables X → Type 0
SameEvents s t = t.events ≡ s.events
