-- ===== src/Updater/State.antt =====
-- updater/src/state-machine.ts and the states of updater/src/types.ts.
use dona.Prelude.{Bool, false, ◌||◌, List, [], ◌∷◌, is_yes}

pub data UpdateState : Type 0 where
  requested planning awaiting_approval approved preparing staged quiescing activating restarting
        verifying succeeded failed rolling_back rolled_back needs_review cancelled :
      UpdateState

unfoldable pub state_discrete : Discrete UpdateState
state_discrete = hlevel

abbrev pub state_eq : UpdateState → UpdateState → Bool
state_eq s t = is_yes (state_discrete s t)

-- `Array.prototype.includes` on states.
unfoldable pub includes : List UpdateState → UpdateState → Bool
includes [] t = false
includes (s ∷ ss) t = state_eq s t || includes ss t

unfoldable pub transitions : UpdateState → List UpdateState
transitions requested = planning ∷ cancelled ∷ failed ∷ []
transitions planning = awaiting_approval ∷ failed ∷ needs_review ∷ cancelled ∷ []
transitions awaiting_approval = approved ∷ cancelled ∷ failed ∷ []
transitions approved = preparing ∷ cancelled ∷ failed ∷ needs_review ∷ []
transitions preparing = staged ∷ failed ∷ needs_review ∷ cancelled ∷ []
transitions staged = quiescing ∷ cancelled ∷ failed ∷ needs_review ∷ []
transitions quiescing = activating ∷ failed ∷ needs_review ∷ []
transitions activating = restarting ∷ rolling_back ∷ failed ∷ needs_review ∷ []
transitions restarting = verifying ∷ rolling_back ∷ needs_review ∷ []
transitions verifying = succeeded ∷ rolling_back ∷ needs_review ∷ []
transitions succeeded = []
transitions failed = []
transitions rolling_back = rolled_back ∷ needs_review ∷ []
transitions rolled_back = []
transitions needs_review = rolling_back ∷ verifying ∷ []
transitions cancelled = []

unfoldable pub can_transition : UpdateState → UpdateState → Bool
unfolding includes transitions
can_transition from to = includes (transitions from) to

unfoldable pub is_terminal : UpdateState → Bool
unfolding includes
is_terminal state =
    includes (succeeded ∷ failed ∷ rolled_back ∷ needs_review ∷ cancelled ∷ []) state
