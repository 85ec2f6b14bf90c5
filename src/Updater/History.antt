-- ===== src/Updater/History.antt =====
-- What every method of the updater's database keeps: the material of a plan, the order of the fences,
-- the transition graph, the uniqueness of request ids, and the audit, to which entries are only added.
pub mod Statements
pub mod Mutations
pub mod Claims
pub mod Plans
pub mod Others
pub mod Tables
pub mod Runs
use dona.Prelude.{
  ℕ, ◌≤◌, String, Bool, true, List, [], ◌∷◌, ◌++◌, Option, none, some, ◌≡◌, refl, sym, ◌∙◌, find?,
  append-nil, append_assoc, arith,
}
use dona.Exec.Leads.{IsOrder}
use dona.Updater.State.{UpdateState, can_transition}
use dona.Updater.Rows.{UpdateRow, ReplyTarget, Compatibility, CompatibilityTransition, AuditRow}
use dona.Updater.Store.{Store, has_request_id, get}

-- A way along the transitions that the state machine allows.
pub data Reaches : UpdateState → UpdateState → Type 0 where
  here : {s : UpdateState} → Reaches s s
  via : {s t u : UpdateState} → can_transition s t ≡ true → Reaches t u → Reaches s u

pub Reaches-trans : {s t u : UpdateState} → Reaches s t → Reaches t u → Reaches s u
Reaches-trans here q = q
Reaches-trans (via e p) q = via e (Reaches-trans p q)

-- What a request is about, fixed when its plan is made.
pub record Identity : Type 0 where
  pub request_id : String
  pub source_event_id : String
  pub reply_target : ReplyTarget
  pub current_sha : String
  pub target_sha : String
  pub previous_sha : Option String
  pub plan_id : String
  pub plan_hash : String
  pub policy_version : String
  pub compatibility : Compatibility
  pub transition : Option CompatibilityTransition
  pub rollback_compatible : Bool
  pub created_at : ℕ

abbrev pub identity : UpdateRow → Identity
identity r = record {
  request_id = r.request_id;
  source_event_id = r.source_event_id;
  reply_target = r.reply_target_json;
  current_sha = r.current_sha;
  target_sha = r.target_sha;
  previous_sha = r.previous_sha;
  plan_id = r.plan_id;
  plan_hash = r.plan_hash;
  policy_version = r.policy_version;
  compatibility = r.compatibility_json;
  transition = r.transition_json;
  rollback_compatible = r.rollback_compatible;
  created_at = r.created_at;
}

pub record RowEvolves (r t : UpdateRow) : Type 0 where
  pub identity_kept : identity t ≡ identity r
  pub fence_grows : r.fence ≤ t.fence
  pub path : Reaches r.state t.state

pub RowEvolves-refl : (r : UpdateRow) → RowEvolves r r
RowEvolves-refl r = record { identity_kept = refl; fence_grows = omega arith; path = here }

pub RowEvolves-trans : {r t u : UpdateRow} → RowEvolves r t → RowEvolves t u → RowEvolves r u
RowEvolves-trans p q = record {
  identity_kept = q.identity_kept ∙ p.identity_kept;
  fence_grows = omega arith;
  path = Reaches-trans p.path q.path;
}

-- A request stays once it is there; one that is not there may come.
abbrev pub Evolved : Option UpdateRow → Option UpdateRow → Type 0
Evolved none t = Unit
Evolved (some r) none = ⊥
Evolved (some r) (some t) = RowEvolves r t

pub Evolved-refl : (o : Option UpdateRow) → Evolved o o
Evolved-refl none = tt
Evolved-refl (some r) = RowEvolves-refl r

Evolved-trans : (o p q : Option UpdateRow) → Evolved o p → Evolved p q → Evolved o q
Evolved-trans none p q h k = tt
Evolved-trans (some r) none q h k = absurd h
Evolved-trans (some r) (some t) none h k = absurd k
Evolved-trans (some r) (some t) (some u) h k = RowEvolves-trans h k

-- The request ids are pairwise different, as the primary key has it.
abbrev pub IsUnique : List UpdateRow → Type 0
IsUnique [] = Unit
IsUnique (r ∷ rs) = (find? (has_request_id r.request_id) rs ≡ none) × IsUnique rs

pub record Evolves (s t : Store) : Type 0 where
  pub unique : IsUnique t.requests
  pub rows : (id : String) → Evolved (get id s) (get id t)
  pub added : List AuditRow
  pub audits : t.audits ≡ s.audits ++ added

-- From a store whose ids are unique.
abbrev pub History : Store → Store → Type 0
History s t = IsUnique s.requests → Evolves s t

Evolves-refl : (s : Store) → IsUnique s.requests → Evolves s s
Evolves-refl s u = record {
  unique = u;
  rows = λ id. Evolved-refl (get id s);
  added = [];
  audits = sym (append-nil s.audits);
}

Evolves-trans : (s t u : Store) → Evolves s t → Evolves t u → Evolves s u
Evolves-trans s t u h k = record {
  unique = k.unique;
  rows = λ id. Evolved-trans (get id s) (get id t) (get id u) (h.rows id) (k.rows id);
  added = h.added ++ k.added;
  audits = simp (k.audits, h.audits, append_assoc);
}

pub History-order : IsOrder History
History-order = record {
  same = Evolves-refl;
  chain = λ s t u h k v. let e = h v in Evolves-trans s t u e (k e.unique);
}
