-- ===== src/Schedules/Inputs.antt =====
-- dispatcher/src/scheduler/repository.ts: what `validateRevision` asks of an input by itself.
use Prim.Native.Char.{Char, code}
use dona.Prelude.{
  ℕ, String, Bool, true, false, not, ◌&&◌, Option, none, some, text_eq, text_discrete, leb, ltb,
  ◌==◌, ◌-◌, ◌+◌, if◌then◌else◌,
}
use dona.Schedules.Texts.{is_identity}
use dona.Schedules.Rows.{
  RecurrenceJson, Action, Target, reminder_post, work_read_only, no_target, thread, channel,
  owner_dm,
}
use dona.Schedules.Receipts.{has_credential_pattern}

-- What JSON.parse finds in a recurrence, and the canonical texts of the codecs, or nothing where
-- they throw.
pub record Codecs : Type 0 where
  pub recurrence : String → Option String
  pub policy : String → Option String
  pub parse : String → RecurrenceJson × (Option String × Option String)

pub record RevisionInput : Type 0 where
  pub recurrence_json : String
  pub policy_json : String
  pub policy_version : ℕ
  pub timezone : Option String
  pub tzdb_version : Option String
  pub authorization_id : String
  pub authorization_revision : ℕ
  pub approver_id : String
  pub approved_at : ℕ
  pub expires_at : ℕ
  pub action : Action
  pub target : Target
  pub content : String

abbrev thirty_days : ℕ
thirty_days = 2592000

unfoldable pub authorization_ok : RevisionInput → String → ℕ → Bool
unfolding text_discrete
authorization_ok input who now =
    input.policy_version == 1
    && text_eq input.approver_id who
    && leb input.approved_at now
    && ltb now input.expires_at
    && leb (input.expires_at - input.approved_at) thirty_days

abbrev pub content_limit : Action → ℕ
content_limit reminder_post = 2000
content_limit work_read_only = 4000

abbrev pub is_work : Action → Bool
is_work reminder_post = false
is_work work_read_only = true

abbrev is_digit : Char → Bool
is_digit c = leb 48 (code c) && leb (code c) 57

unfoldable digits : String → Option ℕ
digits String.[] = some 0
digits (String.◌∷◌ c s) =
    let rest = digits s in
    if is_digit c then elim rest [ none ↦ none | some n ↦ some (n + 1) ] else none

abbrev is_six : Option ℕ → Bool
is_six none = false
is_six (some n) = n == 6

-- /^\d{1,20}\.\d{6}$/, with the number of digits read.
unfoldable is_thread_from : ℕ → String → Bool
unfolding digits
is_thread_from n String.[] = false
is_thread_from n (String.◌∷◌ c s) =
    let rest = is_thread_from (n + 1) s in
    if code c == 46 then ltb 0 n && leb n 20 && is_six (digits s) else is_digit c && rest

unfoldable pub target_ids : Target → Bool
unfolding is_identity
target_ids no_target = true
target_ids (thread workspace place ts) = is_identity workspace && is_identity place
target_ids (channel workspace place) = is_identity workspace && is_identity place
target_ids (owner_dm workspace place who) = is_identity workspace && is_identity place

abbrev pub no_credential : String → Bool
no_credential s = not (has_credential_pattern s)

unfoldable pub target_ok : RevisionInput → String → String → Bool
unfolding has_credential_pattern is_thread_from text_discrete
target_ok input who tenant = elim input.target [
  | no_target ↦ is_work input.action
  | thread workspace place ts ↦
      no_credential workspace
      && no_credential place
      && text_eq workspace tenant
      && is_thread_from 0 ts
  | channel workspace place ↦
      no_credential workspace && no_credential place && text_eq workspace tenant
  | owner_dm workspace place dm ↦
      no_credential workspace
      && no_credential place
      && no_credential dm
      && text_eq workspace tenant
      && text_eq dm who
]

abbrev pub is_canonical : Option String → String → Bool
is_canonical none s = false
is_canonical (some t) s = text_eq t s
