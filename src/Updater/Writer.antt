-- ===== src/Updater/Writer.antt =====
-- updater/src/database.ts: the lease of the one process that writes the database.
use dona.Prelude.{
  ℕ, zero, suc, String, Bool, true, false, ◌&&◌, ◌||◌, Option, none, some, text_eq, opt_is, ◌==◌,
  leb, if◌then◌else◌,
}
use Prim.Native.Char.{code}
use dona.Exec.{pure, raise, gets, ◌>>=◌, ◌>>◌, modify, require, transaction}
use dona.Updater.Rows.{WriterLease}
use dona.Updater.Store.{
  Error, Db, writer_identity_invalid, writer_startup_lock_invalid, writer_identity_unavailable,
  writer_already_active, writer_lease_mismatch,
}

-- What `updater.start.lock` says. A field of another type than expected is `none`.
pub data StartLock : Type 0 where
  missing unreadable : StartLock
  parsed : (token : Option String) → (pid : Option ℕ) → (process_start : Option String) → StartLock

-- What `kill(pid, 0)` answers.
pub data Signal : Type 0 where
  delivered not_permitted no_process other_error : Signal

-- What the process finds outside the database: the lock file, a signal to the old owner, and the
-- trimmed answer of `ps`, `none` if the command fails.
pub record Surroundings : Type 0 where
  pub start_lock : StartLock
  pub signal : Signal
  pub process_start : Option String

is_token_char : ℕ → Bool
is_token_char c = leb b'0' c && leb c b'9' || leb b'a' c && leb c b'f' || c == b'-'

-- `/^[0-9a-f-]{n}$/`.
is_token : ℕ → String → Bool
unfolding is_token_char
is_token zero String.[] = true
is_token zero (String.◌∷◌ c s) = false
is_token (suc n) String.[] = false
is_token (suc n) (String.◌∷◌ c s) = is_token_char (code c) && is_token n s

-- Whether the process that `ps` shows is the one that wrote the lock.
check_identity : Option String → String → Option Error
check_identity none started = some writer_identity_unavailable
check_identity (some identity) started =
    if text_eq identity ""
    then some writer_identity_unavailable
    else (if text_eq identity started then some writer_already_active else none)

check_alive : Signal → Option String → String → Option Error
unfolding check_identity
check_alive delivered identity started = check_identity identity started
check_alive not_permitted identity started = check_identity identity started
check_alive no_process identity started = none
check_alive other_error identity started = some writer_identity_unavailable

-- Why the lease of `existing` may not be taken over, if it may not.
unfoldable pub takeover_error : Surroundings → WriterLease → Option Error
unfolding check_alive
takeover_error w existing = elim w.start_lock [
  | missing ↦ none
  | unreadable ↦ some writer_startup_lock_invalid
  | parsed token pid process_start ↦ elim process_start [
    | none ↦ none
    | some started ↦
        if opt_is existing.owner_token token
          && elim pid [ none ↦ false | some p ↦ p == existing.owner_pid ]
        then check_alive w.signal w.process_start started
        else none
  ]
]

abbrev pub new_writer : String → ℕ → ℕ → WriterLease
new_writer token pid at = record { owner_token = token; owner_pid = pid; acquired_at = at }

-- No other process writes between the two statements of the transaction, so the second one changes
-- the row that the first one read.
unfoldable pub acquire_over :
    Surroundings → (token : String) → (pid at : ℕ) → (existing : Option WriterLease) → Db Unit
acquire_over w token pid at none =
    modify (λ s. record s { writer = some (new_writer token pid at) })
acquire_over w token pid at (some e) =
    if text_eq e.owner_token token && e.owner_pid == pid
    then pure tt
    else elim (takeover_error w e) [
      | some error ↦ raise error
      | none ↦ modify (λ s. record s { writer = some (new_writer token pid at) })
    ]

unfoldable pub acquire_writer_lease : Surroundings → String → ℕ → ℕ → Db Unit
unfolding is_token acquire_over
acquire_writer_lease w token pid at = do
  require (is_token 36 token && leb 1 pid && leb pid 9007199254740991) writer_identity_invalid
  transaction do existing ← gets (λ s. s.writer); acquire_over w token pid at existing

unfoldable pub release_from : String → (existing : Option WriterLease) → Db Unit
release_from token none = raise writer_lease_mismatch
release_from token (some e) =
    if text_eq e.owner_token token
    then modify (λ s. record s { writer = none })
    else raise writer_lease_mismatch

unfoldable pub release_writer_lease : String → Db Unit
unfolding release_from
release_writer_lease token = do existing ← gets (λ s. s.writer); release_from token existing
