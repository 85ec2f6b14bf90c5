-- ===== src/Schedules/Custody.antt =====
-- How far a row of the outbox of dispatcher/src/scheduler/repository.ts has come: open, in doubt,
-- ended unsent, or sent; and what the connector's claims and recovery do to it.
use dona.Prelude.{
  ◌≡◌, refl, ◌∙◌, ap, subst, ℕ, String, Bool, true, false, Option, none, some, ◌≤◌, ◌⊎◌, inl, inr,
  arith,
}
use dona.Schedules.Rows.{Outbox, OutboxStatus, Tables}
use dona.Schedules.Store.{outbox_row}
use dona.Schedules.Settle.{is_unsent}
use dona.Schedules.Rowwise.{RowOrder, Kept, Rows}
use dona.Schedules.Quiet.{Quiet}

abbrev pub stage : OutboxStatus → ℕ
stage OutboxStatus.pending = 0
stage OutboxStatus.claimed = 0
stage OutboxStatus.request_started = 0
stage OutboxStatus.needs_review = 1
stage OutboxStatus.failed = 2
stage OutboxStatus.cancelled = 2
stage OutboxStatus.sent = 3

-- A later row: as far or further, never sent after it ended unsent, and within three attempts.
pub record Custody (r t : Outbox) : Type 0 where
  pub further : stage r.status ≤ stage t.status
  pub ended_unsent : stage r.status ≡ 2 → stage t.status ≡ 2
  pub attempts_bounded : r.attempt ≤ 3 → t.attempt ≤ 3

pub Custody-order : RowOrder Custody
Custody-order = record {
  same = λ r. record { further = omega arith; ended_unsent = λ e. e; attempts_bounded = λ h. h };
  chain = λ r t u h k. record {
    further = omega (arith, h.further, k.further);
    ended_unsent = λ e. k.ended_unsent (h.ended_unsent e);
    attempts_bounded = λ b. k.attempts_bounded (h.attempts_bounded b);
  };
}

-- `status` moves from `a` to `b` within custody.
abbrev pub Moves : OutboxStatus → OutboxStatus → Type 0
Moves a b = (stage a ≤ stage b) × (stage a ≡ 2 → stage b ≡ 2)

unsent_stage : (a : OutboxStatus) → is_unsent a ≡ true → stage a ≡ 0
unsent_stage a h = ground arith

pub Quiet-Custody : (r t : Outbox) → Quiet r t → Custody r t
Quiet-Custody r t h = record {
  further = moved.0;
  ended_unsent = moved.1;
  attempts_bounded = λ b. omega (arith, h.attempt_same);
}
  where
    settle :
        (a b : OutboxStatus)
        → (b ≡ a) ⊎ ((is_unsent a ≡ true) × (b ≡ OutboxStatus.cancelled))
        → Moves a b
    settle a b (inl e) = (omega (arith, ap stage e), λ k. omega (arith, ap stage e))
    settle a b (inr (u, e)) =
        (omega (arith, ap stage e, unsent_stage a u), λ k. omega (arith, ap stage e))

    moved : Moves r.status t.status
    moved = settle r.status t.status h.status_kept

-- Rows that are not sent stay so.
pub record Unmade (r t : Outbox) : Type 0 where
  pub not_sent : stage r.status ≤ 2 → stage t.status ≤ 2

pub Unmade-order : RowOrder Unmade
Unmade-order = record {
  same = λ r. record { not_sent = λ h. h };
  chain = λ r t u h k. record { not_sent = λ e. k.not_sent (h.not_sent e) };
}

pub Quiet-Unmade : (r t : Outbox) → Quiet r t → Unmade r t
Quiet-Unmade r t h = record { not_sent = settle r.status t.status h.status_kept }
  where
    settle :
        (a b : OutboxStatus)
        → (b ≡ a) ⊎ ((is_unsent a ≡ true) × (b ≡ OutboxStatus.cancelled))
        → stage a ≤ 2
        → stage b ≤ 2
    settle a b (inl e) k = omega (arith, ap stage e)
    settle a b (inr (u, e)) k = omega (arith, ap stage e)

-- Requests that were started or are in doubt stay in doubt.
abbrev pub is_doubt : OutboxStatus → Bool
is_doubt OutboxStatus.request_started = true
is_doubt OutboxStatus.needs_review = true
is_doubt s = false

pub record Doubted (r t : Outbox) : Type 0 where
  pub still : is_doubt r.status ≡ true → is_doubt t.status ≡ true

pub Doubted-order : RowOrder Doubted
Doubted-order = record {
  same = λ r. record { still = λ h. h };
  chain = λ r t u h k. record { still = λ e. k.still (h.still e) };
}

pub Quiet-Doubted : (r t : Outbox) → Quiet r t → Doubted r t
Quiet-Doubted r t h = record { still = settle r.status t.status h.status_kept }
  where
    unsure : (a : OutboxStatus) → is_unsent a ≡ true → is_doubt a ≡ true → ⊥
    unsure a u d = ground arith

    settle :
        (a b : OutboxStatus)
        → (b ≡ a) ⊎ ((is_unsent a ≡ true) × (b ≡ OutboxStatus.cancelled))
        → is_doubt a ≡ true
        → is_doubt b ≡ true
    settle a b (inl e) k = ap is_doubt e ∙ k
    settle a b (inr (u, e)) k = absurd (unsure a u k)

-- The row of this id is there, and of this kind.
abbrev pub Present : (Outbox → Type 0) → Tables → String → Type 0
Present P s id = (x : Outbox) × (outbox_row id s ≡ some x) × P x

pub Present-is :
    (P : Outbox → Type 0) (s : Tables) (id : String) (r : Outbox)
    → Present P s id
    → outbox_row id s ≡ some r
    → P r
Present-is P s id r (x, e, p) h = let i : x ≡ r = cc in subst P i p

module _ {R : Outbox → Outbox → Type 0} (P : Outbox → Type 0)
    (f : (r t : Outbox) → R r t → P r → P t) where
  carried :
      (a b : Option Outbox)
      → Kept R a b
      → ((x : Outbox) × (a ≡ some x) × P x)
      → (x : Outbox) × (b ≡ some x) × P x
  carried none b h (x, e, p) = cc
  carried (some r) none h w = absurd h
  carried (some r) (some u) h (x, e, p) = let i : x ≡ r = cc in (u, refl, f r u h (subst P i p))

  pub Present-carried :
      (s t : Tables) → Rows R s t → (id : String) → Present P s id → Present P t id
  Present-carried s t h id w = carried (outbox_row id s) (outbox_row id t) (h.rows id) w
