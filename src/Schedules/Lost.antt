-- ===== src/Schedules/Lost.antt =====
-- What `recover` of dispatcher/src/scheduler/repository.ts does with a request whose outcome is lost.
use dona.Prelude.{◌≡◌, refl, ℕ, Bool, true, false, List, [], ◌∷◌, none, All, select_where, arith}
use dona.Exec.{ok}
use dona.Exec.Leads.{Leads, Leads-pure, Leads-bind}
use dona.Exec.Ends.{Ends, Ends-bind, Ends-pure, Ends-gets, Ends-transaction}
use dona.Schedules.Rows.{Outbox, OutboxStatus, Tables}
use dona.Schedules.Store.{update_outbox}
use dona.Schedules.Settle.{is_unsent}
use dona.Schedules.Outboxes.{
  expire_unsent, expire_each, counted, is_lost, is_abandoned, returned, unsent_row, is_claimed,
  recover,
}
use dona.Schedules.Rowwise.{Rows, Rows-order, Distinct, outbox_ids, Leads-update, All-map}
use dona.Schedules.Unsent.{Leads-expire_unsent}
use dona.Schedules.Custody.{Present, Present-is, Present-carried}
use dona.Schedules.Recovered.{selected}
use dona.Schedules.Reviewed.{
  All-Stays, Ends-both, Ends-if_ok, Ends-mark_each, InReview, Quiet-Spared, Quiet-Stays, Spared,
  Spared-order, Stays, Stays-mark_each, Stays-order, There, Unreviewed, in_review,
}

Stays-expire_unsent :
    (s : Tables) (row : Outbox) (now : ℕ)
    → Present Unreviewed s row.outbox_id
    → Leads (Rows Stays) s (expire_unsent row now none)
Stays-expire_unsent s row now w =
    Leads-expire_unsent Stays-order Quiet-Stays s row now none
      (λ _ r at e. spare r (Present-is Unreviewed s row.outbox_id r w e))
      (λ _ r at e. spare r (Present-is Unreviewed s row.outbox_id r w e))
  where
    spare : {t : Outbox} (r : Outbox) → Unreviewed r → Stays r t
    spare r u = record { stays = λ h. cc }

Spared-expire_unsent :
    (s : Tables) (row : Outbox) (now : ℕ) → Leads (Rows Spared) s (expire_unsent row now none)
Spared-expire_unsent s row now =
    Leads-expire_unsent Spared-order Quiet-Spared s row now none
      (λ _ r at e. record { spared = λ h. refl }) (λ _ r at e. record { spared = λ h. refl })

Stays-expire_each :
    (rows : List Outbox) (s : Tables) (now : ℕ)
    → All (λ row. Present Unreviewed s row.outbox_id) rows
    → Leads (Rows Stays) s (expire_each rows now)
unfolding expire_each
Stays-expire_each [] s now w = Leads-pure (Rows-order Stays-order) s 0
Stays-expire_each (row ∷ rows) s now (w, ws) =
    let o = Rows-order Stays-order in
    Leads-bind o s _ _ (Stays-expire_unsent s row now w) λ ended _.
      Leads-bind o _ _ _
        (Stays-expire_each rows _ now (
          All-map rows
            (λ x.
              Present-carried Unreviewed (λ r t h. h.spared) s _
                (Spared-expire_unsent s row now).after x.outbox_id)
            ws))
        λ rest _. Leads-pure o _ (counted ended rest)

returned-Stays :
    (all : Bool) (now : ℕ) (r : Outbox) → is_abandoned all now r ≡ true → Stays r (returned now r)
returned-Stays all now r h = record { stays = λ k. absurd (not_both r.status (ground arith) k) }
  where
    not_both : (a : OutboxStatus) → is_claimed a ≡ true → in_review a ≡ true → ⊥
    not_both a c k = ground arith

unsent-Unreviewed : (r : Outbox) → unsent_row r ≡ true → Unreviewed r
unsent-Unreviewed r h = open_status r.status h
  where
    open_status : (a : OutboxStatus) → is_unsent a ≡ true → in_review a ≡ false
    open_status a k = ground arith

abbrev Reviewed : Bool → ℕ → Tables → Tables → Type 0
Reviewed all now s t =
    All (λ row. Present InReview t row.outbox_id) (select_where (is_lost all now) s.outbox)

Ends-returned :
    (s u : Tables) (all : Bool) (now : ℕ)
    → Distinct (outbox_ids u)
    → Reviewed all now s u
    → Ends
        (λ _ t. Reviewed all now s t × Distinct (outbox_ids t))
        u
        (update_outbox (is_abandoned all now) (returned now))
Ends-returned s u all now d w =
    let back =
      Leads-update Stays-order u (is_abandoned all now) (returned now) (λ r _. refl)
        (returned-Stays all now) in
    Ends-both u _
      (Ends-if_ok u _ _ λ _ _. All-Stays u _ (select_where (is_lost all now) s.outbox) back w)
      (Ends-if_ok u _ _ λ _ _. back.after.distinct d)

Ends-expired :
    (s u : Tables) (all : Bool) (now : ℕ)
    → Reviewed all now s u × Distinct (outbox_ids u)
    → Ends (λ _ t. Reviewed all now s t) u (expire_each (select_where unsent_row u.outbox) now)
Ends-expired s u all now (w, d) = Ends-if_ok u _ _ λ _ _.
    All-Stays u _ (select_where (is_lost all now) s.outbox)
      (Stays-expire_each _ u now (selected Unreviewed unsent_row u unsent-Unreviewed d)) w

Ends-recover :
    (s : Tables) (now : ℕ) (all : Bool)
    → Distinct (outbox_ids s)
    → Ends (λ _ t. Reviewed all now s t) s (recover now all)
unfolding recover
Ends-recover s now all d = Ends-transaction _ s _ (
    Ends-gets _ s _ _ (
      let rows = select_where (is_lost all now) s.outbox in
      let marks = Stays-mark_each rows s now in
      Ends-bind _ s (λ _ u. Reviewed all now s u × Distinct (outbox_ids u)) _ _
        (Ends-both s _
          (Ends-mark_each rows s now (selected There (is_lost all now) s (λ r h. tt) d))
          (Ends-if_ok s _ _ λ _ _. marks.after.distinct d))
        λ _ u (w, e). Ends-gets _ u _ _ (
          Ends-bind _ u _ _ _ (Ends-returned s u all now e w) λ _ v k.
            Ends-gets _ v _ _
              (Ends-bind _ v _ _ _ (Ends-expired s v all now k) λ expired x l. Ends-pure _ x _ l))))

-- Where the ids of the outbox are distinct and a recovery returns, each request that was started and
-- whose lease has ended (at a restart, each that was started) is under review after it.
pub recover-InReview :
    (s t : Tables) (now n : ℕ) (all : Bool)
    → Distinct (outbox_ids s)
    → recover now all s ≡ (ok n, t)
    → All (λ row. Present InReview t row.outbox_id) (select_where (is_lost all now) s.outbox)
recover-InReview s t now n all d e = (Ends-recover s now all d).after n t e
