-- ===== src/Exec/Leads.antt =====
-- Relations between the store before and after a method, one rule for each way to build a method.
-- The store before is named, so the rest of a method may use what was read from it.
use dona.Prelude.{◌≡◌, refl, Bool, true, false, if◌then◌else◌}
use dona.Exec.{
  Result, ok, err, Exec, pure, raise, gets, transaction, ◌>>=◌, modify, require, continue, handle,
  catching,
}

-- A relation on stores that holds of a store and itself, and along two methods in a row.
pub record IsOrder {S : Type 0} (R : S → S → Type 0) : Type 0 where
  pub same : (s : S) → R s s
  pub chain : (s t u : S) → R s t → R t u → R s u

-- Whether `m` returns or throws, the store after it is related to the store before.
pub record Leads {E S A : Type 0} (R : S → S → Type 0) (s : S) (m : Exec E S A) : Type 0 where
  pub after : R s (m s).1

module _ {E S A : Type 0} {R : S → S → Type 0} (o : IsOrder R) (s : S) where
  pub Leads-pure : (a : A) → Leads {E = E} R s (pure a)
  unfolding pure
  Leads-pure a = record { after = o.same s }

  pub Leads-raise : (e : E) → Leads {A = A} R s (raise e)
  unfolding raise
  Leads-raise e = record { after = o.same s }

  pub Leads-transaction : (m : Exec E S A) → Leads R s m → Leads R s (transaction m)
  unfolding transaction
  Leads-transaction m h = record { after = settle (m s) h.after }
    where
      settle : (p : Result E A × S) → R s p.1 → R s (transaction (λ _. p) s).1
      settle (ok a, t) r = r
      settle (err e, t) r = o.same s

  Leads-handle :
      (p : Result E A × S) (h : E → Exec E S A)
      → R s p.1
      → ((e : E) → Leads R p.1 (h e))
      → R s (handle p.0 h p.1).1
  Leads-handle (ok a, t) h r k = r
  Leads-handle (err e, t) h r k = o.chain s t _ r (k e).after

  pub Leads-catching :
      (m : Exec E S A) (h : E → Exec E S A)
      → Leads R s m
      → ((e : E) → Leads R (m s).1 (h e))
      → Leads R s (catching m h)
  unfolding catching
  Leads-catching m h l k = record { after = Leads-handle (m s) h l.after k }

module _ {E S A B : Type 0} {R : S → S → Type 0} (o : IsOrder R) (s : S) where
  Leads-continue :
      (p : Result E A × S) (f : A → Exec E S B)
      → R s p.1
      → ((a : A) → p.0 ≡ ok a → Leads R p.1 (f a))
      → R s (continue p.0 f p.1).1
  Leads-continue (ok a, t) f r k = o.chain s t _ r (k a refl).after
  Leads-continue (err e, t) f r k = r

  pub Leads-bind :
      (m : Exec E S A) (f : A → Exec E S B)
      → Leads R s m
      → ((a : A) → (m s).0 ≡ ok a → Leads R (m s).1 (f a))
      → Leads R s (m >>= f)
  unfolding ◌>>=◌
  Leads-bind m f h k = record { after = Leads-continue (m s) f h.after k }

  pub Leads-gets : (g : S → A) (f : A → Exec E S B) → Leads R s (f (g s)) → Leads R s (gets g >>= f)
  unfolding ◌>>=◌
  Leads-gets g f h = record { after = h.after }

module _ {E S B : Type 0} {R : S → S → Type 0} (o : IsOrder R) (s : S) where
  pub Leads-require :
      (b : Bool) (e : E) (f : Unit {0} → Exec E S B)
      → (b ≡ true → Leads R s (f tt))
      → Leads R s (require b e >>= f)
  unfolding ◌>>=◌ require
  Leads-require true e f h = record { after = (h refl).after }
  Leads-require false e f h = record { after = o.same s }

  pub Leads-modify :
      (g : S → S) (f : Unit {0} → Exec E S B)
      → R s (g s)
      → Leads R (g s) (f tt)
      → Leads R s (modify g >>= f)
  unfolding ◌>>=◌ modify
  Leads-modify g f r h = record { after = o.chain s (g s) _ r h.after }

  pub Leads-if :
      (b : Bool) (m n : Exec E S B)
      → (b ≡ true → Leads R s m)
      → (b ≡ false → Leads R s n)
      → Leads R s (if b then m else n)
  Leads-if true m n h k = h refl
  Leads-if false m n h k = k refl

module _ {E S : Type 0} {R : S → S → Type 0} (o : IsOrder R) (s : S) where
  pub Leads-check : (b : Bool) (e : E) → Leads R s (require b e)
  unfolding require
  Leads-check true e = record { after = o.same s }
  Leads-check false e = record { after = o.same s }

  pub Leads-write : (g : S → S) → R s (g s) → Leads {E = E} R s (modify g)
  unfolding modify
  Leads-write g r = record { after = r }

module _ {E S A B : Type 0} {R : S → S → Type 0} (o : IsOrder R) (s : S) where
  Leads-continue_read :
      (p : Result E A × S) (f : A → Exec E S B)
      → p.1 ≡ s
      → ((a : A) → p.0 ≡ ok a → Leads R s (f a))
      → R s (continue p.0 f p.1).1
  Leads-continue_read (ok a, t) f e k = rw e ((k a refl).after)
  Leads-continue_read (err c, t) f e k = rw e (o.same s)

  -- A part that writes nothing.
  pub Leads-read :
      (m : Exec E S A) (f : A → Exec E S B)
      → (m s).1 ≡ s
      → ((a : A) → (m s).0 ≡ ok a → Leads R s (f a))
      → Leads R s (m >>= f)
  unfolding ◌>>=◌
  Leads-read m f e k = record { after = Leads-continue_read (m s) f e k }
