-- ===== src/Exec/Ends.antt =====
-- What holds of the result and the store when a method returns, one rule for each way to build it.
use dona.Prelude.{◌≡◌, refl, sym, ap, subst, Bool, true, false, if◌then◌else◌}
use dona.Exec.{
  Result, ok, err, Exec, pure, raise, gets, transaction, ◌>>=◌, modify, require, continue,
}

-- If `m` returns from `s`, then `Q` holds of its result and the store after it.
pub record Ends {E S A : Type 0} (Q : A → S → Type 0) (s : S) (m : Exec E S A) : Type 0 where
  pub after : (a : A) (t : S) → m s ≡ (ok a, t) → Q a t

module _ {E S A : Type 0} where
  threw :
      {C : Type 0} (e : E) (u : S) {a : A} {t : S}
      → ◌≡◌ {A = Result E A × S} (err e, u) (ok a, t)
      → C
  threw e u h = cc (ap (λ (r : Result E A × S). r.0) h)

  returned :
      (Q : A → S → Type 0) (a b : A) (s t : S)
      → ◌≡◌ {A = Result E A × S} (ok a, s) (ok b, t)
      → Q a s
      → Q b t
  returned Q a b s t h q =
      let e : a ≡ b = cc (ap (λ (r : Result E A × S). r.0) h) in
      let f : s ≡ t = ap (λ (r : Result E A × S). r.1) h in
      subst (λ u. Q b u) f (subst (λ c. Q c s) e q)

module _ {E S A : Type 0} (Q : A → S → Type 0) (s : S) where
  pub Ends-pure : (a : A) → Q a s → Ends {E = E} Q s (pure a)
  unfolding pure
  Ends-pure a q = record { after = λ b t h. returned Q a b s t h q }

  pub Ends-raise : (e : E) → Ends {E = E} Q s (raise e)
  unfolding raise
  Ends-raise e = record { after = λ b t h. threw e s h }

  pub Ends-transaction : (m : Exec E S A) → Ends Q s m → Ends Q s (transaction m)
  unfolding transaction
  Ends-transaction m h = record { after = λ a t. settle (m s) (h.after) a t }
    where
      settle :
          (p : Result E A × S)
          → ((a : A) (t : S) → p ≡ (ok a, t) → Q a t)
          → (a : A) (t : S) → transaction (λ _. p) s ≡ (ok a, t)
          → Q a t
      settle (ok b, u) k a t e = k a t e
      settle (err c, u) k a t e = threw c s e

module _ {E S A B : Type 0} (Q : B → S → Type 0) (s : S) where
  Ends-continue :
      (p : Result E A × S) (f : A → Exec E S B)
      → ((a : A) → p.0 ≡ ok a → Ends Q p.1 (f a))
      → (b : B) (t : S) → continue p.0 f p.1 ≡ (ok b, t)
      → Q b t
  Ends-continue (ok a, u) f k b t h = (k a refl).after b t h
  Ends-continue (err e, u) f k b t h = threw e u h

  pub Ends-bind :
      (P : A → S → Type 0) (m : Exec E S A) (f : A → Exec E S B)
      → Ends P s m
      → ((a : A) (u : S) → P a u → Ends Q u (f a))
      → Ends Q s (m >>= f)
  unfolding ◌>>=◌
  Ends-bind P m f h k = record {
    after = Ends-continue (m s) f λ a e. k a (m s).1 (h.after a (m s).1 (λ i. (e i, (m s).1)));
  }

  -- A part that writes nothing.
  pub Ends-read :
      (m : Exec E S A) (f : A → Exec E S B)
      → (m s).1 ≡ s
      → ((a : A) → (m s).0 ≡ ok a → Ends Q s (f a))
      → Ends Q s (m >>= f)
  unfolding ◌>>=◌
  Ends-read m f e k = record {
    after = Ends-continue (m s) f λ a h. subst (λ u. Ends Q u (f a)) (sym e) (k a h);
  }

  pub Ends-gets : (g : S → A) (f : A → Exec E S B) → Ends Q s (f (g s)) → Ends Q s (gets g >>= f)
  unfolding ◌>>=◌
  Ends-gets g f h = record { after = h.after }

module _ {E S B : Type 0} (Q : B → S → Type 0) (s : S) where
  pub Ends-require :
      (b : Bool) (e : E) (f : Unit {0} → Exec E S B)
      → (b ≡ true → Ends Q s (f tt))
      → Ends Q s (require b e >>= f)
  unfolding ◌>>=◌ require
  Ends-require true e f h = record { after = (h refl).after }
  Ends-require false e f h = record { after = λ b t k. threw e s k }

  pub Ends-modify :
      (g : S → S) (f : Unit {0} → Exec E S B) → Ends Q (g s) (f tt) → Ends Q s (modify g >>= f)
  unfolding ◌>>=◌ modify
  Ends-modify g f h = record { after = h.after }

  pub Ends-if :
      (b : Bool) (m n : Exec E S B)
      → (b ≡ true → Ends Q s m)
      → (b ≡ false → Ends Q s n)
      → Ends Q s (if b then m else n)
  Ends-if true m n h k = h refl
  Ends-if false m n h k = k refl

module _ {E S : Type 0} (Q : Unit {0} → S → Type 0) (s : S) where
  pub Ends-write : (g : S → S) → Q tt (g s) → Ends {E = E} Q s (modify g)
  unfolding modify
  Ends-write g q = record { after = λ a t h. returned Q tt a (g s) t h q }

  pub Ends-check : (b : Bool) (e : E) → (b ≡ true → Q tt s) → Ends Q s (require b e)
  unfolding require
  Ends-check true e q = record { after = λ a t h. returned Q tt a s t h (q refl) }
  Ends-check false e q = record { after = λ a t h. threw e s h }

module _ {E S A B : Type 0} where
  -- What a chain that returns has passed through.
  passed_through :
      (p : Result E A × S) (f : A → Exec E S B) (b : B)
      → (continue p.0 f p.1).0 ≡ ok b
      → (a : A) × (p.0 ≡ ok a) × ((f a p.1).0 ≡ ok b)
  passed_through (ok a, t) f b h = (a, refl, h)
  passed_through (err e, t) f b h = cc

  pub bind_returned :
      (m : Exec E S A) (f : A → Exec E S B) (s : S) (b : B)
      → ((m >>= f) s).0 ≡ ok b
      → (a : A) × ((m s).0 ≡ ok a) × ((f a (m s).1).0 ≡ ok b)
  unfolding ◌>>=◌
  bind_returned m f s b h = passed_through (m s) f b h
