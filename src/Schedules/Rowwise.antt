-- ===== src/Schedules/Rowwise.antt =====
-- Relations between the rows of the outbox before and after a method of
-- dispatcher/src/scheduler/repository.ts, and the statements that keep them.
use dona.Prelude.{
  ◌≡◌, ◌≢◌, Bool-cases, inl, inr, find?, select_where, All, map, refl, ap, ◌∙◌, subst, sym, String,
  Bool, true, false, Option, none, some, List, [], ◌∷◌, arith, find?-holds, find?-update_where,
  update_where, text_eq, if◌then◌else◌,
}
use mathlib.Core.Option
use dona.Exec.{◌>>=◌, raise, pure}
use dona.Exec.Leads.{IsOrder, Leads, Leads-write}
use dona.Schedules.Rows.{Outbox, Tables}
use dona.Schedules.Store.{Db, required, or_throw, outbox_is, outbox_row, update_outbox}

-- A relation on rows that holds of a row and itself, and along two changes.
pub record RowOrder (R : Outbox → Outbox → Type 0) : Type 0 where
  pub same : (r : Outbox) → R r r
  pub chain : (r t u : Outbox) → R r t → R t u → R r u

-- A row that was there still is; a row may be added.
abbrev pub Kept : (Outbox → Outbox → Type 0) → Option Outbox → Option Outbox → Type 0
Kept R none o = Unit
Kept R (some r) none = ⊥
Kept R (some r) (some t) = R r t

-- No two rows have one id: the primary key.
abbrev pub Distinct : List String → Type 0
Distinct [] = Unit
Distinct (x ∷ xs) = All (λ y. x ≢ y) xs × Distinct xs

abbrev pub outbox_ids : Tables → List String
outbox_ids s = map Outbox.outbox_id s.outbox

pub record Rows (R : Outbox → Outbox → Type 0) (s t : Tables) : Type 0 where
  pub rows : (id : String) → Kept R (outbox_row id s) (outbox_row id t)
  pub distinct : Distinct (outbox_ids s) → Distinct (outbox_ids t)

pub text_same : {a b : String} → text_eq a b ≡ true → a ≡ b
text_same h = ground arith

ids-update_where :
    (p : Outbox → Bool) (f : Outbox → Outbox) (rs : List Outbox)
    → ((r : Outbox) → p r ≡ true → (f r).outbox_id ≡ r.outbox_id)
    → map Outbox.outbox_id (update_where p f rs) ≡ map Outbox.outbox_id rs
unfolding update_where
ids-update_where p f [] keep = refl
ids-update_where p f (r ∷ rs) keep = both (kept (p r) (keep r)) (ids-update_where p f rs keep)
  where
    kept :
        (b : Bool)
        → (b ≡ true → (f r).outbox_id ≡ r.outbox_id)
        → (if b then f r else r).outbox_id ≡ r.outbox_id
    kept true k = k refl
    kept false k = refl

    both : {i j : String} {is js : List String} → i ≡ j → is ≡ js → i ∷ is ≡ j ∷ js
    both h k = cc

pub text_self : (a : String) → text_eq a a ≡ true
text_self a = ground arith

pub text_other : {a b : String} → a ≢ b → text_eq a b ≡ false
text_other n = ground (arith, n)

pub All-map :
    {A : Type 0} {P Q : A → Type 0} (xs : List A) → ((x : A) → P x → Q x) → All P xs → All Q xs
All-map [] f h = tt
All-map (x ∷ xs) f (h, hs) = (f x h, All-map xs f hs)

-- With distinct ids, each row that a SELECT gives is the row of its id.
other_id :
    (x i : String) (row : Outbox) (rs : List Outbox)
    → All (λ y. x ≢ y) (map Outbox.outbox_id rs)
    → find? (outbox_is i) rs ≡ some row
    → text_eq x i ≡ false
unfolding find?
other_id x i row [] a e = cc
other_id x i row (r ∷ rs) (n, a) e = elim (Bool-cases (text_eq r.outbox_id i)) [
  | inl h ↦ text_other (λ same. n (same ∙ sym (text_same h)))
  | inr h ↦ other_id x i row rs a (sym (past h) ∙ e)
]
  where
    past : text_eq r.outbox_id i ≡ false → find? (outbox_is i) (r ∷ rs) ≡ find? (outbox_is i) rs
    past h = rw h refl

pub select-Found :
    (p : Outbox → Bool) (rs : List Outbox)
    → Distinct (map Outbox.outbox_id rs)
    → All
        (λ row. (p row ≡ true) × (find? (outbox_is row.outbox_id) rs ≡ some row))
        (select_where p rs)
unfolding select_where find?
select-Found p [] d = tt
select-Found p (r ∷ rs) (a, d) = headed (p r) refl (select-Found p rs d)
  where
    Found : Outbox → Type 0
    Found row = (p row ≡ true) × (find? (outbox_is row.outbox_id) (r ∷ rs) ≡ some row)

    later :
        (row : Outbox)
        → (p row ≡ true) × (find? (outbox_is row.outbox_id) rs ≡ some row)
        → Found row
    later row (h, e) = (h, rw (other_id r.outbox_id row.outbox_id row rs a e) e)

    first : find? (outbox_is r.outbox_id) (r ∷ rs) ≡ some r
    first = rw (text_self r.outbox_id) refl

    headed :
        (b : Bool)
        → p r ≡ b
        → All
            (λ row. (p row ≡ true) × (find? (outbox_is row.outbox_id) rs ≡ some row))
            (select_where p rs)
        → All Found (if b then r ∷ select_where p rs else select_where p rs)
    headed true h rest = ((h, first), All-map (select_where p rs) later rest)
    headed false h rest = All-map (select_where p rs) later rest

pub own_id : (s : Tables) (id : String) (r : Outbox) → outbox_row id s ≡ some r → r.outbox_id ≡ id
unfolding outbox_row
own_id s id r e = ground (arith, find?-holds (outbox_is id) s.outbox r e)

module _ {R : Outbox → Outbox → Type 0} (k : RowOrder R) where
  pub Kept-refl : (o : Option Outbox) → Kept R o o
  Kept-refl none = tt
  Kept-refl (some r) = k.same r

  Kept-trans : (a b c : Option Outbox) → Kept R a b → Kept R b c → Kept R a c
  Kept-trans none b c h j = tt
  Kept-trans (some r) none c h j = absurd h
  Kept-trans (some r) (some t) none h j = absurd j
  Kept-trans (some r) (some t) (some u) h j = k.chain r t u h j

  pub Rows-order : IsOrder (Rows R)
  Rows-order = record {
    same = λ s. record { rows = λ id. Kept-refl (outbox_row id s); distinct = λ d. d };
    chain = λ s t u h j. record {
      rows = λ id.
          Kept-trans (outbox_row id s) (outbox_row id t) (outbox_row id u) (h.rows id) (j.rows id);
      distinct = λ d. j.distinct (h.distinct d);
    };
  }

  -- What does not touch the outbox.
  pub Rows-untouched : (s t : Tables) → t.outbox ≡ s.outbox → Rows R s t
  unfolding outbox_row
  Rows-untouched s t e = record {
    rows = λ id. rw e (Kept-refl (outbox_row id s));
    distinct = λ d. rw e d;
  }

  kept_row :
      (f : Outbox → Outbox) (r : Outbox) (b : Bool)
      → (b ≡ true → R r (f r))
      → R r (if b then f r else r)
  kept_row f r true h = h refl
  kept_row f r false h = k.same r

  Kept-map :
      (f : Outbox → Outbox) (p : Outbox → Bool) (o : Option Outbox)
      → ((r : Outbox) → o ≡ some r → p r ≡ true → R r (f r))
      → Kept R o (Option.map (λ r. if p r then f r else r) o)
  Kept-map f p none h = tt
  Kept-map f p (some r) h = kept_row f r (p r) (h r refl)

  Rows-update :
      (s : Tables) (p : Outbox → Bool) (f : Outbox → Outbox)
      → ((r : Outbox) → p r ≡ true → (f r).outbox_id ≡ r.outbox_id)
      → ((r : Outbox) (id : String) → outbox_row id s ≡ some r → p r ≡ true → R r (f r))
      → Rows R s (record s { outbox = update_where p f s.outbox })
  unfolding outbox_row
  Rows-update s p f keep step = record {
    rows = λ id.
        rw
          (find?-update_where (outbox_is id) p f s.outbox
            (λ r h. ap (λ (i : String). text_eq i id) (keep r h)))
          (Kept-map f p (outbox_row id s) (λ r e. step r id e));
    distinct = λ d. subst Distinct (sym (ids-update_where p f s.outbox keep)) d;
  }

  pub Leads-update :
      (s : Tables) (p : Outbox → Bool) (f : Outbox → Outbox)
      → ((r : Outbox) → p r ≡ true → (f r).outbox_id ≡ r.outbox_id)
      → ((r : Outbox) → p r ≡ true → R r (f r))
      → Leads (Rows R) s (update_outbox p f)
  unfolding update_outbox
  Leads-update s p f keep step =
      Leads-write Rows-order s _ (Rows-update s p f keep (λ r id e h. step r h))

  -- The update of one row that was read.
  pub Leads-update_row :
      (s : Tables) (id : String) (f : Outbox → Outbox)
      → ((r : Outbox) → (f r).outbox_id ≡ r.outbox_id)
      → ((r : Outbox) → outbox_row id s ≡ some r → R r (f r))
      → Leads (Rows R) s (update_outbox (outbox_is id) f)
  unfolding update_outbox
  Leads-update_row s id f keep step =
      Leads-write Rows-order s _
        (Rows-update s (outbox_is id) f (λ r _. keep r) (λ r i e h. step r (at_id r i e h)))
    where
      at_id :
          (r : Outbox) (i : String)
          → outbox_row i s ≡ some r
          → outbox_is id r ≡ true
          → outbox_row id s ≡ some r
      at_id r i e h = subst (λ j. outbox_row j s ≡ some r) (sym (own_id s i r e) ∙ text_same h) e

module _ {R Q : Tables → Tables → Type 0} {A : Type 0} where
  pub Leads-weaken :
      (s : Tables) (m : Db A) → ((t : Tables) → R s t → Q s t) → Leads R s m → Leads Q s m
  Leads-weaken s m f h = record { after = f (m s).1 h.after }

module _ {R : Tables → Tables → Type 0} (o : IsOrder R) {A B : Type 0} where
  pub Leads-required :
      (s : Tables) (a : Option A) (f : A → Db B)
      → ((x : A) → a ≡ some x → Leads R s (f x))
      → Leads R s (required a >>= f)
  unfolding ◌>>=◌
  Leads-required s none f h = record { after = o.same s }
  Leads-required s (some x) f h = record { after = (h x refl).after }

  pub Leads-or_throw :
      (s : Tables) (e : String) (a : Option A) (f : A → Db B)
      → ((x : A) → a ≡ some x → Leads R s (f x))
      → Leads R s (or_throw e a >>= f)
  unfolding ◌>>=◌
  Leads-or_throw s e none f h = record { after = o.same s }
  Leads-or_throw s e (some x) f h = record { after = (h x refl).after }

module _ {R : Tables → Tables → Type 0} (o : IsOrder R) {A : Type 0} where
  pub Leads-required_last : (s : Tables) (a : Option A) → Leads R s (required a)
  unfolding pure raise
  Leads-required_last s none = record { after = o.same s }
  Leads-required_last s (some x) = record { after = o.same s }

  pub Leads-or_throw_last : (s : Tables) (e : String) (a : Option A) → Leads R s (or_throw e a)
  unfolding pure raise
  Leads-or_throw_last s e none = record { after = o.same s }
  Leads-or_throw_last s e (some x) = record { after = o.same s }
