-- ===== src/Scheduler/Search.antt =====
-- The binary search of `offsetAt` in dispatcher/src/scheduler/timezone.ts against its meaning.
use dona.Prelude.{
  ℕ, zero, suc, true, false, List, [], ◌∷◌, Option, none, some, ◌≡◌, refl, inl, inr, Bool-cases,
  ltb, ltb→lt, subst, arith, ◌+◌, ◌-◌, ◌/◌, ◌≤◌, ◌<◌, length, get_elem?,
}
use dona.Scheduler.Timezone.{Zone, is_before, before_entry, search_until, offset_at}

-- Each offset ends after the one before it, and only the last need not end.
abbrev EndsLater : Option ℕ → Option ℕ → Type 0
EndsLater none v = ⊥
EndsLater (some a) none = Unit
EndsLater (some a) (some b) = a < b

unfoldable pub Ascending : List (Option ℕ) → Type 0
Ascending [] = Unit
Ascending (u ∷ []) = Unit
Ascending (u ∷ v ∷ us) = EndsLater u v × Ascending (v ∷ us)

-- The entry at which the instants that come before its end begin, or the last.
pub record IsFirstAfter (utc : ℕ) (untils : List (Option ℕ)) (low high i : ℕ) : Type 0 where
  pub from_low : low ≤ i
  pub to_high : i ≤ high
  pub ended : (j : ℕ) → low ≤ j → j < i → before_entry utc (get_elem? untils j) ≡ false
  pub current : i < high → before_entry utc (get_elem? untils i) ≡ true

is_before_later :
    (utc : ℕ) (u v : Option ℕ) → EndsLater u v → is_before utc v ≡ false → is_before utc u ≡ false
is_before_later utc none v l h = absurd l
is_before_later utc (some a) none l h = cc
is_before_later utc (some a) (some b) l h = ground arith

ended_before :
    (utc : ℕ) (us : List (Option ℕ)) (i j : ℕ)
    → Ascending us
    → i ≤ j
    → j < length us
    → before_entry utc (get_elem? us j) ≡ false
    → before_entry utc (get_elem? us i) ≡ false
unfolding Ascending
ended_before utc [] i j a le lt h = absurd (omega arith)
ended_before utc (u ∷ us) zero zero a le lt h = h
ended_before utc (u ∷ []) (suc i) (suc j) a le lt h = absurd (omega arith)
ended_before utc (u ∷ []) zero (suc j) a le lt h = absurd (omega arith)
ended_before utc (u ∷ v ∷ us) (suc i) (suc j) a le lt h =
    ended_before utc (v ∷ us) i j a.1 (omega arith) (omega arith) h
ended_before utc (u ∷ v ∷ us) zero (suc j) a le lt h =
    is_before_later utc u v a.0 (ended_before utc (v ∷ us) 0 j a.1 (omega arith) (omega arith) h)
ended_before utc (u ∷ us) (suc i) zero a le lt h = absurd (omega arith)

not_ltb : (a b : ℕ) → ltb a b ≡ false → b ≤ a
not_ltb a b h = ground arith

module _ (utc : ℕ) (us : List (Option ℕ)) (asc : Ascending us) where
  at_low : (low high : ℕ) → low ≡ high → IsFirstAfter utc us low high low
  at_low low high e = record {
    from_low = omega arith;
    to_high = omega arith;
    ended = λ j a b. absurd (omega arith);
    current = λ a. absurd (omega arith);
  }

  at_mid : (i mid : ℕ) → i ≤ mid → ltb i mid ≡ false → mid ≡ i
  at_mid i mid le q = ground arith

  in_left :
      (low mid high i : ℕ)
      → mid < high
      → before_entry utc (get_elem? us mid) ≡ true
      → IsFirstAfter utc us low mid i
      → IsFirstAfter utc us low high i
  in_left low mid high i lt p r = record {
    from_low = r.from_low;
    to_high = omega (arith, r.to_high);
    ended = r.ended;
    current = λ a. elim (Bool-cases (ltb i mid)) [
      | inl q ↦ r.current (ltb→lt i mid q)
      | inr q ↦ subst (λ k. before_entry utc (get_elem? us k) ≡ true) (at_mid i mid r.to_high q) p
    ];
  }

  in_right :
      (low mid high i : ℕ)
      → mid < high
      → low ≤ mid
      → high < length us
      → before_entry utc (get_elem? us mid) ≡ false
      → IsFirstAfter utc us (suc mid) high i
      → IsFirstAfter utc us low high i
  in_right low mid high i lt le bound p r = record {
    from_low = omega (arith, r.from_low);
    to_high = r.to_high;
    current = r.current;
    ended = λ j a b. elim (Bool-cases (ltb mid j)) [
      | inl q ↦ r.ended j (ltb→lt mid j q) b
      | inr q ↦ ended_before utc us j mid asc (not_ltb mid j q) (omega arith) p
    ];
  }

  pub search_until_lem :
      (fuel low high : ℕ)
      → low ≤ high
      → high < length us
      → high - low ≤ fuel
      → IsFirstAfter utc us low high (search_until fuel us utc low high)
  unfolding search_until
  search_until_lem zero low high le lt f = at_low low high (omega arith)
  search_until_lem (suc fuel) low high le lt f = elim (Bool-cases (ltb low high)) [
    | inr e ↦ rw e (at_low low high (ground arith))
    | inl e ↦
        let l = ltb→lt low high e in
        let mid = (low + high) / 2 in
        elim (Bool-cases (before_entry utc (get_elem? us ((low + high) / 2)))) [
          | inl p ↦ rw e (
              rw p (
                in_left low mid high (search_until fuel us utc low mid) (omega arith) p
                  (search_until_lem fuel low mid (omega arith) (omega arith) (omega arith))))
          | inr p ↦ rw e (
              rw p (
                in_right low mid high (search_until fuel us utc (suc mid) high) (omega arith)
                  (omega arith) lt p
                  (search_until_lem fuel (suc mid) high (omega arith) lt (omega arith))))
        ]
  ]

-- The offset found is the one of the first entry that ends after the instant, and the last offset
-- where none does.
pub offset_at-IsFirstAfter :
    (zone : Zone) (utc : ℕ)
    → Ascending zone.untils
    → 0 < length zone.untils
    → (i : ℕ) × IsFirstAfter utc zone.untils 0 (length zone.untils - 1) i
      × (offset_at zone utc ≡ get_elem? zone.offsets i)
unfolding offset_at
offset_at-IsFirstAfter zone utc asc some_until =
    let high = length zone.untils - 1 in
    (
      search_until high zone.untils utc 0 high,
      search_until_lem utc zone.untils asc high 0 high (omega arith) (omega arith) (omega arith),
      refl,
    )
