-- ===== src/Scheduler/Padding.antt =====
-- The days around a window that `calculateOccurrences` of dispatcher/src/scheduler/calculator.ts
-- looks at: an offset of less than a day moves an instant by less than a day.
use dona.Prelude.{
  ℕ, suc, String, Bool, true, false, List, [], ◌∷◌, Option, none, some, ◌≡◌, refl, ap, ◌∙◌, subst,
  inl, inr, ◌+◌, ◌*◌, ◌≤◌, ◌<◌, arith, All, not, text_eq, if◌then◌else◌,
}
use dona.Exec.{Result, ok, err, and_then}
use dona.Scheduler.Calendar.{
  ScheduleError, LocalDate, LocalTime, local_date, local_time, wall_clock, civil, day_ms,
  day_number, tzdb_unavailable,
}
use dona.Scheduler.Days.{day_number-civil}
use dona.Scheduler.Timezone.{
  ℤ, pos, negsuc, Zone, shift, timezone_name, known, tzdb_version, resolve_wall, resolve_local,
}
use dona.Scheduler.Resolution.{ReadsAs, IsResolved, resolve_wall-IsResolved}

-- An offset of less than a day.
abbrev pub IsSmall : ℤ → Type 0
IsSmall (pos n) = n < day_ms
IsSmall (negsuc n) = suc n < day_ms

-- The zones have such offsets only.
abbrev pub HasSmallOffsets : (String → Option Zone) → Type 0
HasSmallOffsets zones =
    (name : String) (zone : Zone) → zones name ≡ some zone → All IsSmall zone.offsets

and_then-ok :
    {E A B : Type 0} (r : Result E A) (f : A → Result E B) {b : B}
    → and_then r f ≡ ok b
    → (a : A) × (r ≡ ok a) × (f a ≡ ok b)
and_then-ok (ok a) f h = (a, refl, h)
and_then-ok (err e) f h = cc

local_date_same : (d d' : LocalDate) → local_date d ≡ ok d' → d' ≡ d
unfolding local_date
local_date_same d d' h = ground arith

seconds : LocalTime → ℕ
seconds t = t.hour * 3600 + t.minute * 60 + t.second

local_time_bounds : (t t' : LocalTime) → local_time t ≡ ok t' → seconds t' < 86400
unfolding local_time seconds
local_time_bounds t t' h = ground arith

shift_near : (w u : ℕ) (o : ℤ) → IsSmall o → u ≡ shift w o → (u < w + day_ms) × (w < u + day_ms)
unfolding shift
shift_near w u (pos n) h e = (omega arith, omega arith)
shift_near w u (negsuc n) h e = (omega arith, omega arith)

ReadsAs-near :
    (zone : Zone) (w u : ℕ) (os : List ℤ)
    → All IsSmall os
    → ReadsAs zone w os u
    → (u < w + day_ms) × (w < u + day_ms)
ReadsAs-near zone w u [] h r = absurd r
ReadsAs-near zone w u (o ∷ os) h (inl r) = shift_near w u o h.0 r.0
ReadsAs-near zone w u (o ∷ os) h (inr r) = ReadsAs-near zone w u os h.1 r

named :
    (b : Bool) (o : Option Zone) (zone : Zone)
    → (if b then err tzdb_unavailable else known o) ≡ ok zone
    → o ≡ some zone
named true o zone h = cc
named false none zone h = cc
named false (some z) zone h = cc

pub some_same :
    {E A : Type 0} {t u : A} → ◌≡◌ {A = Result E (Option A)} (ok (some t)) (ok (some u)) → t ≡ u
some_same e = cc

is_near :
    (zone : Zone) (w u : ℕ) (r : Result ScheduleError (Option ℕ))
    → All IsSmall zone.offsets
    → IsResolved zone w r
    → r ≡ ok (some u)
    → (u < w + day_ms) × (w < u + day_ms)
is_near zone w u (ok none) small h e = cc
is_near zone w u (ok (some t)) small h e =
    subst (λ v. (v < w + day_ms) × (w < v + day_ms)) (some_same e)
      (ReadsAs-near zone w t zone.offsets small h.0.0)
is_near zone w u (err x) small h e = cc

in_day :
    (day : ℕ) (d : LocalDate) (t : LocalTime)
    → d ≡ civil day
    → seconds t < 86400
    → (day * day_ms ≤ wall_clock d t) × (wall_clock d t < (day + 1) * day_ms)
unfolding wall_clock seconds
in_day day d t e h =
    let n = ap day_number e ∙ day_number-civil day in (omega (arith, n), omega (arith, n, h))

module _ (zones : String → Option Zone) (small : HasSmallOffsets zones) where
  timezone_name-IsSmall :
      (name version : String) (zone : Zone)
      → timezone_name zones name version ≡ ok zone
      → All IsSmall zone.offsets
  unfolding timezone_name
  timezone_name-IsSmall name version zone h =
      small name zone (named (not (text_eq version tzdb_version)) (zones name) zone h)

  -- The instant that a day's wall-clock time resolves to is near the day.
  pub resolve_local_near :
      (day u : ℕ) (t : LocalTime) (name version : String)
      → resolve_local zones (civil day) t name version ≡ ok (some u)
      → (u < (day + 2) * day_ms) × (day * day_ms < u + day_ms)
  unfolding resolve_local
  resolve_local_near day u t name version h =
      let (d, hd, h1) = and_then-ok (local_date (civil day)) _ h in
      let (t', ht, h2) = and_then-ok (local_time t) _ h1 in
      let (zone, hz, h3) = and_then-ok (timezone_name zones name version) _ h2 in
      let near =
        is_near zone (wall_clock d t') u (resolve_wall zone (wall_clock d t'))
          (timezone_name-IsSmall name version zone hz)
          (resolve_wall-IsResolved zone (wall_clock d t')) h3 in
      let inside = in_day day d t' (local_date_same (civil day) d hd) (local_time_bounds t t' ht) in
      (omega (arith, near.0, inside.1), omega (arith, near.1, inside.0))
