-- ===== src/Scheduler/Roundtrip.antt =====
-- `localIdentity` and `resolveLocal` of dispatcher/src/scheduler/timezone.ts, one after the other.
use dona.Prelude.{
  ℕ, List, [], ◌∷◌, Option, some, none, ◌≡◌, ap, ◌∙◌, subst, inl, inr, ◌≤◌, arith, All,
}
use dona.Exec.{Result, ok, err}
use dona.Scheduler.Calendar.{ScheduleError, format_utc, day_ms}
use dona.Scheduler.Timezone.{
  ℤ, pos, negsuc, Zone, shift, unshift, offset_at, local_in, resolve_wall,
}
use dona.Scheduler.Resolution.{ReadsAs, IsResolved, resolve_wall-IsResolved}
use dona.Scheduler.Padding.{IsSmall, some_same}

unshift-shift : (w : ℕ) (o : ℤ) → IsSmall o → day_ms ≤ w → unshift (shift w o) o ≡ w
unfolding shift unshift
unshift-shift w (pos n) h l = omega arith
unshift-shift w (negsuc n) h l = omega arith

local_in-ReadsAs :
    (zone : Zone) (w t : ℕ) (os : List ℤ)
    → All IsSmall os
    → day_ms ≤ w
    → ReadsAs zone w os t
    → local_in t (offset_at zone t) ≡ format_utc w
unfolding local_in
local_in-ReadsAs zone w t [] small l r = absurd r
local_in-ReadsAs zone w t (o ∷ os) small l (inl r) =
    ap (local_in t) r.1 ∙ ap format_utc (ap (λ t. unshift t o) r.0 ∙ unshift-shift w o small.0 l)
local_in-ReadsAs zone w t (o ∷ os) small l (inr r) = local_in-ReadsAs zone w t os small.1 l r

found_reading :
    (zone : Zone) (w t : ℕ) (r : Result ScheduleError (Option ℕ))
    → IsResolved zone w r
    → r ≡ ok (some t)
    → ReadsAs zone w zone.offsets t
found_reading zone w t (ok none) h e = cc
found_reading zone w t (ok (some u)) h e = subst (ReadsAs zone w zone.offsets) (some_same e) h.0.0
found_reading zone w t (err x) h e = cc

-- Where each offset of the zone is less than a day and the wall-clock time is of the second day or
-- later, the instant that the time resolves to reads as the text of the time.
pub local_in-resolve_wall :
    (zone : Zone) (wall t : ℕ)
    → All IsSmall zone.offsets
    → day_ms ≤ wall
    → resolve_wall zone wall ≡ ok (some t)
    → local_in t (offset_at zone t) ≡ format_utc wall
local_in-resolve_wall zone wall t small l e =
    local_in-ReadsAs zone wall t zone.offsets small l
      (found_reading zone wall t (resolve_wall zone wall) (resolve_wall-IsResolved zone wall) e)
