-- ===== src/Scheduler/Timezone.antt =====
-- dispatcher/src/scheduler/timezone.ts: the offset of a zone at an instant, and the instant of a
-- wall-clock time. The zones are moment-timezone's, a parameter; the version of their data was
-- compared with `TZDB_VERSION` when the module was loaded.
use dona.Prelude.{
  ℕ, zero, suc, String, Bool, true, false, not, List, [], ◌∷◌, Option, none, some, ltb,
  if◌then◌else◌, ◌+◌, ◌-◌, ◌/◌, min, get_elem?, length, text_eq, text_discrete, ℕ_discrete, is_yes,
}
use dona.Exec.{Result, ok, err, and_then}
use dona.Scheduler.Calendar.{
  ScheduleError, tzdb_unavailable, invalid_timezone, invalid_instant, local_time_gap, LocalDate,
  LocalTime, local_date, local_time, wall_clock, format_utc,
}

-- A whole number: an offset, which is positive to the west of Greenwich.
pub data ℤ : Type 0 where
  pos : ℕ → ℤ
  negsuc : ℕ → ℤ

unfoldable pub ℤ_discrete : Discrete ℤ
unfolding ℕ_discrete
ℤ_discrete = hlevel (ℕ_discrete)

-- A whole number added to an instant or taken from it.
unfoldable pub shift : ℕ → ℤ → ℕ
shift t (pos n) = t + n
shift t (negsuc n) = t - suc n

unfoldable pub unshift : ℕ → ℤ → ℕ
unshift t (pos n) = t - n
unshift t (negsuc n) = t + suc n

-- `untils` are the instants at which the offsets end, the last of them `Infinity`.
pub record Zone : Type 0 where
  pub untils : List (Option ℕ)
  pub offsets : List ℤ

abbrev pub tzdb_version : String
tzdb_version = "2025b"

-- `utc < until`.
abbrev pub is_before : ℕ → Option ℕ → Bool
is_before utc none = true
is_before utc (some until) = ltb utc until

-- `utc < untils[i]!`, which is false where there is no entry.
abbrev pub before_entry : ℕ → Option (Option ℕ) → Bool
before_entry utc none = false
before_entry utc (some until) = is_before utc until

-- The loop `while (low < high)` of `offsetAt`: each turn makes `high - low` smaller.
unfoldable pub search_until : ℕ → List (Option ℕ) → ℕ → ℕ → ℕ → ℕ
search_until zero untils utc low high = low
search_until (suc fuel) untils utc low high =
    let mid = (low + high) / 2 in
    let left = search_until fuel untils utc low mid in
    let right = search_until fuel untils utc (suc mid) high in
    if ltb low high then (if before_entry utc (get_elem? untils mid) then left else right) else low

unfoldable pub offset_at : Zone → ℕ → Option ℤ
unfolding search_until
offset_at zone utc =
    let high = length zone.untils - 1 in
    get_elem? zone.offsets (search_until high zone.untils utc 0 high)

-- The body of `localIdentity` for a known zone.
unfoldable pub local_in : ℕ → Option ℤ → Result ScheduleError ℕ
unfolding format_utc unshift
local_in utc none = err invalid_instant
local_in utc (some offset) = format_utc (unshift utc offset)

abbrev pub unless {ℓ} : {P : Type ℓ} → Dec P → ℤ → List ℤ → List ℤ
unless (yes p) b rest = rest
unless (no n) b rest = b ∷ rest

-- `new Set(offsets)`: of equal entries the first.
unfoldable pub without : ℤ → List ℤ → List ℤ
unfolding ℤ_discrete
without a [] = []
without a (b ∷ bs) = unless (ℤ_discrete a b) b (without a bs)

unfoldable pub distinct : List ℤ → List ℤ
unfolding without
distinct [] = []
distinct (a ∷ os) = a ∷ without a (distinct os)

-- `Math.min` of a candidate and the earliest so far, of which there is none at first.
abbrev pub sooner : ℕ → Option ℕ → ℕ
sooner t none = t
sooner t (some u) = min u t

abbrev pub has_offset : ℤ → Option ℤ → Bool
has_offset o none = false
has_offset o (some p) = is_yes (ℤ_discrete p o)

unfoldable pub earliest : Zone → ℕ → List ℤ → Option ℕ → Option ℕ
unfolding shift offset_at ℤ_discrete
earliest zone wall [] best = best
earliest zone wall (o ∷ os) best =
    let candidate = shift wall o in
    earliest zone wall os
      (if has_offset o (offset_at zone candidate) then some (sooner candidate best) else best)

-- The instant of a wall-clock time, or nothing where the clocks skip it.
unfoldable pub resolved : Option ℕ → Result ScheduleError (Option ℕ)
unfolding format_utc
resolved none = ok none
resolved (some t) = and_then (format_utc t) λ u. ok (some u)

unfoldable pub resolve_wall : Zone → ℕ → Result ScheduleError (Option ℕ)
unfolding earliest distinct resolved
resolve_wall zone wall = resolved (earliest zone wall (distinct zone.offsets) none)

abbrev pub known : Option Zone → Result ScheduleError Zone
known none = err invalid_timezone
known (some zone) = ok zone

module _ (zones : String → Option Zone) where
  unfoldable pub timezone_name : String → String → Result ScheduleError Zone
  unfolding text_discrete
  timezone_name name version =
      if not (text_eq version tzdb_version) then err tzdb_unavailable else known (zones name)

  unfoldable pub local_identity : ℕ → String → Result ScheduleError ℕ
  unfolding local_in offset_at
  local_identity utc name = in_zone (zones name)
    where
      in_zone : Option Zone → Result ScheduleError ℕ
      in_zone none = err invalid_timezone
      in_zone (some zone) = local_in utc (offset_at zone utc)

  unfoldable pub resolve_local :
      LocalDate → LocalTime → String → String → Result ScheduleError (Option ℕ)
  unfolding local_date local_time timezone_name wall_clock resolve_wall
  resolve_local date time name version = and_then (local_date date) λ d.
      and_then (local_time time)
        λ t. and_then (timezone_name name version) λ zone. resolve_wall zone (wall_clock d t)

  -- `resolved === null` throws.
  abbrev or_gap : Option ℕ → Result ScheduleError ℕ
  or_gap none = err local_time_gap
  or_gap (some t) = ok t

  unfoldable pub resolve_one_shot : LocalDate → LocalTime → String → String → Result ScheduleError ℕ
  unfolding resolve_local
  resolve_one_shot date time name version = and_then (resolve_local date time name version) or_gap
