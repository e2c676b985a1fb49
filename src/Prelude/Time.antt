-- ===== src/Prelude/Time.antt =====
-- Go's time.Time and time.Duration: nanoseconds, those of a Time counted from the Unix epoch.
-- A Time is not bounded here; a Duration is an int64, which only `sub` can leave, and Go's does
-- not: it stops at the ends.
use Prim.Native.Nat.{◌^◌, ◌-◌}
use mathlib.Core.Path.{◌≡◌}
use mathlib.Core.Logic.{◌↔◌}
use mathlib.Core.List.{List, [], ◌∷◌}
use mathlib.Core.Bool.{Bool, true, false}
use native.Mathlib.Omega.{arith}
use otlp_collector_oidc.Prelude.Tests.{if◌then◌else◌}
use otlp_collector_oidc.Prelude.Int.{
  ℤ, pos, negsuc, ◌+ℤ◌, ◌-ℤ◌, ◌*ℤ◌, ltb_ℤ, ◌<ℤ◌, ◌≤ℤ◌, ltb_ℤ_iff, ltb_ℤ-false_iff, +ℤ_parts,
  -ℤ_parts,
}

abbrev pub Time : Type 0
Time = ℤ

abbrev pub Duration : Type 0
Duration = ℤ

abbrev pub second : ℤ
second = pos 1000000000

-- The zero Time, the first of January of the year 1.
abbrev pub zero_time : Time
zero_time = negsuc 62135596799999999999

-- `time.Unix(sec, nsec)`.
unfoldable pub unix : ℤ → ℤ → Time
unix sec nsec = sec *ℤ second +ℤ nsec

abbrev pub add : Time → Duration → Time
add t d = t +ℤ d

unfoldable pub before : Time → Time → Bool
before t u = ltb_ℤ t u

unfoldable pub after : Time → Time → Bool
after t u = ltb_ℤ u t

abbrev pub max_duration : Duration
max_duration = pos (2 ^ 63 - 1)

abbrev pub min_duration : Duration
min_duration = negsuc (2 ^ 63 - 1)

abbrev pub clamp : ℤ → Duration
clamp d =
    if ltb_ℤ max_duration d then max_duration else if ltb_ℤ d min_duration then min_duration else d

-- `t.Sub(u)`.
unfoldable pub sub : Time → Time → Duration
sub t u = clamp (t -ℤ u)

pub before_iff : (t u : Time) → (before t u ≡ true) ↔ (t <ℤ u)
unfolding before
before_iff t u = ltb_ℤ_iff t u

pub before_false_iff : (t u : Time) → (before t u ≡ false) ↔ (u ≤ℤ t)
unfolding before
before_false_iff t u = ltb_ℤ-false_iff t u

pub after_iff : (t u : Time) → (after t u ≡ true) ↔ (u <ℤ t)
unfolding after
after_iff t u = ltb_ℤ_iff u t

pub after_false_iff : (t u : Time) → (after t u ≡ false) ↔ (t ≤ℤ u)
unfolding after
after_false_iff t u = ltb_ℤ-false_iff u t

+ℤ-zero : (a : ℤ) → a +ℤ pos 0 ≡ a
unfolding ◌+ℤ◌
+ℤ-zero a = ground arith

pub unix-zero : (sec : ℤ) → unix sec (pos 0) ≡ sec *ℤ second
unfolding unix
unix-zero sec = +ℤ-zero (sec *ℤ second)

-- Time that the clock says has gone by has gone by, where it is asked for more than none.
pub sub_le :
    (now t : Time) (d : Duration) → pos 0 <ℤ d → ltb_ℤ (sub now t) d ≡ false → t +ℤ d ≤ℤ now
unfolding sub
sub_le now t d p h = ground (arith, -ℤ_parts now t, +ℤ_parts t d)

-- Times, the latest first, each at least the distance after the one before it.
abbrev pub IsSpaced : Duration → List Time → Type 0
IsSpaced d [] = Unit
IsSpaced d (t ∷ []) = Unit
IsSpaced d (t ∷ u ∷ ts) = (u +ℤ d ≤ℤ t) × IsSpaced d (u ∷ ts)

-- The last of the times, if there is one.
abbrev pub IsLatest : Time → List Time → Type 0
IsLatest m [] = Unit
IsLatest m (t ∷ ts) = t ≡ m

pub IsSpaced-cons :
    (d : Duration) (t m : Time) (ts : List Time)
    → IsLatest m ts
    → IsSpaced d ts
    → m +ℤ d ≤ℤ t
    → IsSpaced d (t ∷ ts)
IsSpaced-cons d t m [] l g h = tt
IsSpaced-cons d t m (u ∷ ts) l g h = (rw l h, g)
