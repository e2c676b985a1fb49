-- ===== src/Auth/Verify/Registered.antt =====
-- extension/oidcclientauth/verify.go: the registered claims iss, aud, exp, nbf and iat.
pub mod Rules
pub mod Faults
pub mod Dates
use otlp_collector_oidc.Prelude.{
  Text, bytes, ◌==◌, List, [], ◌∷◌, Option, none, some, if◌then◌else◌, Bool, true, false, not,
  lookup,
}
use otlp_collector_oidc.Prelude.Int.{ℤ, pos, negsuc}
use otlp_collector_oidc.Prelude.Time.{Time, Duration, second, unix, add, before, after}
use otlp_collector_oidc.Auth.Reason.{
  Fault, malformed, issuer, audience, no_expiry, expired, not_yet_valid, issued_in_future,
}
use otlp_collector_oidc.Auth.Float.{Float64}
use otlp_collector_oidc.Auth.Claims.{
  Value, number, string, array, null, Claims, as_string, has_string,
}

pub record Verifier : Type 0 where
  pub issuer : Text
  pub audience : Text
  pub algorithms : List Text
  pub skew : Duration

-- The results of `numericDate`: `_, false, true`, then `_, true, false`, then `t, true, true`.
pub data DateClaim : Type 0 where
  absent not_a_number : DateClaim
  date : Time → DateClaim

-- `s, _ := v.(string)`, which leaves `s` empty when `v` is none.
abbrev or_empty : Option Text → Text
or_empty none = []
or_empty (some s) = s

module _ {F : Type 0} where
  unfoldable pub audience_contains : Option (Value F) → Text → Bool
  audience_contains (some (string a)) wanted = a == wanted
  audience_contains (some (array vs)) wanted = has_string vs wanted
  audience_contains _ wanted = false

-- The first of two checks that finds a fault.
infixr 20 ◌orelse◌
abbrev ◌orelse◌ : Option Fault → Option Fault → Option Fault
none orelse g = g
some f orelse g = some f

pub exp_fault : Verifier → Time → DateClaim → Option Fault
exp_fault v now not_a_number = some malformed
exp_fault v now absent = some no_expiry
exp_fault v now (date exp) = if not (before now (add exp v.skew)) then some expired else none

pub nbf_fault : Verifier → Time → DateClaim → Option Fault
nbf_fault v now not_a_number = some malformed
nbf_fault v now absent = none
nbf_fault v now (date nbf) = if before (add now v.skew) nbf then some not_yet_valid else none

pub iat_fault : Verifier → Time → DateClaim → Option Fault
iat_fault v now not_a_number = some malformed
iat_fault v now absent = none
iat_fault v now (date iat) = if after iat (add now v.skew) then some issued_in_future else none

-- 1e15.
abbrev pub limit : ℤ
limit = pos 1000000000000000

abbrev pub minus_limit : ℤ
minus_limit = negsuc 999999999999999

module _ (fl : Float64) where
  open fl use {F, of_ℤ, to_ℤ, minimum, maximum, subtract, multiply}

  unfoldable pub time_of : F → Time
  time_of n =
      let f = maximum (minimum n (of_ℤ limit)) (of_ℤ minus_limit) in
      let sec = to_ℤ f in unix sec (to_ℤ (multiply (subtract f (of_ℤ sec)) (of_ℤ second)))

  date_of : Option (Value F) → DateClaim
  date_of none = absent
  date_of (some (number n)) = date (time_of n)
  date_of (some _) = not_a_number

  unfoldable pub numeric_date : Claims F → Text → DateClaim
  unfolding date_of
  numeric_date c name = date_of (lookup name c)

  -- `none` is the result `0, true`.
  unfoldable pub registered : Verifier → Time → Claims F → Option Fault
  unfolding exp_fault nbf_fault iat_fault
  registered v now c =
      (if not (or_empty (as_string (lookup (bytes "iss") c)) == v.issuer)
        then some issuer
        else none)
      orelse (if not (audience_contains (lookup (bytes "aud") c) v.audience)
          then some audience
          else none)
      orelse exp_fault v now (numeric_date c (bytes "exp"))
      orelse nbf_fault v now (numeric_date c (bytes "nbf"))
      orelse iat_fault v now (numeric_date c (bytes "iat"))
