-- ===== src/Auth/Verify/Registered/Dates.antt =====
-- What `numericDate` makes of a whole number of seconds.
use otlp_collector_oidc.Prelude.{◌≡◌, ℕ, ◌+◌, ◌^◌, if◌then◌else◌}
use otlp_collector_oidc.Prelude.Int.{ℤ, pos, negsuc, ◌<ℤ◌, ltb_ℤ}
use otlp_collector_oidc.Auth.Float.{Float64}
use otlp_collector_oidc.Auth.Claims.{Claims}
use otlp_collector_oidc.Auth.Verify.Registered.{limit, minus_limit}

-- A whole number that a float64 holds exactly.
abbrev pub IsExact : ℤ → Type 0
IsExact n = (negsuc (2 ^ 53) <ℤ n) × (n <ℤ pos (2 ^ 53 + 1))

-- What IEEE 754 says of the operations at such numbers.
pub record IsIeee (fl : Float64) : Type 0 where
  pub to_of : (n : ℤ) → IsExact n → fl.to_ℤ (fl.of_ℤ n) ≡ n
  pub minimum_of :
      (a b : ℤ)
      → IsExact a
      → IsExact b
      → fl.minimum (fl.of_ℤ a) (fl.of_ℤ b) ≡ fl.of_ℤ (if ltb_ℤ b a then b else a)
  pub maximum_of :
      (a b : ℤ)
      → IsExact a
      → IsExact b
      → fl.maximum (fl.of_ℤ a) (fl.of_ℤ b) ≡ fl.of_ℤ (if ltb_ℤ a b then b else a)
  pub subtract_self : (n : ℤ) → IsExact n → fl.subtract (fl.of_ℤ n) (fl.of_ℤ n) ≡ fl.of_ℤ (pos 0)
  -- Zero times a number that is not negative, which keeps the zero's sign.
  pub multiply_zero :
      (n : ℕ) → IsExact (pos n) → fl.multiply (fl.of_ℤ (pos 0)) (fl.of_ℤ (pos n)) ≡ fl.of_ℤ (pos 0)

-- The number, or the end of the range of dates that it lies beyond.
abbrev pub clamped : ℤ → ℤ
clamped n = if ltb_ℤ limit n then limit else if ltb_ℤ n minus_limit then minus_limit else n

capped : ℤ → ℤ
capped n = if ltb_ℤ limit n then limit else n
