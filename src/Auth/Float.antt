-- ===== src/Auth/Float.antt =====
-- Go's float64, a parameter: the type and the operations that `numericDate` uses.
use otlp_collector_oidc.Prelude.Int.{ℤ}

pub record Float64 : Type 1 where
  pub F : Type 0
  -- float64(n), exact up to 2^53.
  pub of_ℤ : ℤ → F
  -- int64(f), for f within an int64.
  pub to_ℤ : F → ℤ
  pub minimum : F → F → F
  pub maximum : F → F → F
  pub subtract : F → F → F
  pub multiply : F → F → F
