-- ===== src/Render/Bounds.antt =====
-- internal/render/bounds.go: the OTTL statements that bound what a client sends.
pub mod Literal
use otlp_collector_oidc.Prelude.{
  ℕ, Text, bytes, List, [], ◌∷◌, ◌++◌, if◌then◌else◌, Bool, ◌||◌, any, ltb, eqb,
}
use otlp_collector_oidc.Prelude.Time.{Duration}
use otlp_collector_oidc.Prelude.Result.{Result, ok, err, ◌>>=◌}

-- What regexp.Compile comes to: a regular expression, a *syntax.Error with its code, or another
-- error.
pub data Compiled : Type 0 where
  compiled other_error : Compiled
  syntax_error : (code : Text) → Compiled

abbrev pub control : Text → Bool
control text = any (λ c. ltb c 32 || eqb c 127) text

unfoldable pub check_compiled : Compiled → Text → Result Text
check_compiled compiled text = ok text
check_compiled (syntax_error code) text = err (bytes "must be a regular expression: " ++ code)
check_compiled other_error text = err (bytes "must be a regular expression")

-- A match of the whole name.
unfoldable pub anchored : Text → Text
anchored pattern = bytes "^(?:" ++ (pattern ++ bytes ")$")

-- `ServiceNamePattern.UnmarshalText`; `compile` is regexp.Compile.
unfoldable pub read_pattern : (Text → Compiled) → Text → Result Text
unfolding anchored
read_pattern compile text =
    if control text
    then err (bytes "must not contain control characters")
    else check_compiled (compile text) text >>= λ alone.
        check_compiled (compile (anchored text)) text

unfoldable pub is_special : ℕ → Bool
is_special c = eqb c b'"' || eqb c b'\\'

-- The loop over the bytes.
unfoldable pub escape_special : Text → Text
unfolding is_special
escape_special [] = []
escape_special (c ∷ s) =
    let rest = escape_special s in if is_special c then b'\\' ∷ c ∷ rest else c ∷ rest

-- `ottlString`.
unfoldable pub ottl_string : Text → Text
ottl_string s = b'"' ∷ (escape_special s ++ b'"' ∷ [])

unfoldable pub service_name_filter : Text → Text
service_name_filter pattern =
    bytes
      "not IsString(resource.attributes[\"service.name\"]) or not IsMatch(resource.attributes[\"service.name\"], "
    ++ (ottl_string (anchored pattern) ++ bytes ")")

-- `show` is Duration.String.
module _ (show : Duration → Text) where
  duration_call : Duration → Text → Text
  duration_call d rest = bytes "Duration(" ++ (ottl_string (show d) ++ (bytes ")" ++ rest))

  unfoldable pub past_age_span_filter : Duration → Text
  unfolding duration_call
  past_age_span_filter max_age = bytes "span.start_time < Now() - " ++ duration_call max_age []

  unfoldable pub past_age_log_filter : Duration → Text
  unfolding duration_call
  past_age_log_filter max_age =
      bytes "log.time_unix_nano != 0 and log.time < Now() - " ++ duration_call max_age []

  unfoldable pub future_skew_span_clamps : Duration → List Text
  unfolding duration_call
  future_skew_span_clamps skew =
      (bytes "set(span.start_time, Now()) where span.start_time > Now() + "
        ++ duration_call skew [])
      ∷ (bytes "set(span.end_time, span.start_time) where span.end_time > Now() + "
          ++ duration_call skew (bytes " and span.start_time > Now()"))
      ∷ (bytes "set(span.end_time, Now()) where span.end_time > Now() + " ++ duration_call skew [])
      ∷ []

  unfoldable pub future_skew_log_clamps : Duration → List Text
  unfolding duration_call
  future_skew_log_clamps skew =
      (bytes "set(log.time, Now()) where log.time > Now() + " ++ duration_call skew []) ∷ []
