-- ===== src/Auth/Config.antt =====
-- extension/oidcclientauth/config.go: the authenticator's settings, and what is refused of them.
pub mod Laws
use otlp_collector_oidc.Prelude.{
  ℕ, Text, bytes, List, [], ◌∷◌, ◌++◌, map, Option, none, some, if◌then◌else◌, Bool, true, false,
  ◌||◌, ◌&&◌, not, ◌==◌, eqb, is_empty, contains, lookup, any,
}
use otlp_collector_oidc.Prelude.Int.{ℤ, pos, ltb_ℤ, ◌*ℤ◌}
use otlp_collector_oidc.Prelude.Time.{Duration, second}

pub record Config : Type 0 where
  pub issuer_url : Text
  pub audience : Text
  pub discovery_retry : Duration
  pub jwks_refresh : Duration
  pub required_scope : Text
  pub required_claims : List Text
  pub claim_attributes : List (Text × Text)
  pub resource_attributes : List (Text × Text)
  pub clock_skew : Duration
  pub rejection_log_interval : Duration
  pub algorithms : List Text

-- The errors of `Validate`, `joined` where several are.
pub data ConfigError : Type 0 where
  err_no_issuer err_issuer_not_url err_no_audience err_discovery_retry : ConfigError
  err_jwks_refresh err_required_scope err_empty_required_claim : ConfigError
  err_empty_claim_attribute err_empty_resource_key : ConfigError
  err_attribute_collision : Text → ConfigError
  err_clock_skew err_rejection_log_interval err_no_algorithms : ConfigError
  err_unsupported_algorithms : Text → ConfigError

pub data Algorithms : Type 0 where
  refused : ConfigError → Algorithms
  allowed : List Text → Algorithms

unfoldable pub supported_algorithms : List Text
supported_algorithms =
    bytes "RS256"
    ∷ bytes "RS384"
    ∷ bytes "RS512"
    ∷ bytes "ES256"
    ∷ bytes "ES384"
    ∷ bytes "ES512"
    ∷ []

one_more : Text → Algorithms → Algorithms
one_more name (refused e) = refused e
one_more name (allowed out) = allowed (name ∷ out)

-- The loop over the names.
allow_all : List Text → Algorithms
unfolding one_more
allow_all [] = allowed []
allow_all (name ∷ names) =
    let rest = allow_all names in
    if not (contains supported_algorithms name)
    then refused (err_unsupported_algorithms name)
    else one_more name rest

unfoldable pub algorithms : List Text → Algorithms
unfolding allow_all one_more
algorithms [] = refused err_no_algorithms
algorithms (name ∷ names) = allow_all (name ∷ names)

-- `if b { errs = append(errs, e) }`.
abbrev error_if : Bool → ConfigError → List ConfigError
error_if b e = if b then e ∷ [] else []

-- `d <= 0`.
abbrev is_not_positive : Duration → Bool
is_not_positive d = not (ltb_ℤ (pos 0) d)

is_space : ℕ → Bool
is_space c = eqb c 32 || eqb c 9 || eqb c 13 || eqb c 10

-- The scheme and host of what `url.Parse` returns, none for its error.
module _ (parse_url : Text → Option (Text × Text)) where
  is_bad_url : Option (Text × Text) → Bool
  is_bad_url none = true
  is_bad_url (some (scheme, host)) =
      (not (scheme == bytes "http") && not (scheme == bytes "https")) || is_empty host

  issuer_errors : Text → List ConfigError
  unfolding is_bad_url
  issuer_errors [] = err_no_issuer ∷ []
  issuer_errors (b ∷ url) = error_if (is_bad_url (parse_url (b ∷ url))) err_issuer_not_url

collisions : List (Text × Text) → List (Text × Text) → List ConfigError
collisions [] resources = []
collisions ((claim, attr) ∷ claims) resources =
    let rest = collisions claims resources in
    elim (lookup attr resources) [ none ↦ rest | some _ ↦ err_attribute_collision attr ∷ rest ]

algorithm_errors : Algorithms → List ConfigError
algorithm_errors (refused e) = e ∷ []
algorithm_errors (allowed _) = []

-- The errors that `Validate` joins; there is none where it returns nil.
unfoldable pub validate : (Text → Option (Text × Text)) → Config → List ConfigError
unfolding issuer_errors is_bad_url is_space collisions algorithm_errors
validate parse_url c =
    issuer_errors parse_url c.issuer_url
    ++ (error_if (is_empty c.audience) err_no_audience
        ++ (error_if (is_not_positive c.discovery_retry) err_discovery_retry
            ++ (error_if (is_not_positive c.jwks_refresh) err_jwks_refresh
                ++ (error_if (is_empty c.required_scope || any is_space c.required_scope)
                      err_required_scope
                    ++ (error_if (any is_empty c.required_claims) err_empty_required_claim
                        ++ (error_if
                              (any (λ (claim, attr). is_empty claim || is_empty attr)
                                c.claim_attributes)
                              err_empty_claim_attribute
                            ++ (error_if (any (λ (key, v). is_empty key) c.resource_attributes)
                                  err_empty_resource_key
                                ++ (collisions c.claim_attributes c.resource_attributes
                                    ++ (error_if (ltb_ℤ c.clock_skew (pos 0)) err_clock_skew
                                        ++ (error_if (is_not_positive c.rejection_log_interval)
                                              err_rejection_log_interval
                                            ++ algorithm_errors (algorithms c.algorithms)))))))))))

-- `createDefaultConfig`.
unfoldable pub create_default_config : Config
create_default_config = record {
  issuer_url = [];
  audience = [];
  discovery_retry = pos 30 *ℤ second;
  jwks_refresh = pos 600 *ℤ second;
  required_scope = bytes "telemetry:write";
  required_claims = bytes "sub" ∷ bytes "preferred_username" ∷ [];
  claim_attributes =
      (bytes "sub", bytes "user.id")
      ∷ (bytes "preferred_username", bytes "user.name")
      ∷ (bytes "email", bytes "user.email")
      ∷ (bytes "name", bytes "user.full_name")
      ∷ [];
  resource_attributes = [];
  clock_skew = pos 60 *ℤ second;
  rejection_log_interval = pos 60 *ℤ second;
  algorithms = supported_algorithms;
}
