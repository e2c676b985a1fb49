-- ===== src/Auth/Tests/Settings.antt =====
-- The theorems about extension/oidcclientauth/config.go and factory.go at concrete settings.
use otlp_collector_oidc.Prelude.{
  ℕ, ◌≡◌, ◌↔◌, refl, Text, [], Option, some, true, bytes, ◌==◌, contains, lookup,
}
use otlp_collector_oidc.Prelude.Int.{◌*ℤ◌}
use otlp_collector_oidc.Auth.Config.{
  Config, algorithms, supported_algorithms, validate, create_default_config,
}
use otlp_collector_oidc.Auth.Config.Laws.{IsValid}
use otlp_collector_oidc.Auth.Config.Laws.Complete.{validate-nil_iff}
use otlp_collector_oidc.Auth.Authenticator.{Authenticator}
use otlp_collector_oidc.Auth.Factory.{new_authenticator}
use otlp_collector_oidc.Auth.Factory.Laws.{IsReady, new_authenticator-IsReady}

abbrev parse_url : Text → Option (Text × Text)
parse_url url = some (bytes "https", bytes "id")

abbrev config : Config
config = record create_default_config { issuer_url = bytes "https://id"; audience = bytes "app" }

no_errors : validate parse_url config ≡ []
unfolding validate create_default_config algorithms supported_algorithms contains ◌==◌ bytes lookup
    ◌*ℤ◌
no_errors = refl

validate-nil_iff_example : (validate parse_url config ≡ []) ↔ IsValid parse_url config
validate-nil_iff_example = validate-nil_iff parse_url config

new_authenticator-IsReady_example :
    (a : Authenticator ℕ) × (new_authenticator config true ≡ some a) × IsReady config a
new_authenticator-IsReady_example = new_authenticator-IsReady parse_url config no_errors
