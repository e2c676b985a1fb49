-- ===== src/Auth/Factory.antt =====
-- extension/oidcclientauth/factory.go: the authenticator that settings make.
pub mod Laws
use otlp_collector_oidc.Prelude.{Bool, true, false, Option, none, some}
use otlp_collector_oidc.Auth.Rejections.{new_rejections}
use otlp_collector_oidc.Auth.Config.{Config, Algorithms, refused, allowed, algorithms}
use otlp_collector_oidc.Auth.Authenticator.{Authenticator}

module _ {State : Type 0} where
  from_algorithms : Config → Bool → Algorithms → Option (Authenticator State)
  from_algorithms c telemetry (refused e) = none
  from_algorithms c false (allowed algs) = none
  from_algorithms c true (allowed algs) = some record {
    keys = none;
    verifier = record {
      issuer = c.issuer_url;
      audience = c.audience;
      algorithms = algs;
      skew = c.clock_skew;
    };
    authorizer = record { scope = c.required_scope; claims = c.required_claims };
    rejections = new_rejections c.rejection_log_interval;
    claim_attributes = c.claim_attributes;
    resource_attributes = c.resource_attributes;
  }

  -- `none` is an error; `telemetry` tells whether the generated telemetry builder is made without.
  unfoldable pub new_authenticator : Config → Bool → Option (Authenticator State)
  unfolding from_algorithms
  new_authenticator c telemetry = from_algorithms c telemetry (algorithms c.algorithms)
