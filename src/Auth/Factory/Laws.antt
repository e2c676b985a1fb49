-- ===== src/Auth/Factory/Laws.antt =====
-- extension/oidcclientauth/factory.go: what the settings that are accepted make.
use otlp_collector_oidc.Prelude.{◌≡◌, ◌≢◌, refl, Text, [], Option, none, some, true}
use otlp_collector_oidc.Prelude.Int.{pos, ◌<ℤ◌}
use otlp_collector_oidc.Auth.Rejections.{new_rejections}
use otlp_collector_oidc.Auth.Config.{Config, validate}
use otlp_collector_oidc.Auth.Config.Laws.{AreSupported, validate-IsValid, algorithms-allowed_iff}
use otlp_collector_oidc.Auth.Authenticator.{Authenticator}
use otlp_collector_oidc.Auth.Factory.{new_authenticator, from_algorithms}

module _ {State : Type 0} where
  -- An authenticator that waits for the provider, and has what the other theorems ask of one.
  pub record IsReady (c : Config) (a : Authenticator State) : Type 0 where
    pub waiting : a.keys ≡ none
    pub issuer : (a.verifier.issuer ≡ c.issuer_url) × (a.verifier.issuer ≢ [])
    pub algorithms : (a.verifier.algorithms ≡ c.algorithms) × AreSupported a.verifier.algorithms
    pub interval : pos 0 <ℤ a.rejections.interval

  -- Settings that `Validate` finds no error in make an authenticator, where its telemetry can be
  -- made: it has no keys yet, an issuer, no algorithm but the six, and a positive log interval.
  pub new_authenticator-IsReady :
      (parse_url : Text → Option (Text × Text)) (c : Config)
      → validate parse_url c ≡ []
      → (a : Authenticator State) × (new_authenticator c true ≡ some a) × IsReady c a
  unfolding new_authenticator from_algorithms new_rejections
  new_authenticator-IsReady parse_url c h =
      let v = validate-IsValid parse_url c h in
      let e =
        (algorithms-allowed_iff c.algorithms c.algorithms).1 (v.algorithms_ne, v.supported, refl) in
      rw (e, from_algorithms)
        (
          _,
          refl,
          record {
            waiting = refl;
            issuer = (refl, v.issuer_ne);
            algorithms = (refl, v.supported);
            interval = v.log_positive;
          },
        )
