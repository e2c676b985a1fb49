-- ===== src/Auth/Authenticator/Loaded.antt =====
-- A request leaves the keys as loaded as they were.
use otlp_collector_oidc.Prelude.{
  ◌≡◌, inl, inr, refl, ap, ◌∙◌, Text, Option, none, some, Option-cases, Bool, true, false,
}
use otlp_collector_oidc.Prelude.Time.{Time}
use otlp_collector_oidc.Auth.Bearer.{Headers, bearer_token}
use otlp_collector_oidc.Auth.Float.{Float64}
use otlp_collector_oidc.Auth.Claims.{authorize}
use otlp_collector_oidc.Auth.Verify.{KeySource, Verified, rejected, verified, verify}
use otlp_collector_oidc.Auth.Verify.Header.{Decoders}
use otlp_collector_oidc.Auth.Authenticator.{
  Authenticator, refuse, refuse_not_ready, identify, check_token, authenticate,
}

abbrev pub is_loaded : {A : Type 0} → Option A → Bool
is_loaded none = false
is_loaded (some k) = true

module _ {F : Type 0} {State : Type 0} where
  identify-loaded :
      (a : Authenticator State) (later : Time) (v : Verified F)
      → is_loaded (identify a later v).0.keys ≡ is_loaded a.keys
  unfolding identify refuse
  identify-loaded a later (rejected rej) = refl
  identify-loaded a later (verified c) = elim (Option-cases (authorize a.authorizer c)) [
    | inl e ↦ rw (e, identify)
    | inr (rej, e) ↦ rw (e, identify)
  ]

module _ (fl : Float64) (d : Decoders fl.F) (keys : KeySource d.Jws) where
  check_token-loaded :
      (a : Authenticator keys.State) (now later : Time) (o : Option keys.State) (token : Text)
      → o ≡ a.keys
      → is_loaded (check_token fl d keys a now later o token).0.keys ≡ is_loaded a.keys
  unfolding check_token refuse_not_ready
  check_token-loaded a now later none token e = refl
  check_token-loaded a now later (some s) token e =
      let (s', v) = verify fl d keys a.verifier now s token in
      identify-loaded (record a { keys = some s' }) later v ∙ ap is_loaded e

  pub authenticate-loaded :
      (a : Authenticator keys.State) (now later : Time) (sources : Headers)
      → is_loaded (authenticate fl d keys a now later sources).0.keys ≡ is_loaded a.keys
  unfolding authenticate refuse
  authenticate-loaded a now later sources = elim (Option-cases (bearer_token sources)) [
    | inl e ↦ rw (e, authenticate)
    | inr (token, e) ↦ rw (e, authenticate) (check_token-loaded a now later a.keys token refl)
  ]
