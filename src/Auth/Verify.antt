-- ===== src/Auth/Verify.antt =====
-- extension/oidcclientauth/verify.go: from a compact JWS to verified claims.
pub mod Registered
pub mod Header
pub mod Laws
pub mod Reasons
use otlp_collector_oidc.Prelude.{
  Text, List, [], ◌∷◌, Option, none, some, contains, if◌then◌else◌, Bool, not, is_empty, split,
}
use otlp_collector_oidc.Prelude.Time.{Time}
use otlp_collector_oidc.Auth.Reason.{
  Rejection, Fault, malformed, algorithm, unknown_key, signature, invalid_token,
}
use otlp_collector_oidc.Auth.Float.{Float64}
use otlp_collector_oidc.Auth.Claims.{Claims}
use Registered.{Verifier, registered}
use Header.{Decoders, header_algorithm}

-- What `keySource.VerifySignature` returns: the payload, errUnknownKey, or another error.
pub data Signed : Type 0 where
  payload : Text → Signed
  err_unknown_key err_other : Signed

-- The source's interface `keySource`. A key source has a state, since a key set refreshes itself.
pub record KeySource (Jws : Type 0) : Type 1 where
  pub State : Type 0
  pub verify_signature : State → Jws → State × Signed

pub data Verified (F : Type 0) : Type 0 where
  rejected : Rejection → Verified F
  verified : Claims F → Verified F

module _ (fl : Float64) (d : Decoders fl.F) where
  check_registered : Verifier → Time → Claims fl.F → Verified fl.F
  check_registered v now c = elim (registered fl v now c) [
    | none ↦ verified c
    | some f ↦ rejected (invalid_token f)
  ]

  check_signed : Verifier → Time → Signed → Verified fl.F
  unfolding check_registered
  check_signed v now err_unknown_key = rejected (invalid_token unknown_key)
  check_signed v now err_other = rejected (invalid_token signature)
  check_signed v now (payload p) = elim (d.decode_claims p) [
    | none ↦ rejected (invalid_token malformed)
    | some c ↦ check_registered v now c
  ]

  module _ (keys : KeySource d.Jws) where
    check_jws : Verifier → Time → keys.State → Option d.Jws → keys.State × Verified fl.F
    unfolding check_signed
    check_jws v now s none = (s, rejected (invalid_token malformed))
    check_jws v now s (some jws) =
        let (s', r) = keys.verify_signature s jws in (s', check_signed v now r)

    -- `now` is what the clock reads when `registered` asks it.
    unfoldable pub verify : Verifier → Time → keys.State → Text → keys.State × Verified fl.F
    unfolding check_jws
    verify v now s token = elim (header_algorithm d token) [
      | none ↦ (s, rejected (invalid_token malformed))
      | some alg ↦
          if not (contains v.algorithms alg)
          then (s, rejected (invalid_token algorithm))
          else check_jws v now s (d.parse_signed token v.algorithms)
    ]
