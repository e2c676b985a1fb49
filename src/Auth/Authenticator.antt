-- ===== src/Auth/Authenticator.antt =====
-- extension/oidcclientauth/extension.go: the answer to a request, and its record.
pub mod Laws
pub mod Loaded
use otlp_collector_oidc.Prelude.{Text, List, Option, none, some}
use otlp_collector_oidc.Prelude.Time.{Time}
use otlp_collector_oidc.Auth.Reason.{Rejection, error, no_token, not_ready_reason, err_not_ready}
use otlp_collector_oidc.Auth.Bearer.{Headers, bearer_token}
use otlp_collector_oidc.Auth.Float.{Float64}
use otlp_collector_oidc.Auth.Claims.{Claims, Authorizer, authorize}
use otlp_collector_oidc.Auth.Verify.{KeySource, Verified, rejected, verified, verify}
use otlp_collector_oidc.Auth.Verify.Header.{Decoders}
use otlp_collector_oidc.Auth.Verify.Registered.{Verifier}
use otlp_collector_oidc.Auth.Rejections.{Rejections, record_refusal}
use otlp_collector_oidc.Auth.AuthData.{AuthData, new_auth_data}

-- The fields that a request reads; `keys` is none until the provider has loaded.
pub record Authenticator (State : Type 0) : Type 0 where
  pub keys : Option State
  pub verifier : Verifier
  pub authorizer : Authorizer
  pub rejections : Rejections
  pub claim_attributes : List (Text × Text)
  pub resource_attributes : List (Text × Text)

-- A nil error with the identity that the context carries, or the error.
pub data Answer : Type 0 where
  authenticated : AuthData → Answer
  not_ready : Answer
  refused : Rejection → Answer

-- The text of the error, if there is one.
unfoldable pub answer_error : Answer → Option Text
answer_error (authenticated who) = none
answer_error not_ready = some err_not_ready
answer_error (refused rej) = some (error rej)

module _ {State : Type 0} where
  unfoldable pub refuse : Authenticator State → Time → Rejection → Authenticator State × Answer
  refuse a later rej = (
    record a { rejections = record_refusal a.rejections later rej.reason (error rej) },
    refused rej,
  )

  unfoldable pub refuse_not_ready : Authenticator State → Time → Authenticator State × Answer
  refuse_not_ready a later = (
    record a { rejections = record_refusal a.rejections later not_ready_reason err_not_ready },
    not_ready,
  )

  pub identify :
      {F : Type 0} → Authenticator State → Time → Verified F → Authenticator State × Answer
  unfolding refuse
  identify a later (rejected rej) = refuse a later rej
  identify a later (verified c) = elim (authorize a.authorizer c) [
    | none ↦ (a, authenticated (new_auth_data c a.claim_attributes a.resource_attributes))
    | some rej ↦ refuse a later rej
  ]

module _ (fl : Float64) (d : Decoders fl.F) (keys : KeySource d.Jws) where
  check_token :
      Authenticator keys.State
      → Time
      → Time
      → Option keys.State
      → Text
      → Authenticator keys.State × Answer
  unfolding refuse_not_ready identify
  check_token a now later none token = refuse_not_ready a later
  check_token a now later (some s) token =
      let (s', v) = verify fl d keys a.verifier now s token in
      identify (record a { keys = some s' }) later v

  -- `now` is what the clock reads when the token is verified, `later` when a refusal is recorded.
  unfoldable pub authenticate :
      Authenticator keys.State → Time → Time → Headers → Authenticator keys.State × Answer
  unfolding check_token refuse
  authenticate a now later sources = elim (bearer_token sources) [
    | none ↦ refuse a later no_token
    | some token ↦ check_token a now later a.keys token
  ]
