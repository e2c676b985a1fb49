-- ===== src/Auth/Tests/Requests.antt =====
-- The theorems about extension/oidcclientauth/extension.go and bearer.go at concrete requests.
use otlp_collector_oidc.Prelude.{
  ◌≡◌, ◌≢◌, ◌↔◌, refl, [], ◌∷◌, none, some, bytes, lookup, fields, contains, ◌==◌, equal_fold, cut,
  trim_space, split,
}
use otlp_collector_oidc.Prelude.Int.{pos, ◌*ℤ◌, ◌+ℤ◌, ◌-ℤ◌}
use otlp_collector_oidc.Prelude.Time.{second, before, after, unix}
use otlp_collector_oidc.Auth.Reason.{err_not_ready}
use otlp_collector_oidc.Auth.Bearer.{Headers, bearer_token}
use otlp_collector_oidc.Auth.Claims.{authorize, grants_scope, non_empty}
use otlp_collector_oidc.Auth.Verify.{verify}
use otlp_collector_oidc.Auth.Verify.Header.{header_algorithm}
use otlp_collector_oidc.Auth.Verify.Registered.{
  registered, audience_contains, numeric_date, time_of,
}
use otlp_collector_oidc.Auth.Rejections.{new_rejections}
use otlp_collector_oidc.Auth.AuthData.{new_auth_data}
use otlp_collector_oidc.Auth.Authenticator.{
  Authenticator, authenticated, answer_error, authenticate,
}
use otlp_collector_oidc.Auth.Authenticator.Laws.{
  IsAdmitted, recorded, authenticate-IsAdmitted, authenticate-recorded, authenticate-not_ready_iff,
}
use otlp_collector_oidc.Auth.Tests.{
  floats, decoders, source, verifier, authorizer, claims, headers, claim_attributes,
  resource_attributes, issuer_ne,
}

abbrev loading : Authenticator source.State
loading = record {
  keys = none;
  verifier = verifier;
  authorizer = authorizer;
  rejections = new_rejections (pos 10);
  claim_attributes = claim_attributes;
  resource_attributes = resource_attributes;
}

abbrev ready : Authenticator source.State
ready = record loading { keys = some 7 }

admitted : authenticate floats decoders source ready (pos 999 *ℤ second) (pos 0) headers ≡ (
  record loading { keys = some 8 },
  authenticated (new_auth_data claims claim_attributes resource_attributes),
)
unfolding authenticate bearer_token equal_fold ◌==◌ bytes cut trim_space verify header_algorithm
    split contains registered lookup audience_contains numeric_date time_of before after ◌*ℤ◌ ◌+ℤ◌
    ◌-ℤ◌ unix authorize grants_scope fields non_empty
admitted = refl

authenticate-IsAdmitted_example :
    IsAdmitted floats decoders source ready
      (pos 999 *ℤ second)
      headers
      (record loading { keys = some 8 })
      (new_auth_data claims claim_attributes resource_attributes)
authenticate-IsAdmitted_example =
    authenticate-IsAdmitted floats decoders source ready (record loading { keys = some 8 })
      (pos 999 *ℤ second) (pos 0) headers
      (new_auth_data claims claim_attributes resource_attributes) issuer_ne admitted

authenticate-recorded_example :
    let (a', answer) = authenticate floats decoders source ready (pos 0) (pos 0) [] in
    a'.rejections ≡ recorded floats decoders source ready.rejections (pos 0) answer
authenticate-recorded_example =
    authenticate-recorded floats decoders source ready (pos 0) (pos 0) []

authenticate-not_ready_iff_example :
    (answer_error (authenticate floats decoders source loading (pos 0) (pos 0) headers).1
      ≡ some err_not_ready)
    ↔ ((bearer_token headers ≢ none) × (loading.keys ≡ none))
authenticate-not_ready_iff_example =
    authenticate-not_ready_iff floats decoders source loading (pos 0) (pos 0) headers

abbrev walked : Headers
walked =
    (bytes "Authorization", bytes "Bearer RS256.p.s" ∷ []) ∷ (bytes "Host", bytes "a" ∷ []) ∷ []
