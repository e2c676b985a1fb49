-- ===== src/Auth/Tests.antt =====
-- The theorems about extension/oidcclientauth at concrete inputs.
mod Requests
mod Settings
mod Traced
mod Provided
use otlp_collector_oidc.Prelude.{
  contains_complete, split, is_empty, ◌+◌, equal_fold, ◌==◌, cut, trim_space, fields, contains, ℕ,
  bytes, Text, ◌≡◌, ◌≢◌, ◌↔◌, refl, List, [], ◌∷◌, ◌++◌, Option, none, some, Bool, true, false,
  if◌then◌else◌, join, IsWord, All, Mem, lookup, length, inl, inr,
}
use otlp_collector_oidc.Prelude.Int.{ℤ, pos, negsuc, ltb_ℤ, ◌-ℤ◌, ◌*ℤ◌, ◌<ℤ◌}
use otlp_collector_oidc.Prelude.Time.{Time, IsSpaced, second}
use otlp_collector_oidc.Auth.Reason.{
  Reason, no_token_reason, missing_claim, algorithm, invalid_token, issuer, error, err_not_ready,
}
use otlp_collector_oidc.Auth.Bearer.{Headers, bearer_token, authorization_values}
use otlp_collector_oidc.Auth.Bearer.Laws.{bearer_token_iff, bearer_token-perm, IsBearer}
use otlp_collector_oidc.Auth.Float.{Float64}
use otlp_collector_oidc.Auth.Claims.{
  Value, string, number, array, null, Claims, Authorizer, authorize, grants_scope,
}
use otlp_collector_oidc.Auth.Claims.Laws.{
  IsPresent, FirstMissing, authorize-none_iff, authorize-missing_claim_iff, grants_scope_iff,
  strings,
}
use otlp_collector_oidc.Auth.Verify.{KeySource, Signed, verify, verified, rejected}
use otlp_collector_oidc.Auth.Verify.Header.{Decoders, header_algorithm}
use otlp_collector_oidc.Auth.Verify.Laws.{IsGenuine, verify-verified_iff, verify-algorithm}
use otlp_collector_oidc.Auth.Verify.Registered.{Verifier, registered}
use otlp_collector_oidc.Auth.Verify.Registered.Rules.{IsCurrent, registered-none_iff}
use otlp_collector_oidc.Auth.Verify.Registered.Faults.{FirstBroken, registered-some}
use otlp_collector_oidc.Auth.Rejections.{new_rejections, record_all}
use otlp_collector_oidc.Auth.Rejections.Laws.{
  counted, told, pending, occurrences, stamps, record_all-occurrences, record_all-IsSpaced,
}
use otlp_collector_oidc.Auth.AuthData.{get_attribute, new_auth_data}
use otlp_collector_oidc.Auth.AuthData.Laws.{final, mapped, ◌or_else◌, get_attribute-new_auth_data}

-- Numbers that are whole.
abbrev floats : Float64
floats = record {
  F = ℤ;
  of_ℤ = λ n. n;
  to_ℤ = λ n. n;
  minimum = λ a b. if ltb_ℤ b a then b else a;
  maximum = λ a b. if ltb_ℤ a b then b else a;
  subtract = λ a b. a -ℤ b;
  multiply = λ a b. a *ℤ b;
}

abbrev headers : Headers
headers =
    (bytes "Host", bytes "a" ∷ []) ∷ (bytes "Authorization", bytes "Bearer RS256.p.s" ∷ []) ∷ []

bearer_read : bearer_token headers ≡ some (bytes "RS256.p.s")
unfolding bearer_token bytes equal_fold ◌==◌ cut trim_space
bearer_read = refl

bearer_token_iff_example : (bearer_token headers ≡ some (bytes "RS256.p.s")) ↔ (
    (value : Text) × (authorization_values headers ≡ value ∷ [])
    × IsBearer value (bytes "RS256.p.s"))
bearer_token_iff_example = bearer_token_iff headers (bytes "RS256.p.s")

abbrev claims : Claims ℤ
claims =
    (bytes "iss", string (bytes "https://id"))
    ∷ (bytes "aud", string (bytes "app"))
    ∷ (bytes "exp", number (pos 1000))
    ∷ (bytes "scope", string (bytes "read telemetry:write"))
    ∷ (bytes "scp", array (strings (bytes "admin" ∷ [])))
    ∷ (bytes "sub", string (bytes "u1"))
    ∷ []

abbrev authorizer : Authorizer
authorizer = record { scope = bytes "telemetry:write"; claims = bytes "sub" ∷ [] }

abbrev verifier : Verifier
verifier = record {
  issuer = bytes "https://id";
  audience = bytes "app";
  algorithms = bytes "RS256" ∷ [];
  skew = pos 0;
}

issuer_ne : verifier.issuer ≢ []
unfolding bytes
issuer_ne = λ e. cc

registered-none_iff_example :
    (registered floats verifier (pos 999 *ℤ second) claims ≡ none)
    ↔ IsCurrent floats verifier (pos 999 *ℤ second) claims
registered-none_iff_example =
    registered-none_iff floats verifier (pos 999 *ℤ second) claims issuer_ne

registered-some_example : FirstBroken floats verifier (pos 999 *ℤ second) [] issuer
unfolding registered bytes ◌==◌ lookup
registered-some_example =
    registered-some floats verifier (pos 999 *ℤ second) [] issuer issuer_ne refl

-- A decoder of tokens that are the words of which it takes them to be made.
abbrev decoders : Decoders ℤ
decoders = record {
  Jws = Text;
  decode_base64 = λ s. some s;
  unmarshal_alg = λ s. some s;
  parse_signed = λ token algs. some token;
  decode_claims = λ body. some claims;
}

abbrev source : KeySource Text
source = record { State = ℕ; verify_signature = λ s jws. (s + 1, Signed.payload jws) }

abbrev token : Text
token = bytes "RS256.p.s"

verify-verified_iff_example :
    (verify floats decoders source verifier (pos 999 *ℤ second) 7 token ≡ (8, verified claims))
    ↔ IsGenuine floats decoders source verifier (pos 999 *ℤ second) 7 token 8 claims
verify-verified_iff_example =
    verify-verified_iff floats decoders source verifier (pos 999 *ℤ second) 7 8 token claims
      issuer_ne

abbrev events : List (Time × Reason × Text)
events =
    (pos 0, no_token_reason, bytes "no token")
    ∷ (pos 5, no_token_reason, bytes "no token")
    ∷ (pos 12, no_token_reason, bytes "no token")
    ∷ []

record_all-occurrences_example :
    let r = record_all (new_rejections (pos 10)) events in
    (counted no_token_reason r.counter ≡ occurrences no_token_reason events)
    × (told no_token_reason r.logger + pending no_token_reason (r.windows no_token_reason)
        ≡ occurrences no_token_reason events)
record_all-occurrences_example = record_all-occurrences no_token_reason (pos 10) events

abbrev claim_attributes : List (Text × Text)
claim_attributes = (bytes "sub", bytes "user.id") ∷ []

abbrev resource_attributes : List (Text × Text)
resource_attributes = (bytes "env", bytes "prod") ∷ []

get_attribute-new_auth_data_example :
    get_attribute (new_auth_data claims claim_attributes resource_attributes) (bytes "user.id") ≡ (
      final (bytes "user.id") resource_attributes
      or_else final (bytes "user.id") (mapped claims claim_attributes))
get_attribute-new_auth_data_example =
    get_attribute-new_auth_data claims claim_attributes resource_attributes (bytes "user.id")
