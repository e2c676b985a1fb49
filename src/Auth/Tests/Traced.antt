-- ===== src/Auth/Tests/Traced.antt =====
-- A token from the request to the key, at concrete inputs.
use otlp_collector_oidc.Prelude.{
  ℕ, ◌≡◌, refl, Text, [], ◌∷◌, some, true, bytes, lookup, contains, ◌==◌, split,
}
use otlp_collector_oidc.Prelude.Int.{pos, ◌*ℤ◌, ◌+ℤ◌, ◌-ℤ◌}
use otlp_collector_oidc.Prelude.Time.{Time, second, before, after, unix, zero_time}
use otlp_collector_oidc.Auth.Verify.{verify, verified}
use otlp_collector_oidc.Auth.Verify.Header.{header_algorithm}
use otlp_collector_oidc.Auth.Verify.Registered.{
  registered, audience_contains, numeric_date, time_of,
}
use otlp_collector_oidc.Auth.KeySet.{KeySet, verify_signature, lookup_key}
use otlp_collector_oidc.Auth.KeySet.Keys.{Jose, Response, find_key, find_in}
use otlp_collector_oidc.Auth.KeySet.Source.{sign, key_set_source}
use otlp_collector_oidc.Auth.KeySet.Source.Laws.{IsTraced, verify-IsTraced}
use otlp_collector_oidc.Auth.Tests.{floats, decoders, verifier, claims, token, issuer_ne}

-- Keys that are their kid, and signatures by k1.
abbrev pub jose : Jose
jose = record {
  Key = Text;
  Jws = Text;
  key_id = λ k. k;
  key_algorithm = λ k. [];
  key_use = λ k. [];
  is_public = λ k. true;
  unmarshal_key = λ raw. some raw;
  unmarshal_keys = λ body. some (body ∷ []);
  signatures = λ jws. (bytes "k1", bytes "RS256") ∷ [];
  verify = λ jws key. some jws;
}

abbrev cache : KeySet Text
cache = record { keys = bytes "k1" ∷ []; generation = 1; miss_fetched = zero_time }

abbrev pub world : ℕ → Time × Response
world n = (pos n, Response.no_response)

traced :
    verify floats decoders
      (key_set_source jose (λ jws. jws) world)
      verifier
      (pos 999 *ℤ second)
      (cache, 0)
      token
    ≡ ((cache, 1), verified claims)
unfolding verify header_algorithm split bytes contains ◌==◌ sign verify_signature lookup_key
    find_key find_in registered audience_contains numeric_date time_of before after ◌*ℤ◌ ◌+ℤ◌ ◌-ℤ◌
    unix lookup
traced = refl

verify-IsTraced_example :
    IsTraced floats decoders jose (λ jws. jws) world verifier (pos 999 *ℤ second) token cache claims
unfolding bytes
verify-IsTraced_example =
    verify-IsTraced floats decoders jose (λ jws. jws) world verifier (pos 999 *ℤ second) cache cache
      0 1 token claims issuer_ne (record { public = refl; use_ne = λ e. cc }, tt) traced
