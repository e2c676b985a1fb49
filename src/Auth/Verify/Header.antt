-- ===== src/Auth/Verify/Header.antt =====
-- extension/oidcclientauth/verify.go: what is decoded before anything is trusted.
use otlp_collector_oidc.Prelude.{
  Text, List, [], ◌∷◌, Option, none, some, if◌then◌else◌, is_empty, split,
}
use otlp_collector_oidc.Auth.Claims.{Claims}

-- The decoders that the code calls: go-jose's, encoding/base64's and encoding/json's. A `none` is
-- their error.
pub record Decoders (F : Type 0) : Type 1 where
  pub Jws : Type 0
  -- `base64.RawURLEncoding.DecodeString`.
  pub decode_base64 : Text → Option Text
  -- `json.Unmarshal` into `struct{ Alg string }`: the alg, empty where there is none.
  pub unmarshal_alg : Text → Option Text
  -- `jose.ParseSignedCompact`.
  pub parse_signed : Text → List Text → Option Jws
  -- `json.Decoder.Decode` into a `map[string]any`; `none` also for the nil map of a JSON null.
  pub decode_claims : Text → Option (Claims F)

module _ {F : Type 0} (d : Decoders F) where
  named : Text → Option Text
  named alg = if is_empty alg then none else some alg

  alg_of : List Text → Option Text
  unfolding named
  alg_of (header ∷ payload ∷ signature ∷ []) = elim (d.decode_base64 header) [
    | none ↦ none
    | some raw ↦ elim (d.unmarshal_alg raw) [ none ↦ none | some alg ↦ named alg ]
  ]
  alg_of _ = none

  unfoldable pub header_algorithm : Text → Option Text
  unfolding alg_of
  header_algorithm token = alg_of (split b'.' token)
