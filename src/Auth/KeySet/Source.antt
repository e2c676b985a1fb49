-- ===== src/Auth/KeySet/Source.antt =====
-- extension/oidcclientauth/keyset.go and verify.go: the key set as the verifier's key source.
pub mod Laws
use otlp_collector_oidc.Prelude.{ℕ, suc, Text}
use otlp_collector_oidc.Prelude.Time.{Time}
use otlp_collector_oidc.Auth.Verify.{KeySource, Signed}
use otlp_collector_oidc.Auth.KeySet.{KeySet, Checked, verify_signature}
use otlp_collector_oidc.Auth.KeySet.Keys.{Jose, Response}

signed_of : Checked → Signed
signed_of (Checked.payload body) = Signed.payload body
signed_of Checked.unknown_key = Signed.err_unknown_key
signed_of Checked.bad_signature = Signed.err_other

module _ (j : Jose) {Jws : Type 0} (view : Jws → j.Jws) (world : ℕ → Time × Response) where
  unfoldable pub sign : KeySet j.Key × ℕ → Jws → (KeySet j.Key × ℕ) × Signed
  unfolding signed_of
  sign (k, n) jws =
      let (now, resp) = world n in
      let (k', r) = verify_signature j k (view jws) now resp in ((k', suc n), signed_of r)

  -- A `*keySet` where a `keySource` is asked for. `view` is the JWS that one parser made, as the key
  -- set reads it; `world` is what the clock reads, and the provider answers, in the n-th call.
  abbrev pub key_set_source : KeySource Jws
  key_set_source = record { State = KeySet j.Key × ℕ; verify_signature = sign }
