-- ===== src/Auth/KeySet/Source/Laws.antt =====
-- extension/oidcclientauth: what a verified token rests on, down to the key.
use otlp_collector_oidc.Prelude.{ℕ, ◌≡◌, ◌≢◌, arith, ap, Text, [], some}
use otlp_collector_oidc.Prelude.Time.{Time}
use otlp_collector_oidc.Auth.Float.{Float64}
use otlp_collector_oidc.Auth.Claims.{Claims}
use otlp_collector_oidc.Auth.Verify.{Signed, verify, verified}
use otlp_collector_oidc.Auth.Verify.Header.{Decoders}
use otlp_collector_oidc.Auth.Verify.Registered.{Verifier}
use otlp_collector_oidc.Auth.Verify.Registered.Rules.{IsCurrent}
use otlp_collector_oidc.Auth.Verify.Laws.{verify-verified_iff}
use otlp_collector_oidc.Auth.KeySet.{KeySet, Checked, verify_signature}
use otlp_collector_oidc.Auth.KeySet.Keys.{Jose, Response}
use otlp_collector_oidc.Auth.KeySet.Laws.{IsSound, Rests, verify_signature-Rests}
use otlp_collector_oidc.Auth.KeySet.Source.{signed_of, sign, key_set_source}

signed_of-payload :
    (r : Checked) (body : Text) → signed_of r ≡ Signed.payload body → r ≡ Checked.payload body
unfolding signed_of
signed_of-payload (Checked.payload b) body h = ground arith
signed_of-payload Checked.unknown_key body h = cc
signed_of-payload Checked.bad_signature body h = cc

module _ (fl : Float64) (d : Decoders fl.F) (j : Jose) (view : d.Jws → j.Jws)
    (world : ℕ → Time × Response) where
  sign-IsSound :
      (k k' : KeySet j.Key) (n n' : ℕ) (jws : d.Jws) (body : Text)
      → IsSound j k
      → sign j view world (k, n) jws ≡ ((k', n'), Signed.payload body)
      → IsSound j k' × Rests j k' (view jws) body
  unfolding sign
  sign-IsSound k k' n n' jws body s h =
      let r = verify_signature j k (view jws) (world n).0 (world n).1 in
      let same : r.0 ≡ k' = ap (λ p. p.0.0) h in
      let paid : r.1 ≡ Checked.payload body = signed_of-payload r.1 body (ap (λ p. p.1) h) in
      verify_signature-Rests j k k' (view jws) (world n).0 (world n).1 body s (cc (same, paid))

  -- What is behind the claims of a verified token.
  pub record IsTraced (v : Verifier) (now : Time) (token : Text) (k' : KeySet j.Key)
      (c : Claims fl.F) : Type 0 where
    pub jws : d.Jws
    pub body : Text
    pub parsed : d.parse_signed token v.algorithms ≡ some jws
    pub sound : IsSound j k'
    pub rests : Rests j k' (view jws) body
    pub decoded : d.decode_claims body ≡ some c
    pub current : IsCurrent fl v now c

  -- With an issuer configured and a cache of public signing keys, a token that is verified with the
  -- key set as its key source was signed with a public key of the provider's, cached under the
  -- token's kid, and its payload is what decodes to the claims, which are current.
  pub verify-IsTraced :
      (v : Verifier) (now : Time) (k k' : KeySet j.Key) (n n' : ℕ) (token : Text) (c : Claims fl.F)
      → v.issuer ≢ []
      → IsSound j k
      → verify fl d (key_set_source j view world) v now (k, n) token ≡ ((k', n'), verified c)
      → IsTraced v now token k' c
  verify-IsTraced v now k k' n n' token c ne s h =
      let g =
        (verify-verified_iff fl d (key_set_source j view world) v now (k, n) (k', n') token c ne).0
          h in
      let (sound, rests) = sign-IsSound k k' n n' g.jws g.body s g.signed in
      record {
        jws = g.jws;
        body = g.body;
        parsed = g.parsed;
        sound = sound;
        rests = rests;
        decoded = g.decoded;
        current = g.current;
      }
