-- ===== src/Auth/Verify/Laws.antt =====
-- When a token is verified, and what is asked of the key source.
use otlp_collector_oidc.Prelude.{
  ◌≡◌, ◌≢◌, ◌↔◌, refl, ◌∙◌, ap, subst, Text, [], none, some, contains, arith, inl, inr, Bool-cases,
  Option-cases, Mem, contains_sound, contains_complete,
}
use otlp_collector_oidc.Prelude.Time.{Time}
use otlp_collector_oidc.Auth.Reason.{algorithm, invalid_token}
use otlp_collector_oidc.Auth.Float.{Float64}
use otlp_collector_oidc.Auth.Claims.{Claims}
use otlp_collector_oidc.Auth.Verify.{
  Signed, payload, err_unknown_key, err_other, KeySource, rejected, verified, check_registered,
  check_signed, check_jws, verify,
}
use otlp_collector_oidc.Auth.Verify.Registered.{Verifier, registered}
use otlp_collector_oidc.Auth.Verify.Registered.Rules.{IsCurrent, registered-none_iff}
use otlp_collector_oidc.Auth.Verify.Header.{Decoders, header_algorithm}

module _ (fl : Float64) (d : Decoders fl.F) (keys : KeySource d.Jws) where
  -- What a verified token went through.
  pub record IsGenuine (v : Verifier) (now : Time) (s : keys.State) (token : Text) (s' : keys.State)
      (c : Claims fl.F) : Type 0 where
    pub alg : Text
    pub jws : d.Jws
    pub body : Text
    pub header : header_algorithm d token ≡ some alg
    pub allowed : Mem alg v.algorithms
    pub parsed : d.parse_signed token v.algorithms ≡ some jws
    pub signed : keys.verify_signature s jws ≡ (s', payload body)
    pub decoded : d.decode_claims body ≡ some c
    pub current : IsCurrent fl v now c

  check_registered_sound :
      (v : Verifier) (now : Time) (c c' : Claims fl.F)
      → v.issuer ≢ []
      → check_registered fl d v now c ≡ verified c'
      → (c ≡ c') × IsCurrent fl v now c
  unfolding check_registered
  check_registered_sound v now c c' n h = elim (Option-cases (registered fl v now c)) [
    | inl e ↦ (ground arith, (registered-none_iff fl v now c n).0 e)
    | inr (f, e) ↦ absurd (ground arith)
  ]

  check_signed_sound :
      (v : Verifier) (now : Time) (r : Signed) (c : Claims fl.F)
      → v.issuer ≢ []
      → check_signed fl d v now r ≡ verified c
      → (body : Text) × (r ≡ payload body) × (d.decode_claims body ≡ some c) × IsCurrent fl v now c
  unfolding check_signed
  check_signed_sound v now err_unknown_key c n h = cc
  check_signed_sound v now err_other c n h = cc
  check_signed_sound v now (payload p) c n h = elim (Option-cases (d.decode_claims p)) [
    | inl e ↦ absurd (ground arith)
    | inr (c', e) ↦
        let (same, current) = check_registered_sound v now c' c n (rw (e, check_signed) at h) in
        (p, refl, e ∙ ap some same, subst (IsCurrent fl v now) same current)
  ]

  check_jws_sound :
      (v : Verifier) (now : Time) (s s' : keys.State) (jws : d.Jws) (c : Claims fl.F)
      → v.issuer ≢ []
      → check_jws fl d keys v now s (some jws) ≡ (s', verified c)
      → (body : Text) × (keys.verify_signature s jws ≡ (s', payload body))
        × (d.decode_claims body ≡ some c)
        × IsCurrent fl v now c
  unfolding check_jws
  check_jws_sound v now s s' jws c n h =
      let (body, r, decoded, current) =
        check_signed_sound v now (keys.verify_signature s jws).1 c n (ap (λ p. p.1) h) in
      (body, ground (arith, ap {B = keys.State} (λ p. p.0) h), decoded, current)

  verify_sound :
      (v : Verifier) (now : Time) (s s' : keys.State) (token : Text) (c : Claims fl.F)
      → v.issuer ≢ []
      → verify fl d keys v now s token ≡ (s', verified c)
      → IsGenuine v now s token s' c
  unfolding verify
  verify_sound v now s s' token c n h = elim (Option-cases (header_algorithm d token)) [
    | inl e ↦ absurd (ground arith)
    | inr (alg, e) ↦ elim (Bool-cases (contains v.algorithms alg)) [
      | inr off ↦ absurd (ground arith)
      | inl on ↦ elim (Option-cases (d.parse_signed token v.algorithms)) [
        | inl missing ↦ absurd (ground arith)
        | inr (jws, parsed) ↦
            let (body, signed, decoded, current) =
              check_jws_sound v now s s' jws c n (rw (e, on, parsed, verify) at h) in
            record {
              alg = alg;
              jws = jws;
              body = body;
              header = e;
              allowed = contains_sound _ alg on;
              parsed = parsed;
              signed = signed;
              decoded = decoded;
              current = current;
            }
      ]
    ]
  ]

  check_signed_complete :
      (v : Verifier) (now : Time) (body : Text) (c : Claims fl.F)
      → d.decode_claims body ≡ some c
      → registered fl v now c ≡ none
      → check_signed fl d v now (payload body) ≡ verified c
  unfolding check_signed check_registered
  check_signed_complete v now body c e r = rw (e, check_signed, r, check_registered)

  verify_complete :
      (v : Verifier) (now : Time) (s s' : keys.State) (token : Text) (c : Claims fl.F)
      → v.issuer ≢ []
      → IsGenuine v now s token s' c
      → verify fl d keys v now s token ≡ (s', verified c)
  unfolding verify
  verify_complete v now s s' token c n g =
      rw (g.header, verify, contains_complete _ g.alg g.allowed, g.parsed, g.signed)
        (ap (λ r. (s', r))
          (check_signed_complete v now g.body c g.decoded
            ((registered-none_iff fl v now c n).1 g.current)))

  -- With an issuer configured, a token is verified, and its claims are c, exactly when its header
  -- names an algorithm of the allowlist, it parses as a JWS, the key source verifies its signature
  -- and returns a payload that decodes to c, and the registered claims of c are current.
  pub verify-verified_iff :
      (v : Verifier) (now : Time) (s s' : keys.State) (token : Text) (c : Claims fl.F)
      → v.issuer ≢ []
      → (verify fl d keys v now s token ≡ (s', verified c)) ↔ IsGenuine v now s token s' c
  verify-verified_iff v now s s' token c n =
      (verify_sound v now s s' token c n, verify_complete v now s s' token c n)

  -- A token whose header names no algorithm of the allowlist is refused without a question to the
  -- key source, whose state is what it was.
  pub verify-algorithm :
      (v : Verifier) (now : Time) (s : keys.State) (token alg : Text)
      → header_algorithm d token ≡ some alg
      → ¬ Mem alg v.algorithms
      → verify fl d keys v now s token ≡ (s, rejected (invalid_token algorithm))
  unfolding verify
  verify-algorithm v now s token alg e m = elim (Bool-cases (contains v.algorithms alg)) [
    | inl on ↦ absurd (m (contains_sound _ alg on))
    | inr off ↦ rw (e, off, verify)
  ]
