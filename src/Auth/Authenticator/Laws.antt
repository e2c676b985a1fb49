-- ===== src/Auth/Authenticator/Laws.antt =====
-- Who is let through, when the answer is that the provider is not ready, and what is recorded.
use otlp_collector_oidc.Prelude.{
  ◌≡◌, ◌≢◌, ◌↔◌, refl, ap, Text, bytes, [], none, some, true, arith, inl, inr, lookup, Option-cases,
  All,
}
use otlp_collector_oidc.Prelude.Time.{Time}
use otlp_collector_oidc.Auth.Reason.{
  Reason, no_token_reason, invalid_token_reason, missing_scope_reason, missing_claim_reason,
  not_ready_reason, Rejection, err_not_ready, error, no_token,
}
use otlp_collector_oidc.Auth.Bearer.{Headers, bearer_token}
use otlp_collector_oidc.Auth.Float.{Float64}
use otlp_collector_oidc.Auth.Claims.{Claims, authorize, grants_scope}
use otlp_collector_oidc.Auth.Claims.Laws.{IsPresent, authorize-none_iff}
use otlp_collector_oidc.Auth.Verify.{KeySource, Verified, rejected, verified, verify}
use otlp_collector_oidc.Auth.Verify.Reasons.{verify-reason}
use otlp_collector_oidc.Auth.Claims.Reasons.{authorize-reason}
use otlp_collector_oidc.Auth.Verify.Header.{Decoders}
use otlp_collector_oidc.Auth.Verify.Laws.{IsGenuine, verify-verified_iff}
use otlp_collector_oidc.Auth.Rejections.{Rejections, record_refusal}
use otlp_collector_oidc.Auth.AuthData.{AuthData, new_auth_data}
use otlp_collector_oidc.Auth.Authenticator.{
  Authenticator, Answer, authenticated, not_ready, refused, answer_error, refuse, refuse_not_ready,
  identify, check_token, authenticate,
}

-- The text of a rejection that is not the not-ready error's reason is not its text.
error_text-not_ready :
    (why : Reason) (detail : Text)
    → why ≢ not_ready_reason
    → error (record { reason = why; detail = detail }) ≢ err_not_ready
unfolding error err_not_ready bytes
error_text-not_ready no_token_reason detail n = λ h. ground arith
error_text-not_ready invalid_token_reason detail n = λ h. ground arith
error_text-not_ready missing_scope_reason detail n = λ h. ground arith
error_text-not_ready missing_claim_reason detail n = λ h. ground arith
error_text-not_ready not_ready_reason detail n = absurd (n refl)

no_token-reason : no_token.reason ≢ not_ready_reason
unfolding no_token
no_token-reason = λ h. ground arith

module _ (fl : Float64) (d : Decoders fl.F) (keys : KeySource d.Jws) where
  -- What a request that is let through went through.
  pub record IsAdmitted (a : Authenticator keys.State) (now : Time) (sources : Headers)
      (a' : Authenticator keys.State) (who : AuthData) : Type 0 where
    pub token : Text
    pub before : keys.State
    pub after : keys.State
    pub claims : Claims fl.F
    pub bearer : bearer_token sources ≡ some token
    pub loaded : a.keys ≡ some before
    pub genuine : IsGenuine fl d keys a.verifier now before token after claims
    pub scope : grants_scope claims a.authorizer.scope ≡ true
    pub present : All (λ n. IsPresent (lookup n claims)) a.authorizer.claims
    pub identity : who ≡ new_auth_data claims a.claim_attributes a.resource_attributes
    pub rest : a' ≡ record a { keys = some after }

  identify_sound :
      (a a' : Authenticator keys.State) (later : Time) (v : Verified fl.F) (who : AuthData)
      → identify a later v ≡ (a', authenticated who)
      → (c : Claims fl.F) × (v ≡ verified c)
        × (authorize a.authorizer c ≡ none)
        × (a' ≡ a)
        × (who ≡ new_auth_data c a.claim_attributes a.resource_attributes)
  unfolding identify refuse
  identify_sound a a' later (rejected rej) who h = absurd (ground arith)
  identify_sound a a' later (verified c) who h = elim (Option-cases (authorize a.authorizer c)) [
    | inr (rej, e) ↦ absurd (ground arith)
    | inl e ↦ (c, refl, e, ground arith, ground arith)
  ]

  -- With an issuer configured, a request that is let through carries exactly one bearer token, the
  -- provider's keys are loaded, the token is genuine, grants the required scope and has every
  -- required claim, and the identity is made of its claims; nothing is recorded, and only the key
  -- source's state changes.
  pub authenticate-IsAdmitted :
      (a a' : Authenticator keys.State) (now later : Time) (sources : Headers) (who : AuthData)
      → a.verifier.issuer ≢ []
      → authenticate fl d keys a now later sources ≡ (a', authenticated who)
      → IsAdmitted a now sources a' who
  unfolding authenticate check_token refuse refuse_not_ready
  authenticate-IsAdmitted a a' now later sources who n h =
      elim (Option-cases (bearer_token sources)) [
        | inl e ↦ absurd (ground arith)
        | inr (token, e) ↦ elim (Option-cases a.keys) [
          | inl missing ↦ absurd (ground arith)
          | inr (s, l) ↦
              let r = verify fl d keys a.verifier now s token in
              let (c, v, ok, same, made) =
                identify_sound (record a { keys = some r.0 }) a' later r.1 who
                  (rw (e, l, authenticate, check_token) at h) in
              let (scope, present) = (authorize-none_iff a.authorizer c).0 ok in
              record {
                token = token;
                before = s;
                after = r.0;
                claims = c;
                bearer = e;
                loaded = l;
                genuine =
                    (verify-verified_iff fl d keys a.verifier now s r.0 token c n).0
                      (ap (λ x. (r.0, x)) v);
                scope = scope;
                present = present;
                identity = made;
                rest = same;
              }
        ]
      ]

  -- Why a request is refused, and in which words.
  abbrev pub recorded : Rejections → Time → Answer → Rejections
  recorded r later (authenticated who) = r
  recorded r later not_ready = record_refusal r later not_ready_reason err_not_ready
  recorded r later (refused rej) = record_refusal r later rej.reason (error rej)

  identify-recorded :
      (a : Authenticator keys.State) (later : Time) (v : Verified fl.F)
      → let (a', answer) = identify a later v in a'.rejections ≡ recorded a.rejections later answer
  unfolding identify refuse
  identify-recorded a later (rejected rej) = refl
  identify-recorded a later (verified c) = elim (Option-cases (authorize a.authorizer c)) [
    | inl e ↦ rw (e, identify)
    | inr (rej, e) ↦ rw (e, identify)
  ]

  -- Every refused request, and no other, is recorded: once, under the refusal's reason and with the
  -- text that the client is given.
  pub authenticate-recorded :
      (a : Authenticator keys.State) (now later : Time) (sources : Headers)
      → let (a', answer) = authenticate fl d keys a now later sources in
        a'.rejections ≡ recorded a.rejections later answer
  unfolding authenticate check_token refuse refuse_not_ready
  authenticate-recorded a now later sources = elim (Option-cases (bearer_token sources)) [
    | inl e ↦ rw (e, authenticate)
    | inr (token, e) ↦ elim (Option-cases a.keys) [
      | inl l ↦ rw (e, l, authenticate, check_token)
      | inr (s, l) ↦
          let r = verify fl d keys a.verifier now s token in
          rw (e, l, authenticate, check_token)
            (identify-recorded (record a { keys = some r.0 }) later r.1)
    ]
  ]

  refused-not_ready :
      (rej : Rejection)
      → rej.reason ≢ not_ready_reason
      → answer_error (refused rej) ≢ some err_not_ready
  unfolding answer_error
  refused-not_ready rej n = λ h. error_text-not_ready rej.reason rej.detail n (ground arith)

  identify-not_ready :
      (a : Authenticator keys.State) (later : Time) (v : Verified fl.F)
      → ((rej : Rejection) → v ≡ rejected rej → rej.reason ≢ not_ready_reason)
      → answer_error (identify a later v).1 ≢ some err_not_ready
  unfolding identify refuse answer_error
  identify-not_ready a later (rejected rej) n = refused-not_ready rej (n rej refl)
  identify-not_ready a later (verified c) n = elim (Option-cases (authorize a.authorizer c)) [
    | inl e ↦ rw (e, identify, answer_error) (λ h. cc)
    | inr (rej, e) ↦
        rw (e, identify) (refused-not_ready rej (authorize-reason a.authorizer c rej e))
  ]

  -- The error's text is the not-ready one, by which the receiver answers 503 and not 401, exactly
  -- for a request that carries a token while no keys are loaded.
  pub authenticate-not_ready_iff :
      (a : Authenticator keys.State) (now later : Time) (sources : Headers)
      → (answer_error (authenticate fl d keys a now later sources).1 ≡ some err_not_ready)
        ↔ ((bearer_token sources ≢ none) × (a.keys ≡ none))
  unfolding authenticate check_token refuse refuse_not_ready answer_error
  authenticate-not_ready_iff a now later sources = elim (Option-cases (bearer_token sources)) [
    | inl e ↦ (
      λ h. absurd (refused-not_ready no_token no_token-reason (rw (e, authenticate) at h)),
      λ (some_token, missing). absurd (some_token e),
    )
    | inr (token, e) ↦ elim (Option-cases a.keys) [
      | inl l ↦ (
        λ h. (λ none_token. ground arith, l),
        λ p. rw (e, l, authenticate, check_token, answer_error),
      )
      | inr (s, l) ↦
          let r = verify fl d keys a.verifier now s token in
          (
            λ h. absurd (
                identify-not_ready (record a { keys = some r.0 }) later r.1
                  (verify-reason fl d keys a.verifier now s token)
                  (rw (e, l, authenticate, check_token) at h)),
            λ (some_token, missing). ground arith,
          )
    ]
  ]
