-- ===== src/Auth/Config/Laws/Complete.antt =====
-- extension/oidcclientauth/config.go: the settings that are accepted, both ways.
use otlp_collector_oidc.Prelude.{
  ℕ, ◌≡◌, ◌≢◌, ◌↔◌, inl, inr, refl, Text, bytes, [], ◌∷◌, Option, Bool, false, ==_refl, is_empty,
  arith, All-map,
}
use otlp_collector_oidc.Prelude.Int.{pos, ltb_ℤ-false_iff}
use otlp_collector_oidc.Auth.Config.{
  Config, ConfigError, error_if, is_space, is_bad_url, issuer_errors, validate,
}
use otlp_collector_oidc.Auth.Config.Laws.{
  append_nil, error_if_nil, positive_iff, any-false, collisions_nil, algorithm_errors_nil,
  algorithms-allowed_iff, IsHttpUrl, IsValid, validate-IsValid,
}

is_empty-of_ne : (s : Text) → s ≢ [] → is_empty s ≡ false
is_empty-of_ne [] n = absurd (n refl)
is_empty-of_ne (b ∷ s) n = refl

is_space-of_ne : (b : ℕ) → (b ≢ 32) × (b ≢ 9) × (b ≢ 13) × (b ≢ 10) → is_space b ≡ false
unfolding is_space
is_space-of_ne b (p, q, r, s) = ground arith

module _ (parse_url : Text → Option (Text × Text)) where
  issuer_complete :
      (url : Text) → url ≢ [] → IsHttpUrl parse_url url → issuer_errors parse_url url ≡ []
  unfolding issuer_errors is_bad_url
  issuer_complete [] n u = absurd (n refl)
  issuer_complete (b ∷ url) n u = elim u.is_http [
    | inl e ↦ rw (
      u.parsed,
      e,
      issuer_errors,
      is_bad_url,
      is_empty-of_ne u.host u.host_ne,
      ==_refl (bytes "http"),
    )
    | inr e ↦
        rw
          (
            u.parsed,
            e,
            issuer_errors,
            is_bad_url,
            is_empty-of_ne u.host u.host_ne,
            ==_refl (bytes "https"),
          )
          (ground arith)
  ]

  validate-of_IsValid : (c : Config) → IsValid parse_url c → validate parse_url c ≡ []
  unfolding validate
  validate-of_IsValid c v =
      let no : (b : Bool) (e : ConfigError) → b ≡ false → error_if b e ≡ [] =
        λ b e. (error_if_nil b e).1 in
      (append_nil _ _).1 (
        issuer_complete c.issuer_url v.issuer_ne v.issuer_url,
        (append_nil _ _).1 (
          no _ _ (is_empty-of_ne _ v.audience_ne),
          (append_nil _ _).1 (
            no _ _ ((positive_iff _).1 v.retry_positive),
            (append_nil _ _).1 (
              no _ _ ((positive_iff _).1 v.refresh_positive),
              (append_nil _ _).1 (
                no _ _ (
                    rw (is_empty-of_ne _ v.scope_ne) (
                      (any-false is_space c.required_scope).1
                        (All-map _ _ _ is_space-of_ne v.scope_token))),
                (append_nil _ _).1 (
                  no _ _ (
                      (any-false is_empty c.required_claims).1
                        (All-map _ _ _ is_empty-of_ne v.claims_ne)),
                  (append_nil _ _).1 (
                    no _ _ (
                        (any-false _ c.claim_attributes).1 (
                          All-map _ _ _
                            (λ (k, a) (p, q). rw (is_empty-of_ne k p, is_empty-of_ne a q))
                            v.mapped_ne)),
                    (append_nil _ _).1 (
                      no _ _ (
                          (any-false _ c.resource_attributes).1
                            (All-map _ _ _ (λ (k, w) p. is_empty-of_ne k p) v.static_ne)),
                      (append_nil _ _).1 (
                        (collisions_nil c.claim_attributes c.resource_attributes).1 v.apart,
                        (append_nil _ _).1 (
                          no _ _ ((ltb_ℤ-false_iff c.clock_skew (pos 0)).1 v.skew),
                          (append_nil _ _).1 (
                            no _ _ ((positive_iff _).1 v.log_positive),
                            (algorithm_errors_nil c.algorithms).1 (
                                (algorithms-allowed_iff c.algorithms c.algorithms).1
                                  (v.algorithms_ne, v.supported, refl)),
                          ),
                        ),
                      ),
                    ),
                  ),
                ),
              ),
            ),
          ),
        ),
      )

  -- `Validate` finds no error exactly in settings that the authenticator can enforce: an http or
  -- https issuer with a host, an audience, positive intervals, a skew that is not negative, a required
  -- scope that is one token, names that are not empty, no attribute that both a claim and the
  -- deployment set, and an allowlist, not empty, of the six algorithms.
  pub validate-nil_iff : (c : Config) → (validate parse_url c ≡ []) ↔ IsValid parse_url c
  validate-nil_iff c = (validate-IsValid parse_url c, validate-of_IsValid c)
