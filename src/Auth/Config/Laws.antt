-- ===== src/Auth/Config/Laws.antt =====
-- extension/oidcclientauth/config.go: which settings are accepted.
pub mod Complete
use otlp_collector_oidc.Prelude.{
  ℕ, ◌≡◌, ◌≢◌, ◌↔◌, ◌⊎◌, inl, inr, refl, ◌∙◌, ap, Text, bytes, List, [], ◌∷◌, ◌++◌, Option, none,
  some, Bool, true, false, ◌||◌, ◌==◌, ==_iff, is_empty, contains, contains_iff, lookup, any, Mem,
  All, All-map, Bool-cases, Option-cases, arith,
}
use otlp_collector_oidc.Prelude.Int.{pos, ◌<ℤ◌, ◌≤ℤ◌, ltb_ℤ_iff, ltb_ℤ-false_iff}
use otlp_collector_oidc.Prelude.Time.{Duration}
use otlp_collector_oidc.Auth.Config.{
  Config, ConfigError, Algorithms, refused, allowed, supported_algorithms, one_more, allow_all,
  algorithms, error_if, is_not_positive, is_space, is_bad_url, issuer_errors, collisions,
  algorithm_errors, validate,
}

-- Each of the names is one of the six.
abbrev pub AreSupported : List Text → Type 0
AreSupported names = All (λ n. Mem n supported_algorithms) names

allow_all_cases :
    (names : List Text)
    → ((e : ConfigError) × (allow_all names ≡ refused e))
      ⊎ ((out : List Text) × (allow_all names ≡ allowed out))
allow_all_cases names = go (allow_all names)
  where
    go :
        (a : Algorithms)
        → ((e : ConfigError) × (a ≡ refused e)) ⊎ ((out : List Text) × (a ≡ allowed out))
    go (refused e) = inl (e, refl)
    go (allowed out) = inr (out, refl)

allow_all-allowed :
    (names out : List Text) → allow_all names ≡ allowed out → AreSupported names × (out ≡ names)
unfolding allow_all one_more
allow_all-allowed [] out h = (tt, ground arith)
allow_all-allowed (n ∷ names) out h = elim (Bool-cases (contains supported_algorithms n)) [
  | inr off ↦ absurd (ground arith)
  | inl on ↦ elim (allow_all_cases names) [
    | inl (e, refusal) ↦ absurd (ground arith)
    | inr (rest, e) ↦
        let (supported, same) = allow_all-allowed names rest e in
        (((contains_iff supported_algorithms n).0 on, supported), ground arith)
  ]
]

allow_all-of : (names : List Text) → AreSupported names → allow_all names ≡ allowed names
unfolding allow_all one_more
allow_all-of [] h = refl
allow_all-of (n ∷ names) (m, h) =
    rw ((contains_iff supported_algorithms n).1 m, allow_all, allow_all-of names h, one_more)

-- The allowlist is accepted, and is then itself, exactly when it is not empty and each name is one
-- of the six.
pub algorithms-allowed_iff :
    (names out : List Text)
    → (algorithms names ≡ allowed out) ↔ ((names ≢ []) × AreSupported names × (out ≡ names))
unfolding algorithms
algorithms-allowed_iff [] out = (λ h. cc, λ p. absurd (p.0 refl))
algorithms-allowed_iff (n ∷ names) out = (
  λ h. let (s, e) = allow_all-allowed (n ∷ names) out h in (λ q. cc, s, e),
  λ (_, s, e). rw e (allow_all-of (n ∷ names) s),
)

append_nil : {A : Type 0} (xs ys : List A) → (xs ++ ys ≡ []) ↔ ((xs ≡ []) × (ys ≡ []))
append_nil [] ys = (λ h. (refl, h), λ p. p.1)
append_nil (x ∷ xs) ys = (λ h. cc, λ (p, q). cc)

error_if_nil : (b : Bool) (e : ConfigError) → (error_if b e ≡ []) ↔ (b ≡ false)
error_if_nil true e = (λ h. cc, λ p. cc)
error_if_nil false e = (λ h. refl, λ p. refl)

positive_iff : (d : Duration) → (is_not_positive d ≡ false) ↔ (pos 0 <ℤ d)
positive_iff d = ground (arith, ltb_ℤ_iff (pos 0) d)

any-false :
    {A : Type 0} (p : A → Bool) (xs : List A) → (any p xs ≡ false) ↔ All (λ x. p x ≡ false) xs
any-false p [] = (λ _. tt, λ _. refl)
any-false p (x ∷ xs) =
    let (to, from) = any-false p xs in
    (λ h. (ground arith, to (ground arith)), λ (a, b). rw a (from b))

collisions_nil :
    (claims resources : List (Text × Text))
    → (collisions claims resources ≡ []) ↔ All (λ (c, attr). lookup attr resources ≡ none) claims
unfolding collisions
collisions_nil [] resources = (λ h. tt, λ h. refl)
collisions_nil ((c, attr) ∷ claims) resources = elim (Option-cases (lookup attr resources)) [
  | inl e ↦
      let (to, from) = collisions_nil claims resources in
      (λ h. (e, to (rw (e, collisions) at h)), λ (_, h). rw (e, collisions) (from h))
  | inr (v, e) ↦ (λ h. absurd (ground arith), λ (f, h). absurd (ground arith))
]

algorithm_errors_nil :
    (names : List Text)
    → (algorithm_errors (algorithms names) ≡ []) ↔ (algorithms names ≡ allowed names)
unfolding algorithm_errors
algorithm_errors_nil names = go (algorithms names) refl
  where
    go :
        (a : Algorithms)
        → algorithms names ≡ a
        → (algorithm_errors (algorithms names) ≡ []) ↔ (algorithms names ≡ allowed names)
    go (refused e) h = (λ x. absurd (ground arith), λ x. absurd (ground arith))
    go (allowed out) h =
        let (_, _, same) = (algorithms-allowed_iff names out).0 h in
        (λ _. h ∙ ap allowed same, λ _. rw (h, algorithm_errors))

space_false : (b : ℕ) → is_space b ≡ false → (b ≢ 32) × (b ≢ 9) × (b ≢ 13) × (b ≢ 10)
unfolding is_space
space_false b h = (λ q. ground arith, λ q. ground arith, λ q. ground arith, λ q. ground arith)

ne_of_false : (s : Text) → is_empty s ≡ false → s ≢ []
ne_of_false [] h = cc
ne_of_false (b ∷ s) h = λ q. cc

pair_ne : (s t : Text) → (is_empty s || is_empty t) ≡ false → (s ≢ []) × (t ≢ [])
pair_ne [] t h = cc
pair_ne (b ∷ s) t h = (λ q. cc, ne_of_false t h)

scope_token :
    (s : Text)
    → (is_empty s || any is_space s) ≡ false
    → (s ≢ []) × All (λ b. (b ≢ 32) × (b ≢ 9) × (b ≢ 13) × (b ≢ 10)) s
scope_token [] h = cc
scope_token (b ∷ s) h =
    (λ q. cc, All-map _ _ (b ∷ s) space_false ((any-false is_space (b ∷ s)).0 h))

-- Settings that the authenticator can enforce.
module _ (parse_url : Text → Option (Text × Text)) where
  pub record IsHttpUrl (url : Text) : Type 0 where
    pub scheme : Text
    pub host : Text
    pub parsed : parse_url url ≡ some (scheme, host)
    pub is_http : (scheme ≡ bytes "http") ⊎ (scheme ≡ bytes "https")
    pub host_ne : host ≢ []

  pub record IsValid (c : Config) : Type 0 where
    pub issuer_ne : c.issuer_url ≢ []
    pub issuer_url : IsHttpUrl c.issuer_url
    pub audience_ne : c.audience ≢ []
    pub retry_positive : pos 0 <ℤ c.discovery_retry
    pub refresh_positive : pos 0 <ℤ c.jwks_refresh
    pub scope_ne : c.required_scope ≢ []
    pub scope_token : All (λ b. (b ≢ 32) × (b ≢ 9) × (b ≢ 13) × (b ≢ 10)) c.required_scope
    pub claims_ne : All (λ n. n ≢ []) c.required_claims
    pub mapped_ne : All (λ (claim, attr). (claim ≢ []) × (attr ≢ [])) c.claim_attributes
    pub static_ne : All (λ (key, v). key ≢ []) c.resource_attributes
    pub apart : All (λ (claim, attr). lookup attr c.resource_attributes ≡ none) c.claim_attributes
    pub skew : pos 0 ≤ℤ c.clock_skew
    pub log_positive : pos 0 <ℤ c.rejection_log_interval
    pub algorithms_ne : c.algorithms ≢ []
    pub supported : AreSupported c.algorithms

  issuer_sound : (url : Text) → issuer_errors parse_url url ≡ [] → (url ≢ []) × IsHttpUrl url
  unfolding issuer_errors is_bad_url
  issuer_sound [] h = cc
  issuer_sound (b ∷ url) h = elim (Option-cases (parse_url (b ∷ url))) [
    | inl e ↦ absurd (ground arith)
    | inr ((scheme, host), e) ↦
        let bad = (error_if_nil _ _).0 (rw (e, issuer_errors, is_bad_url) at h) in
        (
          λ q. cc,
          record {
            scheme = scheme;
            host = host;
            parsed = e;
            is_http = elim (Bool-cases (scheme == bytes "http")) [
              | inl y ↦ inl ((==_iff scheme (bytes "http")).0 y)
              | inr n ↦ inr ((==_iff scheme (bytes "https")).0 (ground arith))
            ];
            host_ne = λ q. ground arith;
          },
        )
  ]

  -- Settings that `Validate` finds no error in can be enforced: an http or https issuer with a host,
  -- an audience, positive intervals, a skew that is not negative, a required scope that is one token,
  -- names that are not empty, no attribute that both a claim and the deployment set, and an
  -- allowlist, not empty, of the six algorithms.
  pub validate-IsValid : (c : Config) → validate parse_url c ≡ [] → IsValid c
  unfolding validate
  validate-IsValid c h =
      let (e1, h) = (append_nil _ _).0 h in
      let (e2, h) = (append_nil _ _).0 h in
      let (e3, h) = (append_nil _ _).0 h in
      let (e4, h) = (append_nil _ _).0 h in
      let (e5, h) = (append_nil _ _).0 h in
      let (e6, h) = (append_nil _ _).0 h in
      let (e7, h) = (append_nil _ _).0 h in
      let (e8, h) = (append_nil _ _).0 h in
      let (e9, h) = (append_nil _ _).0 h in
      let (e10, h) = (append_nil _ _).0 h in
      let (e11, e12) = (append_nil _ _).0 h in
      let (issuer_ne, url) = issuer_sound c.issuer_url e1 in
      let (scope_ne, token) = scope_token c.required_scope ((error_if_nil _ _).0 e5) in
      let (algorithms_ne, supported, _) =
        (algorithms-allowed_iff c.algorithms c.algorithms).0
          ((algorithm_errors_nil c.algorithms).0 e12) in
      record {
        issuer_ne = issuer_ne;
        issuer_url = url;
        audience_ne = ne_of_false c.audience ((error_if_nil _ _).0 e2);
        retry_positive = (positive_iff _).0 ((error_if_nil _ _).0 e3);
        refresh_positive = (positive_iff _).0 ((error_if_nil _ _).0 e4);
        scope_ne = scope_ne;
        scope_token = token;
        claims_ne =
            All-map _ _ _ ne_of_false
              ((any-false is_empty c.required_claims).0 ((error_if_nil _ _).0 e6));
        mapped_ne =
            All-map _ _ _ (λ (k, a). pair_ne k a)
              ((any-false _ c.claim_attributes).0 ((error_if_nil _ _).0 e7));
        static_ne =
            All-map _ _ _ (λ (k, v). ne_of_false k)
              ((any-false _ c.resource_attributes).0 ((error_if_nil _ _).0 e8));
        apart = (collisions_nil c.claim_attributes c.resource_attributes).0 e9;
        skew = (ltb_ℤ-false_iff c.clock_skew (pos 0)).0 ((error_if_nil _ _).0 e10);
        log_positive = (positive_iff _).0 ((error_if_nil _ _).0 e11);
        algorithms_ne = algorithms_ne;
        supported = supported;
      }
