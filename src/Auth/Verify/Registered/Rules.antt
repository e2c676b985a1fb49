-- ===== src/Auth/Verify/Registered/Rules.antt =====
-- The rules for the registered claims as inequalities, and the order in which they are applied.
use otlp_collector_oidc.Prelude.{
  ◌≡◌, ◌≢◌, ◌↔◌, ◌⊎◌, inl, inr, refl, Text, bytes, ==_iff, ==_refl, sym, [], Option, none, some,
  Bool, true, lookup, arith, if◌then◌else◌, not,
}
use otlp_collector_oidc.Prelude.Int.{◌<ℤ◌, ◌≤ℤ◌}
use otlp_collector_oidc.Prelude.Time.{Time, add, before_iff, before_false_iff, after_false_iff}
use otlp_collector_oidc.Auth.Reason.{Fault, issuer, audience}
use otlp_collector_oidc.Auth.Float.{Float64}
use otlp_collector_oidc.Auth.Claims.{
  Value, Values, nil, cons, string, array, null, Claims, as_string, has_string,
}
use otlp_collector_oidc.Auth.Verify.Registered.{
  Verifier, DateClaim, absent, not_a_number, date, or_empty, audience_contains, exp_fault,
  nbf_fault, iat_fault, numeric_date, registered, ◌orelse◌,
}

module _ {F : Type 0} where
  -- The string is an element of the array.
  abbrev pub Lists : Values F → Text → Type 0
  Lists nil s = ⊥
  Lists (cons v vs) s = (v ≡ string s) ⊎ Lists vs s

  has_string_sound : (vs : Values F) (s : Text) → has_string vs s ≡ true → Lists vs s
  unfolding has_string
  has_string_sound nil s h = cc
  has_string_sound (cons (string t) vs) s h = ground (arith, ==_iff t s, has_string_sound vs s)
  has_string_sound (cons v vs) s h = inr (has_string_sound vs s h)

  has_string_complete : (vs : Values F) (s : Text) → Lists vs s → has_string vs s ≡ true
  unfolding has_string
  has_string_complete nil s h = absurd h
  has_string_complete (cons (string t) vs) s h =
      ground (arith, ==_iff t s, has_string_complete vs s)
  has_string_complete (cons null vs) s h = ground (arith, has_string_complete vs s)
  has_string_complete (cons _ vs) s h = ground (arith, has_string_complete vs s)

  -- The audience is the claim itself or an element of it.
  abbrev pub Names : Option (Value F) → Text → Type 0
  Names aud wanted =
      (aud ≡ some (string wanted)) ⊎ ((vs : Values F) × (aud ≡ some (array vs)) × Lists vs wanted)

  pub audience_contains_sound :
      (aud : Option (Value F)) (wanted : Text)
      → audience_contains aud wanted ≡ true
      → Names aud wanted
  unfolding audience_contains
  audience_contains_sound (some (string a)) wanted h = inl (ground (arith, ==_iff a wanted))
  audience_contains_sound (some (array vs)) wanted h = inr (vs, refl, has_string_sound vs wanted h)
  audience_contains_sound none wanted h = cc
  audience_contains_sound (some _) wanted h = cc

  pub audience_contains_complete :
      (aud : Option (Value F)) (wanted : Text)
      → Names aud wanted
      → audience_contains aud wanted ≡ true
  unfolding audience_contains
  audience_contains_complete aud wanted (inl e) = rw (e, audience_contains) (==_refl wanted)
  audience_contains_complete aud wanted (inr (vs, e, l)) =
      rw (e, audience_contains) (has_string_complete vs wanted l)

  pub issuer_claim :
      (o : Option (Value F)) (iss : Text)
      → iss ≢ []
      → or_empty (as_string o) ≡ iss
      → o ≡ some (string iss)
  issuer_claim none iss n e = absurd (n (sym e))
  issuer_claim (some (string s)) iss n e = rw e
  issuer_claim (some _) iss n e = absurd (n (sym e))

abbrev pub IsIssuer : {F : Type 0} → Verifier → Option (Value F) → Type 0
IsIssuer v iss = iss ≡ some (string v.issuer)

abbrev pub IsUnexpired : Verifier → Time → DateClaim → Type 0
IsUnexpired v now d = (t : Time) × (d ≡ date t) × (now <ℤ add t v.skew)

abbrev pub IsNotAhead : Verifier → Time → DateClaim → Type 0
IsNotAhead v now d = (d ≡ absent) ⊎ ((t : Time) × (d ≡ date t) × (t ≤ℤ add now v.skew))

pub exp_rule :
    (v : Verifier) (now : Time) (d : DateClaim) → (exp_fault v now d ≡ none) ↔ IsUnexpired v now d
unfolding exp_fault
exp_rule v now absent = (λ h. cc, λ (t, e, _). cc)
exp_rule v now not_a_number = (λ h. cc, λ (t, e, _). cc)
exp_rule v now (date t) = (
  λ h. (t, refl, ground (arith, before_iff now (add t v.skew))),
  λ (u, e, l). ground (arith, before_iff now (add u v.skew)),
)

pub nbf_rule :
    (v : Verifier) (now : Time) (d : DateClaim) → (nbf_fault v now d ≡ none) ↔ IsNotAhead v now d
unfolding nbf_fault
nbf_rule v now absent = (λ h. inl refl, λ h. refl)
nbf_rule v now not_a_number = (λ h. cc, λ h. ground arith)
nbf_rule v now (date t) = (
  λ h. inr (t, refl, ground (arith, before_false_iff (add now v.skew) t)),
  λ h. ground (arith, before_false_iff (add now v.skew) t),
)

pub iat_rule :
    (v : Verifier) (now : Time) (d : DateClaim) → (iat_fault v now d ≡ none) ↔ IsNotAhead v now d
unfolding iat_fault
iat_rule v now absent = (λ h. inl refl, λ h. refl)
iat_rule v now not_a_number = (λ h. cc, λ h. ground arith)
iat_rule v now (date t) = (
  λ h. inr (t, refl, ground (arith, after_false_iff t (add now v.skew))),
  λ h. ground (arith, after_false_iff t (add now v.skew)),
)

pub fault_unless : (b : Bool) (f : Fault) → (if not b then some f else none) ≡ none → b ≡ true
fault_unless b f h = ground arith

pub orelse_none_iff : (f g : Option Fault) → ((f orelse g) ≡ none) ↔ ((f ≡ none) × (g ≡ none))
orelse_none_iff none g = (λ h. (refl, h), λ (_, h). h)
orelse_none_iff (some f) g = (λ h. cc, λ (h, _). h)

module _ (fl : Float64) where
  open fl use {F}

  -- The registered claims as the token profile states them. The bounds of the skew are inclusive
  -- for nbf and iat, and exclusive for exp.
  pub record IsCurrent (v : Verifier) (now : Time) (c : Claims F) : Type 0 where
    pub iss : IsIssuer v (lookup (bytes "iss") c)
    pub aud : Names (lookup (bytes "aud") c) v.audience
    pub exp : IsUnexpired v now (numeric_date fl c (bytes "exp"))
    pub nbf : IsNotAhead v now (numeric_date fl c (bytes "nbf"))
    pub iat : IsNotAhead v now (numeric_date fl c (bytes "iat"))

  registered_sound :
      (v : Verifier) (now : Time) (c : Claims F)
      → v.issuer ≢ []
      → registered fl v now c ≡ none
      → IsCurrent v now c
  unfolding registered
  registered_sound v now c n h =
      let (h1, r1) = (orelse_none_iff _ _).0 h in
      let (h2, r2) = (orelse_none_iff _ _).0 r1 in
      let (h3, r3) = (orelse_none_iff _ _).0 r2 in
      let (h4, h5) = (orelse_none_iff _ _).0 r3 in
      record {
        iss = issuer_claim _ v.issuer n ((==_iff _ _).0 (fault_unless _ issuer h1));
        aud = audience_contains_sound _ v.audience (fault_unless _ audience h2);
        exp = (exp_rule v now _).0 h3;
        nbf = (nbf_rule v now _).0 h4;
        iat = (iat_rule v now _).0 h5;
      }

  registered_complete :
      (v : Verifier) (now : Time) (c : Claims F) → IsCurrent v now c → registered fl v now c ≡ none
  unfolding registered
  registered_complete v now c h =
      rw
        (
          h.iss,
          ==_refl v.issuer,
          audience_contains_complete _ v.audience h.aud,
          (exp_rule v now _).1 h.exp,
          (nbf_rule v now _).1 h.nbf,
        )
        ((iat_rule v now _).1 h.iat)

  -- With an issuer configured, the registered claims pass exactly when iss is that issuer, aud is
  -- the audience or an array that lists it, exp is a date that the clock has not reached with the
  -- skew added, and nbf and iat are absent or dates no further ahead than the skew.
  pub registered-none_iff :
      (v : Verifier) (now : Time) (c : Claims F)
      → v.issuer ≢ []
      → (registered fl v now c ≡ none) ↔ IsCurrent v now c
  registered-none_iff v now c n = (registered_sound v now c n, registered_complete v now c)
