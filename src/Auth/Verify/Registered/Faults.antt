-- ===== src/Auth/Verify/Registered/Faults.antt =====
-- Which fault a payload with a broken rule gets.
use otlp_collector_oidc.Prelude.{
  ◌≡◌, ◌≢◌, ◌⊎◌, inl, inr, refl, Text, bytes, ==_refl, ==_iff, ◌==◌, [], Option, none, some, Bool,
  false, lookup, arith, if◌then◌else◌, not,
}
use otlp_collector_oidc.Prelude.Int.{◌<ℤ◌, ◌≤ℤ◌}
use otlp_collector_oidc.Prelude.Time.{Time, add, before_iff, before_false_iff, after_iff}
use otlp_collector_oidc.Auth.Reason.{
  Fault, malformed, issuer, audience, no_expiry, expired, not_yet_valid, issued_in_future,
}
use otlp_collector_oidc.Auth.Float.{Float64}
use otlp_collector_oidc.Auth.Claims.{Value, string, Claims, as_string}
use otlp_collector_oidc.Auth.Verify.Registered.{
  Verifier, DateClaim, absent, not_a_number, date, or_empty, audience_contains, exp_fault,
  nbf_fault, iat_fault, numeric_date, registered, ◌orelse◌,
}
use otlp_collector_oidc.Auth.Verify.Registered.Rules.{
  Names, IsIssuer, IsUnexpired, IsNotAhead, issuer_claim, audience_contains_sound,
  audience_contains_complete, exp_rule, nbf_rule, fault_unless,
}

-- The rule that a fault names, broken.
abbrev pub ExpFault : Verifier → Time → DateClaim → Fault → Type 0
ExpFault v now d no_expiry = d ≡ absent
ExpFault v now d malformed = d ≡ not_a_number
ExpFault v now d expired = (t : Time) × (d ≡ date t) × (add t v.skew ≤ℤ now)
ExpFault v now d _ = ⊥

abbrev pub NbfFault : Verifier → Time → DateClaim → Fault → Type 0
NbfFault v now d malformed = d ≡ not_a_number
NbfFault v now d not_yet_valid = (t : Time) × (d ≡ date t) × (add now v.skew <ℤ t)
NbfFault v now d _ = ⊥

abbrev pub IatFault : Verifier → Time → DateClaim → Fault → Type 0
IatFault v now d malformed = d ≡ not_a_number
IatFault v now d issued_in_future = (t : Time) × (d ≡ date t) × (add now v.skew <ℤ t)
IatFault v now d _ = ⊥

exp_fault_sound :
    (v : Verifier) (now : Time) (d : DateClaim) (f : Fault)
    → exp_fault v now d ≡ some f
    → ExpFault v now d f
unfolding exp_fault
exp_fault_sound v now absent no_expiry h = refl
exp_fault_sound v now not_a_number malformed h = refl
exp_fault_sound v now (date t) expired h =
    (t, refl, ground (arith, before_false_iff now (add t v.skew)))
exp_fault_sound v now d f h = ground arith

nbf_fault_sound :
    (v : Verifier) (now : Time) (d : DateClaim) (f : Fault)
    → nbf_fault v now d ≡ some f
    → NbfFault v now d f
unfolding nbf_fault
nbf_fault_sound v now not_a_number malformed h = refl
nbf_fault_sound v now (date t) not_yet_valid h =
    (t, refl, ground (arith, before_iff (add now v.skew) t))
nbf_fault_sound v now d f h = ground arith

iat_fault_sound :
    (v : Verifier) (now : Time) (d : DateClaim) (f : Fault)
    → iat_fault v now d ≡ some f
    → IatFault v now d f
unfolding iat_fault
iat_fault_sound v now not_a_number malformed h = refl
iat_fault_sound v now (date t) issued_in_future h =
    (t, refl, ground (arith, after_iff t (add now v.skew)))
iat_fault_sound v now d f h = ground arith

orelse_some :
    (f g : Option Fault) (x : Fault)
    → (f orelse g) ≡ some x
    → (f ≡ some x) ⊎ ((f ≡ none) × (g ≡ some x))
orelse_some none g x h = inr (refl, h)
orelse_some (some f) g x h = inl h

fault_if :
    (b : Bool) (f x : Fault) → (if not b then some f else none) ≡ some x → (b ≡ false) × (x ≡ f)
fault_if b f x h = ground arith

or_empty-ne :
    {F : Type 0} (o : Option (Value F)) (iss : Text)
    → (or_empty (as_string o) == iss) ≡ false
    → ¬ (o ≡ some (string iss))
or_empty-ne o iss h e = cc (rw (e) at h, ==_refl iss)

module _ (fl : Float64) where
  open fl use {F}

  -- The first rule that the payload breaks, in the order iss, aud, exp, nbf, iat, is the fault's.
  pub data FirstBroken (v : Verifier) (now : Time) (c : Claims F) (f : Fault) : Type 0 where
    wrong_iss : f ≡ issuer → ¬ IsIssuer v (lookup (bytes "iss") c) → FirstBroken v now c f
    wrong_aud :
        f ≡ audience
        → IsIssuer v (lookup (bytes "iss") c)
        → ¬ Names (lookup (bytes "aud") c) v.audience
        → FirstBroken v now c f
    bad_exp :
        IsIssuer v (lookup (bytes "iss") c)
        → Names (lookup (bytes "aud") c) v.audience
        → ExpFault v now (numeric_date fl c (bytes "exp")) f
        → FirstBroken v now c f
    bad_nbf :
        IsIssuer v (lookup (bytes "iss") c)
        → Names (lookup (bytes "aud") c) v.audience
        → IsUnexpired v now (numeric_date fl c (bytes "exp"))
        → NbfFault v now (numeric_date fl c (bytes "nbf")) f
        → FirstBroken v now c f
    bad_iat :
        IsIssuer v (lookup (bytes "iss") c)
        → Names (lookup (bytes "aud") c) v.audience
        → IsUnexpired v now (numeric_date fl c (bytes "exp"))
        → IsNotAhead v now (numeric_date fl c (bytes "nbf"))
        → IatFault v now (numeric_date fl c (bytes "iat")) f
        → FirstBroken v now c f

  -- With an issuer configured, the fault that a payload is refused for names the first rule that
  -- the payload breaks, in the order iss, aud, exp, nbf, iat: a date that is no number is found
  -- only in a payload with the right issuer and audience.
  pub registered-some :
      (v : Verifier) (now : Time) (c : Claims F) (f : Fault)
      → v.issuer ≢ []
      → registered fl v now c ≡ some f
      → FirstBroken v now c f
  unfolding registered
  registered-some v now c f n h = elim (orelse_some _ _ f h) [
    | inl e ↦
        let (off, same) = fault_if _ issuer f e in
        wrong_iss same (or_empty-ne (lookup (bytes "iss") c) v.issuer off)
    | inr (e, r) ↦
        let iss = issuer_claim _ v.issuer n ((==_iff _ _).0 (fault_unless _ issuer e)) in
        elim (orelse_some _ _ f r) [
          | inl e ↦
              let (off, same) =
                fault_if (audience_contains (lookup (bytes "aud") c) v.audience) audience f e in
              wrong_aud same iss (λ a. cc (off, audience_contains_complete _ v.audience a))
          | inr (e, r) ↦
              let aud = audience_contains_sound _ v.audience (fault_unless _ audience e) in
              elim (orelse_some _ _ f r) [
                | inl e ↦ bad_exp iss aud (exp_fault_sound v now _ f e)
                | inr (e, r) ↦
                    let exp = (exp_rule v now _).0 e in
                    elim (orelse_some _ _ f r) [
                      | inl e ↦ bad_nbf iss aud exp (nbf_fault_sound v now _ f e)
                      | inr (e, r) ↦
                          bad_iat iss aud exp ((nbf_rule v now _).0 e) (iat_fault_sound v now _ f r)
                    ]
              ]
        ]
  ]
