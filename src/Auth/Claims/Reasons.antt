-- ===== src/Auth/Claims/Reasons.antt =====
-- extension/oidcclientauth/authorize.go: the reasons of the authorizer's rejections.
use otlp_collector_oidc.Prelude.{
  ◌≡◌, ◌≢◌, Text, [], ◌∷◌, List, some, lookup, Bool-cases, arith, inl, inr,
}
use otlp_collector_oidc.Auth.Reason.{Rejection, not_ready_reason, missing_scope, missing_claim}
use otlp_collector_oidc.Auth.Claims.{
  Claims, Authorizer, authorize, first_missing, grants_scope, non_empty,
}

first_missing-reason :
    {F : Type 0} (names : List Text) (c : Claims F) (rej : Rejection)
    → first_missing names c ≡ some rej
    → rej.reason ≢ not_ready_reason
unfolding first_missing missing_claim
first_missing-reason [] c rej h = cc
first_missing-reason (n ∷ names) c rej h = elim (Bool-cases (non_empty (lookup n c))) [
  | inl e ↦ first_missing-reason names c rej (rw (e, first_missing) at h)
  | inr e ↦ λ q. ground arith
]

pub authorize-reason :
    {F : Type 0} (a : Authorizer) (c : Claims F) (rej : Rejection)
    → authorize a c ≡ some rej
    → rej.reason ≢ not_ready_reason
unfolding authorize missing_scope
authorize-reason a c rej h = elim (Bool-cases (grants_scope c a.scope)) [
  | inl e ↦ first_missing-reason a.claims c rej (rw (e, authorize) at h)
  | inr e ↦ λ q. ground arith
]
