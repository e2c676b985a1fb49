-- ===== src/Auth/Verify/Reasons.antt =====
-- extension/oidcclientauth/verify.go: the reasons of the verifier's rejections.
use otlp_collector_oidc.Prelude.{
  ◌≡◌, ◌≢◌, Text, Option, none, some, contains, Option-cases, Bool-cases, arith, inl, inr,
}
use otlp_collector_oidc.Prelude.Time.{Time}
use otlp_collector_oidc.Auth.Reason.{Rejection, not_ready_reason, invalid_token}
use otlp_collector_oidc.Auth.Float.{Float64}
use otlp_collector_oidc.Auth.Verify.{
  KeySource, Signed, rejected, verify, check_jws, check_signed, check_registered,
}
use otlp_collector_oidc.Auth.Verify.Header.{Decoders, header_algorithm}
use otlp_collector_oidc.Auth.Verify.Registered.{Verifier, registered}

module _ (fl : Float64) (d : Decoders fl.F) where
  check_signed-reason :
      (v : Verifier) (now : Time) (r : Signed) (rej : Rejection)
      → check_signed fl d v now r ≡ rejected rej
      → rej.reason ≢ not_ready_reason
  unfolding check_signed check_registered invalid_token
  check_signed-reason v now Signed.err_unknown_key rej h = λ q. ground arith
  check_signed-reason v now Signed.err_other rej h = λ q. ground arith
  check_signed-reason v now (Signed.payload p) rej h = elim (Option-cases (d.decode_claims p)) [
    | inl e ↦ λ q. ground arith
    | inr (c, e) ↦ elim (Option-cases (registered fl v now c)) [
      | inl r ↦ λ q. ground arith
      | inr (f, r) ↦ λ q. ground arith
    ]
  ]

  module _ (keys : KeySource d.Jws) where
    check_jws-reason :
        (v : Verifier) (now : Time) (s : keys.State) (o : Option d.Jws) (rej : Rejection)
        → (check_jws fl d keys v now s o).1 ≡ rejected rej
        → rej.reason ≢ not_ready_reason
    unfolding check_jws invalid_token
    check_jws-reason v now s none rej h = λ q. ground arith
    check_jws-reason v now s (some jws) rej h = check_signed-reason v now _ rej h

    pub verify-reason :
        (v : Verifier) (now : Time) (s : keys.State) (token : Text) (rej : Rejection)
        → (verify fl d keys v now s token).1 ≡ rejected rej
        → rej.reason ≢ not_ready_reason
    unfolding verify invalid_token
    verify-reason v now s token rej h = elim (Option-cases (header_algorithm d token)) [
      | inl e ↦ λ q. ground arith
      | inr (alg, e) ↦ elim (Bool-cases (contains v.algorithms alg)) [
        | inr off ↦ λ q. ground arith
        | inl on ↦
            check_jws-reason v now s (d.parse_signed token v.algorithms) rej
              (rw (e, on, verify) at h)
      ]
    ]
