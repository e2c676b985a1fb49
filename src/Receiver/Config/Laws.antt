-- ===== src/Receiver/Config/Laws.antt =====
-- receiver/otlpsingleport/config.go: which settings are accepted.
use otlp_collector_oidc.Prelude.{◌≡◌, ◌≢◌, ◌↔◌, refl, Text, [], ◌∷◌, none, false, is_empty, arith}
use otlp_collector_oidc.Prelude.Int.{pos, ltb_ℤ_iff, ltb_ℤ-false_iff, ◌≤ℤ◌, -ℤ_parts}
use otlp_collector_oidc.Receiver.Config.{Config, validate, max_recv_msg_size, max_int32}

is_empty-false_iff : (s : Text) → (is_empty s ≡ false) ↔ (s ≢ [])
is_empty-false_iff [] = (λ h. cc, λ h. absurd (h refl))
is_empty-false_iff (b ∷ s) = (λ h. λ q. cc, λ h. refl)

-- Settings are accepted exactly when an endpoint is set and the cap of a gRPC message, which is the
-- body cap less the frame header, is from 1 to 2147483642, so that both caps fit an int32.
pub validate-none_iff :
    (c : Config)
    → (validate c ≡ none) ↔ (
        (c.endpoint ≢ [])
        × (pos 1 ≤ℤ max_recv_msg_size c.max_request_body_size)
        × (max_recv_msg_size c.max_request_body_size ≤ℤ pos 2147483642))
unfolding validate max_recv_msg_size
validate-none_iff c =
    let size = c.max_request_body_size in
    let (to, from) = is_empty-false_iff c.endpoint in
    (
      λ h. (
        to (ground arith),
        ground
            (arith, -ℤ_parts size (pos 5), ltb_ℤ_iff (pos 5) size, ltb_ℤ-false_iff max_int32 size),
        ground
            (arith, -ℤ_parts size (pos 5), ltb_ℤ_iff (pos 5) size, ltb_ℤ-false_iff max_int32 size),
      ),
      λ (n, l, u). ground (
        arith,
        from n,
        -ℤ_parts size (pos 5),
        ltb_ℤ_iff (pos 5) size,
        ltb_ℤ-false_iff max_int32 size,
      ),
    )
