-- ===== src/Auth/Reason.antt =====
-- extension/oidcclientauth/reason.go: why a request is refused, and the text that says so.
use otlp_collector_oidc.Prelude.{Text, bytes, [], ◌++◌}

pub data Reason : Type 0 where
  no_token_reason invalid_token_reason missing_scope_reason : Reason
  missing_claim_reason not_ready_reason : Reason

unfoldable pub reason_string : Reason → Text
reason_string no_token_reason = bytes "no_token"
reason_string invalid_token_reason = bytes "invalid_token"
reason_string missing_scope_reason = bytes "missing_scope"
reason_string missing_claim_reason = bytes "missing_claim"
reason_string not_ready_reason = bytes "not_ready"

pub data Fault : Type 0 where
  malformed algorithm unknown_key signature issuer audience : Fault
  no_expiry expired not_yet_valid issued_in_future : Fault

unfoldable pub fault_string : Fault → Text
fault_string malformed = bytes "malformed"
fault_string algorithm = bytes "unsupported alg"
fault_string unknown_key = bytes "unknown kid"
fault_string signature = bytes "bad signature"
fault_string issuer = bytes "wrong iss"
fault_string audience = bytes "wrong aud"
fault_string no_expiry = bytes "missing exp"
fault_string expired = bytes "expired"
fault_string not_yet_valid = bytes "not yet valid"
fault_string issued_in_future = bytes "issued in the future"

-- `rejectionError`.
pub record Rejection : Type 0 where
  pub reason : Reason
  pub detail : Text

-- The text of `ErrNotReady`.
unfoldable pub err_not_ready : Text
unfolding bytes
err_not_ready = bytes "not ready"

error_text : Reason → Text → Text
error_text no_token_reason detail = bytes "no token"
error_text invalid_token_reason detail = bytes "invalid token: " ++ detail
error_text missing_scope_reason detail = bytes "missing scope: " ++ detail
error_text missing_claim_reason detail = bytes "missing claim: " ++ detail
error_text not_ready_reason detail = err_not_ready

-- `rejectionError.Error`.
unfoldable pub error : Rejection → Text
unfolding error_text bytes err_not_ready
error e = error_text e.reason e.detail

unfoldable pub no_token : Rejection
no_token = record { reason = no_token_reason; detail = [] }

unfoldable pub invalid_token : Fault → Rejection
invalid_token f = record { reason = invalid_token_reason; detail = fault_string f }

unfoldable pub missing_scope : Text → Rejection
missing_scope scope = record { reason = missing_scope_reason; detail = scope }

unfoldable pub missing_claim : Text → Rejection
missing_claim name = record { reason = missing_claim_reason; detail = name }
