-- ===== src/Receiver/Codes/Laws.antt =====
-- receiver/otlpsingleport/errors.go: the two mappings one after the other.
use otlp_collector_oidc.Prelude.{◌≡◌, refl}
use otlp_collector_oidc.Receiver.Codes.{Code, http_status_from_status, status_from_http}

-- Whatever the code of a status, the code that the receiver gives for its HTTP status has the same
-- HTTP status.
pub status_from_http-http_status_from_status :
    (c : Code)
    → http_status_from_status (status_from_http (http_status_from_status c))
      ≡ http_status_from_status c
unfolding http_status_from_status status_from_http
status_from_http-http_status_from_status Code.ok = refl
status_from_http-http_status_from_status Code.canceled = refl
status_from_http-http_status_from_status Code.unknown = refl
status_from_http-http_status_from_status Code.invalid_argument = refl
status_from_http-http_status_from_status Code.deadline_exceeded = refl
status_from_http-http_status_from_status Code.not_found = refl
status_from_http-http_status_from_status Code.already_exists = refl
status_from_http-http_status_from_status Code.permission_denied = refl
status_from_http-http_status_from_status Code.resource_exhausted = refl
status_from_http-http_status_from_status Code.failed_precondition = refl
status_from_http-http_status_from_status Code.aborted = refl
status_from_http-http_status_from_status Code.out_of_range = refl
status_from_http-http_status_from_status Code.unimplemented = refl
status_from_http-http_status_from_status Code.internal = refl
status_from_http-http_status_from_status Code.unavailable = refl
status_from_http-http_status_from_status Code.data_loss = refl
status_from_http-http_status_from_status Code.unauthenticated = refl
status_from_http-http_status_from_status (Code.other n) = refl
