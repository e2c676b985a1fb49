-- ===== src/Receiver/Codes.antt =====
-- receiver/otlpsingleport/errors.go: gRPC codes and HTTP statuses for each other.
pub mod Laws
use otlp_collector_oidc.Prelude.{ℕ, if◌then◌else◌, Bool, ◌||◌, eqb}

-- codes.Code; `other` is a number that has no name.
pub data Code : Type 0 where
  ok canceled unknown invalid_argument deadline_exceeded not_found already_exists : Code
  permission_denied resource_exhausted failed_precondition aborted out_of_range : Code
  unimplemented internal unavailable data_loss unauthenticated : Code
  other : ℕ → Code

unfoldable pub http_status_from_status : Code → ℕ
http_status_from_status canceled = 503
http_status_from_status deadline_exceeded = 503
http_status_from_status aborted = 503
http_status_from_status out_of_range = 503
http_status_from_status unavailable = 503
http_status_from_status data_loss = 503
http_status_from_status resource_exhausted = 429
http_status_from_status invalid_argument = 400
http_status_from_status unauthenticated = 401
http_status_from_status permission_denied = 403
http_status_from_status unimplemented = 404
http_status_from_status _ = 500

-- The code of `statusFromHTTP`.
unfoldable pub status_from_http : ℕ → Code
status_from_http s =
    if eqb s 400
    then invalid_argument
    else if eqb s 401
    then unauthenticated
    else if eqb s 403
    then permission_denied
    else if eqb s 404
    then unimplemented
    else if eqb s 429 || eqb s 413
    then resource_exhausted
    else if eqb s 502 || eqb s 503 || eqb s 504
    then unavailable
    else unknown

-- `int(c)`.
unfoldable pub code_number : Code → ℕ
code_number ok = 0
code_number canceled = 1
code_number unknown = 2
code_number invalid_argument = 3
code_number deadline_exceeded = 4
code_number not_found = 5
code_number already_exists = 6
code_number permission_denied = 7
code_number resource_exhausted = 8
code_number failed_precondition = 9
code_number aborted = 10
code_number out_of_range = 11
code_number unimplemented = 12
code_number internal = 13
code_number unavailable = 14
code_number data_loss = 15
code_number unauthenticated = 16
code_number (other n) = n
