-- ===== src/Receiver/Response.antt =====
-- receiver/otlpsingleport/errors.go and http.go: what is written to a client.
pub mod Retry
pub mod Written
use otlp_collector_oidc.Prelude.{
  ℕ, suc, ◌/◌, Text, bytes, ◌==◌, List, [], ◌∷◌, ◌++◌, Option, none, some, if◌then◌else◌, Bool,
  true, false, ◌&&◌, ◌||◌, eqb, has_prefix, Entries, insert,
}
use otlp_collector_oidc.Prelude.Int.{ℤ, pos, negsuc}
use otlp_collector_oidc.Prelude.Time.{Duration}
use otlp_collector_oidc.Prelude.Result.{itoa}
use otlp_collector_oidc.Auth.Reason.{err_not_ready}
use otlp_collector_oidc.Receiver.Codes.{
  Code, unavailable, unauthenticated, status_from_http, code_number,
}
use otlp_collector_oidc.Receiver.Message.{encode_grpc_message}
use otlp_collector_oidc.Receiver.Refusals.{
  Refusals, count, transport_http, transport_grpc, refusal_decompress,
}

-- A detail of a status: a RetryInfo, whose delay may be missing, or another message.
pub data Detail : Type 0 where
  retry_info : Option Duration → Detail
  other_detail : Detail

-- A google.rpc.Status.
pub record Status : Type 0 where
  pub code : Code
  pub message : Text
  pub details : List Detail

-- What a ResponseWriter has been given.
pub record Response : Type 0 where
  pub headers : Entries Text
  pub status : ℕ
  pub body : Text

-- What is read of a request, less its body. `content_type` is the header's first value.
pub record Request : Type 0 where
  pub method : Text
  pub path : Text
  pub proto_major : ℕ
  pub content_type : Text

-- `encoding`, as far as a status needs it.
pub record StatusEncoding : Type 0 where
  pub media_type : Text
  pub marshal_status : Status → Option Text

-- The packages that are called: mime.ParseMediaType less the parameters, the two encodings of a
-- status, a status in base64 for a gRPC trailer, and whether WithDetails takes the delay.
pub record Library : Type 0 where
  pub parse_media_type : Text → Option Text
  pub marshal_proto : Status → Option Text
  pub marshal_json : Status → Option Text
  pub details_bin : Status → Option Text
  pub takes_details : Bool

unfoldable pub is_grpc : Request → Bool
is_grpc r = eqb r.proto_major 2 && has_prefix r.content_type (bytes "application/grpc")

-- `http.Error`.
unfoldable pub http_error : Entries Text → Text → ℕ → Response
http_error headers text status = record {
  headers =
      insert (bytes "X-Content-Type-Options") (bytes "nosniff")
        (insert (bytes "Content-Type") (bytes "text/plain; charset=utf-8") headers);
  status = status;
  body = text ++ b'\n' ∷ [];
}

unfoldable pub write_body : Entries Text → Text → ℕ → Text → Response
write_body headers media_type status body = record {
  headers = insert (bytes "Content-Type") media_type headers;
  status = status;
  body = body;
}

-- `strconv.FormatInt(int64(d/time.Second), 10)`, whose division is towards zero.
unfoldable pub seconds_text : Duration → Text
seconds_text (pos n) = itoa (n / 1000000000)
seconds_text (negsuc n) =
    if eqb (suc n / 1000000000) 0 then bytes "0" else b'-' ∷ itoa (suc n / 1000000000)

unfoldable pub retry_delay : List Detail → Option Duration
retry_delay [] = none
retry_delay (retry_info (some d) ∷ details) = some d
retry_delay (retry_info none ∷ details) = retry_delay details
retry_delay (other_detail ∷ details) = retry_delay details

retry_header : Option Duration → Entries Text → Entries Text
retry_header none headers = headers
retry_header (some d) headers = insert (bytes "Retry-After") (seconds_text d) headers

written : Entries Text → Text → ℕ → Option Text → Response
written headers media_type status none =
    http_error headers (bytes "failed to marshal error status") 500
written headers media_type status (some body) = write_body headers media_type status body

unfoldable pub write_status : Entries Text → StatusEncoding → ℕ → Status → Response
unfolding retry_header written
write_status headers enc status st =
    let delayed = retry_header (retry_delay st.details) headers in
    written (if eqb status 429 || eqb status 503 then delayed else headers) enc.media_type status
      (enc.marshal_status st)

-- `statusFromHTTP`.
unfoldable pub status_of : Text → ℕ → Status
status_of text status = record { code = status_from_http status; message = text; details = [] }

not_ready_retry_after : Duration
not_ready_retry_after = pos 5000000000

module _ (lib : Library) where
  unfoldable pub encoding_of : Option Text → Option StatusEncoding
  encoding_of none = none
  encoding_of (some media_type) =
      if bytes "application/x-protobuf" == media_type
      then some (record {
        media_type = bytes "application/x-protobuf";
        marshal_status = lib.marshal_proto;
      })
      else if bytes "application/json" == media_type
      then some
          (record { media_type = bytes "application/json"; marshal_status = lib.marshal_json })
      else none

  -- `lookupEncoding`, as far as a status needs it.
  unfoldable pub status_encoding : Text → Option StatusEncoding
  unfolding encoding_of
  status_encoding content_type = encoding_of (lib.parse_media_type content_type)

  with_bin : Option Text → Entries Text → Entries Text
  with_bin none headers = headers
  with_bin (some bin) headers = insert (bytes "Grpc-Status-Details-Bin") bin headers

  detailed : Status → List Detail → Entries Text → Entries Text
  unfolding with_bin
  detailed st [] headers = headers
  detailed st (d ∷ details) headers = with_bin (lib.details_bin st) headers

  unfoldable pub write_grpc_status : Status → Response
  unfolding detailed
  write_grpc_status st = record {
    headers = detailed st st.details (
        insert (bytes "Grpc-Message") (encode_grpc_message st.message) (
          insert (bytes "Grpc-Status") (itoa (code_number st.code))
            (insert (bytes "Content-Type") (bytes "application/grpc") [])));
    status = 200;
    body = [];
  }

  handed : Entries Text → Text → ℕ → Option StatusEncoding → Response
  handed headers msg status none = http_error headers msg status
  handed headers msg status (some enc) = write_status headers enc status (status_of msg status)

  unfoldable pub write_handed_status : Entries Text → Request → Text → ℕ → Response
  unfolding handed
  write_handed_status headers r msg status =
      handed headers msg status (status_encoding r.content_type)

  unfoldable pub write_unauthenticated : Request → Text → Response
  write_unauthenticated r msg =
      if is_grpc r
      then write_grpc_status (record { code = unauthenticated; message = msg; details = [] })
      else write_handed_status (insert (bytes "WWW-Authenticate") (bytes "Bearer") []) r msg 401

  not_ready_status : Text → Status
  unfolding not_ready_retry_after
  not_ready_status msg = record {
    code = unavailable;
    message = msg;
    details = if lib.takes_details then retry_info (some not_ready_retry_after) ∷ [] else [];
  }

  not_ready_body : Text → Option StatusEncoding → Response
  unfolding not_ready_status not_ready_retry_after
  not_ready_body msg none =
      http_error (insert (bytes "Retry-After") (seconds_text not_ready_retry_after) []) msg 503
  not_ready_body msg (some enc) = write_status [] enc 503 (not_ready_status msg)

  unfoldable pub write_not_ready : Request → Text → Response
  unfolding not_ready_status not_ready_body
  write_not_ready r msg =
      if is_grpc r
      then write_grpc_status (not_ready_status msg)
      else not_ready_body msg (status_encoding r.content_type)

  -- The handler of `newErrorHandler`.
  unfoldable pub handle_error : Refusals → Request → Text → ℕ → Refusals × Response
  handle_error refused r msg status =
      if eqb status 401
      then (
        refused,
        if msg == err_not_ready then write_not_ready r msg else write_unauthenticated r msg,
      )
      else (
        count refused (if is_grpc r then transport_grpc else transport_http) refusal_decompress,
        write_handed_status [] r msg status,
      )
