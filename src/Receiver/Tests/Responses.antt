-- ===== src/Receiver/Tests/Responses.antt =====
-- The theorems about the receiver's answers at concrete inputs.
use otlp_collector_oidc.Prelude.{
  ℕ, ◌+◌, bytes, ◌==◌, [], ◌∷◌, none, some, false, true, ◌≡◌, refl, has_prefix,
}
use otlp_collector_oidc.Prelude.Result.{ok}
use otlp_collector_oidc.Auth.Reason.{err_not_ready}
use otlp_collector_oidc.Receiver.Refusals.{Refusals}
use otlp_collector_oidc.Receiver.Response.{Request, Library, is_grpc, handle_error}
use otlp_collector_oidc.Receiver.Response.Retry.{IsTold, CanWrite, handle_error-IsTold}
use otlp_collector_oidc.Receiver.Http.{whole, Pipeline, Signal, export_handler, serve_http}
use otlp_collector_oidc.Receiver.Http.Accounts.{Account, serve_http-IsAccount}

abbrev refusals : Refusals
refusals = record { receiver = bytes "otlp"; counter = [] }

-- Encodings that write nothing of a status, and media types without parameters.
abbrev packages : Library
packages = record {
  parse_media_type = λ s. some s;
  marshal_proto = λ _. some [];
  marshal_json = λ _. some [];
  details_bin = λ _. none;
  takes_details = true;
}

abbrev request : Request
request = record {
  method = bytes "POST";
  path = bytes "/v1/logs";
  proto_major = 1;
  content_type = bytes "application/json";
}

can_write : CanWrite packages err_not_ready
can_write = record { proto = λ st h e. cc; json = λ st h e. cc; delay = refl }

handle_error-IsTold_example :
    IsTold
      (is_grpc request)
      (err_not_ready == err_not_ready)
      (handle_error packages refusals request err_not_ready 401).1
    × ((handle_error packages refusals request err_not_ready 401).0 ≡ refusals)
handle_error-IsTold_example = handle_error-IsTold packages refusals request err_not_ready can_write

-- Requests that are numbers of items, and a consumer that counts them.
abbrev numbers : Signal ℕ ℕ
numbers = record {
  items = λ n. n;
  consume = λ s n. (s + n, none);
  unmarshal_proto = λ _. ok 3;
  unmarshal_json = λ _. ok 2;
  marshal_proto = ok [];
  marshal_json = ok (bytes "{}");
}

abbrev pipeline : Pipeline ℕ
pipeline = record { reports = []; consumer = 0 }

not_grpc : is_grpc request ≡ false
unfolding is_grpc has_prefix bytes
not_grpc = refl

serve_http-IsAccount_example :
    Account numbers packages (bytes "/v1/logs") request (whole (bytes "{}")) refusals pipeline (
      serve_http
        (export_handler numbers packages)
        ((bytes "/v1/logs", export_handler numbers packages) ∷ [])
        refusals
        pipeline
        request
        (whole (bytes "{}")))
serve_http-IsAccount_example =
    serve_http-IsAccount numbers packages (export_handler numbers packages) (bytes "/v1/logs")
      refusals pipeline request (whole (bytes "{}")) not_grpc
