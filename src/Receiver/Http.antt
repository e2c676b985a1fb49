-- ===== src/Receiver/Http.antt =====
-- receiver/otlpsingleport/http.go, export.go and server.go: a request from its dispatch to its answer.
pub mod Accounts
use otlp_collector_oidc.Prelude.{
  ℕ, Text, bytes, ◌==◌, List, [], ◌∷◌, Option, none, some, if◌then◌else◌, Bool, true, false, not,
  eqb, Entries, lookup, insert,
}
use otlp_collector_oidc.Prelude.Result.{Result, ok, err}
use otlp_collector_oidc.Receiver.Codes.{Code, internal, unavailable, http_status_from_status}
use otlp_collector_oidc.Receiver.Refusals.{
  Refusals, count, transport_http, refusal_method, refusal_media_type, refusal_body_too_large,
  refusal_decode, refusal_unknown_path,
}
use otlp_collector_oidc.Receiver.Response.{
  Status, Response, Request, StatusEncoding, Library, is_grpc, http_error, write_body, write_status,
  status_of, status_encoding,
}

-- `io.ReadAll` of the body: its bytes, or the text of an error, which may be a MaxBytesError.
pub data Body : Type 0 where
  whole too_large broken : Text → Body

-- What a consumer returns: `status` is that of `status.FromError`.
pub record ConsumerError : Type 0 where
  pub status : Option Status
  pub permanent : Bool
  pub text : Text

unfoldable pub status_from_consumer_error : ConsumerError → Status
status_from_consumer_error e = elim e.status [
  | some s ↦ s
  | none ↦ record {
    code = if e.permanent then internal else unavailable;
    message = e.text;
    details = [];
  }
]

-- The pipeline behind an exporter: the reports of its ObsReport, the latest first, as the number of
-- items and whether they failed, and the consumer's own state.
pub record Pipeline (S : Type 0) : Type 0 where
  pub reports : List (ℕ × Bool)
  pub consumer : S

abbrev pub is_failed : Option ConsumerError → Bool
is_failed none = false
is_failed (some e) = true

is_ok : Code → Bool
is_ok Code.ok = true
is_ok _ = false

-- `s.Err()`, which is nil of a status that is OK.
status_error : Status → Option Status
unfolding is_ok
status_error s = if is_ok s.code then none else some s

-- The error of `Export`, of the consumer's.
unfoldable pub answer : Option ConsumerError → Option Status
unfolding status_error status_from_consumer_error
answer none = none
answer (some e) = status_error (status_from_consumer_error e)

-- The packages: pdata's count of a request's items and its encodings of requests and responses, and
-- the next consumer.
pub record Signal (Req S : Type 0) : Type 0 where
  pub items : Req → ℕ
  pub consume : S → Req → S × Option ConsumerError
  pub unmarshal_proto : Text → Result Req
  pub unmarshal_json : Text → Result Req
  pub marshal_proto : Result Text
  pub marshal_json : Result Text

module _ {Req S : Type 0} (sig : Signal Req S) where
  -- `Export` of the three exporters, whose response is always an empty one.
  unfoldable pub export : Pipeline S → Req → Pipeline S × Option Status
  unfolding answer
  export p req =
      let (s, e) = sig.consume p.consumer req in
      if eqb (sig.items req) 0
      then (p, none)
      else (record { reports = (sig.items req, is_failed e) ∷ p.reports; consumer = s }, answer e)

  -- The table's functions of an encoding.
  unmarshal : StatusEncoding → Text → Result Req
  unmarshal enc body =
      if enc.media_type == bytes "application/x-protobuf"
      then sig.unmarshal_proto body
      else sig.unmarshal_json body

  marshal : StatusEncoding → Result Text
  marshal enc =
      if enc.media_type == bytes "application/x-protobuf"
      then sig.marshal_proto
      else sig.marshal_json

  write_response : StatusEncoding → Result Text → Response
  write_response enc (err e) = write_status [] enc 500 (status_of e 500)
  write_response enc (ok out) = write_body [] enc.media_type 200 out

  write_outcome : StatusEncoding → Option Status → Response
  unfolding write_response marshal
  write_outcome enc (some st) = write_status [] enc (http_status_from_status st.code) st
  write_outcome enc none = write_response enc (marshal enc)

  -- From the decoded request on.
  unfoldable pub exported :
      Refusals → Pipeline S → StatusEncoding → Result Req → Refusals × Pipeline S × Response
  unfolding write_outcome
  exported refused p enc (err e) =
      (count refused transport_http refusal_decode, p, write_status [] enc 400 (status_of e 400))
  exported refused p enc (ok req) = let (q, st) = export p req in (refused, q, write_outcome enc st)

  -- From the body on.
  unfoldable pub read_request :
      Refusals → Pipeline S → StatusEncoding → Body → Refusals × Pipeline S × Response
  unfolding unmarshal
  read_request refused p enc (whole body) = exported refused p enc (unmarshal enc body)
  read_request refused p enc (too_large e) = (
    count refused transport_http refusal_body_too_large,
    p,
    write_status [] enc 413 (status_of e 413),
  )
  read_request refused p enc (broken e) =
      (count refused transport_http refusal_decode, p, write_status [] enc 400 (status_of e 400))

  encoded : Refusals → Pipeline S → Option StatusEncoding → Body → Refusals × Pipeline S × Response
  encoded refused p none body = (
    count refused transport_http refusal_media_type,
    p,
    http_error []
        (bytes "415 unsupported media type, supported: [application/json, application/x-protobuf]")
        415,
  )
  encoded refused p (some enc) body = read_request refused p enc body

  -- The handler of `exportHandler`.
  unfoldable pub export_handler :
      Library → Refusals → Pipeline S → Request → Body → Refusals × Pipeline S × Response
  unfolding encoded
  export_handler lib refused p r body =
      if r.method == bytes "POST"
      then encoded refused p (status_encoding lib r.content_type) body
      else (
        count refused transport_http refusal_method,
        p,
        http_error (insert (bytes "Allow") (bytes "POST") [])
            (bytes "405 method not allowed, supported: [POST]") 405,
      )

-- A handler of requests, over the state `W` of the pipelines.
abbrev pub Handler : Type 0 → Type 0
Handler W = Refusals → W → Request → Body → Refusals × W × Response

module _ {W : Type 0} where
  -- What `registerTraces`, `registerLogs` and `registerMetrics` do to the routes.
  unfoldable pub register : Text → Handler W → Entries (Handler W) → Entries (Handler W)
  register path h routes = insert path h routes

  routed : Option (Handler W) → Handler W
  routed (some h) refused w r body = h refused w r body
  routed none refused w r body = (
    count refused transport_http refusal_unknown_path,
    w,
    http_error [] (bytes "404 page not found") 404,
  )

  -- `ServeHTTP`; `serve_grpc` is the gRPC server's.
  unfoldable pub serve_http : Handler W → Entries (Handler W) → Handler W
  unfolding routed
  serve_http serve_grpc routes refused w r body =
      if is_grpc r
      then serve_grpc refused w r body
      else routed (lookup r.path routes) refused w r body

unfoldable pub traces_path : Text
traces_path = bytes "/v1/traces"

unfoldable pub logs_path : Text
logs_path = bytes "/v1/logs"

unfoldable pub metrics_path : Text
metrics_path = bytes "/v1/metrics"
