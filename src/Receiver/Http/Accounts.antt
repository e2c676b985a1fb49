-- ===== src/Receiver/Http/Accounts.antt =====
-- receiver/otlpsingleport: every request over HTTP is accounted for once, and success is what it says.
use otlp_collector_oidc.Prelude.{
  Text, bytes, ◌==◌, ==_iff, [], ◌∷◌, Option, none, some, false, eqb, lookup, ◌≡◌, ◌≢◌, ◌⊎◌, inl,
  inr, refl, sym, ap, ◌∙◌, arith, Bool-cases,
}
use otlp_collector_oidc.Prelude.Result.{Result, ok, err}
use otlp_collector_oidc.Receiver.Codes.{Code, http_status_from_status}
use otlp_collector_oidc.Receiver.Refusals.{
  Refusals, RefusalReason, count, transport_http, refusal_decode, refusal_media_type,
  refusal_body_too_large, refusal_method, refusal_unknown_path,
}
use otlp_collector_oidc.Receiver.Response.{
  Status, Response, Request, StatusEncoding, Library, http_error, is_grpc, encoding_of,
  status_encoding,
}
use otlp_collector_oidc.Receiver.Response.Written.{write_status-ne}
use otlp_collector_oidc.Receiver.Http.{
  Body, whole, too_large, broken, Pipeline, is_failed, answer, Signal, export, unmarshal,
  write_outcome, exported, read_request, encoded, export_handler, Handler, serve_http, routed,
}

http_status_ne : (c : Code) → http_status_from_status c ≢ 200
unfolding http_status_from_status
http_status_ne Code.ok h = omega (arith, h)
http_status_ne Code.canceled h = omega (arith, h)
http_status_ne Code.unknown h = omega (arith, h)
http_status_ne Code.invalid_argument h = omega (arith, h)
http_status_ne Code.deadline_exceeded h = omega (arith, h)
http_status_ne Code.not_found h = omega (arith, h)
http_status_ne Code.already_exists h = omega (arith, h)
http_status_ne Code.permission_denied h = omega (arith, h)
http_status_ne Code.resource_exhausted h = omega (arith, h)
http_status_ne Code.failed_precondition h = omega (arith, h)
http_status_ne Code.aborted h = omega (arith, h)
http_status_ne Code.out_of_range h = omega (arith, h)
http_status_ne Code.unimplemented h = omega (arith, h)
http_status_ne Code.internal h = omega (arith, h)
http_status_ne Code.unavailable h = omega (arith, h)
http_status_ne Code.data_loss h = omega (arith, h)
http_status_ne Code.unauthenticated h = omega (arith, h)
http_status_ne (Code.other n) h = omega (arith, h)

==_ne : (a b : Text) → (a == b) ≡ false → a ≢ b
==_ne a b n = λ h. absurd (ground (arith, (==_iff a b).1 h, n))

some_same : {A : Type 0} {a b : A} → some a ≡ some b → a ≡ b
some_same h = ground arith

-- The media types of a request's two encodings.
abbrev proto_type : Text
proto_type = bytes "application/x-protobuf"

abbrev json_type : Text
json_type = bytes "application/json"

module _ {Req S : Type 0} (sig : Signal Req S) (lib : Library) where
  -- What a text decodes to under the request's content type.
  abbrev pub IsRead : Request → Text → Result Req → Type 0
  IsRead r text res =
      ((lib.parse_media_type r.content_type ≡ some (bytes "application/x-protobuf"))
        × (sig.unmarshal_proto text ≡ res))
      ⊎ ((lib.parse_media_type r.content_type ≡ some (bytes "application/json"))
          × (sig.unmarshal_json text ≡ res))

  -- A POST to the handler's path.
  abbrev pub IsPosted : Text → Request → Type 0
  IsPosted path r = (path ≡ r.path) × (r.method ≡ bytes "POST")

  -- Why a request is refused.
  pub data IsRefused (path : Text) (r : Request) (body : Body) : RefusalReason → Type 0 where
    no_path : path ≢ r.path → IsRefused path r body refusal_unknown_path
    no_method : path ≡ r.path → r.method ≢ bytes "POST" → IsRefused path r body refusal_method
    no_encoding :
        IsPosted path r
        → lib.parse_media_type r.content_type ≢ some (bytes "application/x-protobuf")
        → lib.parse_media_type r.content_type ≢ some (bytes "application/json")
        → IsRefused path r body refusal_media_type
    too_long :
        (e : Text)
        → IsPosted path r
        → body ≡ too_large e
        → IsRefused path r body refusal_body_too_large
    unread : (e : Text) → IsPosted path r → body ≡ broken e → IsRefused path r body refusal_decode
    undecoded :
        (text e : Text)
        → IsPosted path r
        → body ≡ whole text
        → IsRead r text (err e)
        → IsRefused path r body refusal_decode

  -- A request that the body of a POST decodes to.
  abbrev pub IsDecoded : Text → Request → Body → Req → Type 0
  IsDecoded path r body req =
      IsPosted path r × ((text : Text) × (body ≡ whole text) × IsRead r text (ok req))

  -- Where a request went: it was refused, and counted; it had nothing in it; or its items were given
  -- to the consumer, and reported.
  pub data Account (path : Text) (r : Request) (body : Body) (refused : Refusals) (p : Pipeline S)
      : Refusals × Pipeline S × Response → Type 0 where
    refused_as :
        (why : RefusalReason) (out : Response)
        → IsRefused path r body why
        → out.status ≢ 200
        → Account path r body refused p (count refused transport_http why, p, out)
    empty :
        (req : Req) (out : Response)
        → IsDecoded path r body req
        → sig.items req ≡ 0
        → Account path r body refused p (refused, p, out)
    reported :
        (req : Req) (out : Response)
        → IsDecoded path r body req
        → sig.items req ≢ 0
        → (out.status ≢ 200) ⊎ (answer (sig.consume p.consumer req).1 ≡ none)
        → Account path r body refused p (
          refused,
          record {
            reports = (sig.items req, is_failed (sig.consume p.consumer req).1) ∷ p.reports;
            consumer = (sig.consume p.consumer req).0;
          },
          out,
        )

  other_type :
      (r : Request) (t media_type : Text)
      → lib.parse_media_type r.content_type ≡ some media_type
      → (t == media_type) ≡ false
      → lib.parse_media_type r.content_type ≢ some t
  other_type r t media_type m n h = ==_ne t media_type n (some_same (sym h ∙ m))

  write_outcome-success :
      (enc : StatusEncoding) (o : Option Status)
      → ((write_outcome sig enc o).status ≢ 200) ⊎ (o ≡ none)
  unfolding write_outcome
  write_outcome-success enc none = inr refl
  write_outcome-success enc (some st) = inl (write_status-ne enc _ st (http_status_ne st.code))

  module _ (path : Text) (r : Request) (refused : Refusals) (p : Pipeline S) where
    exported-Account :
        (text : Text) (enc : StatusEncoding) (res : Result Req)
        → IsPosted path r
        → IsRead r text res
        → Account path r (whole text) refused p (exported sig refused p enc res)
    unfolding exported export
    exported-Account text enc (err e) at is =
        refused_as refusal_decode _ (undecoded text e at refl is)
          (write_status-ne enc 400 _ (λ h. omega (arith, h)))
    exported-Account text enc (ok req) at is = elim (Bool-cases (eqb (sig.items req) 0)) [
      | inl e ↦ rw e (empty req _ (at, (text, refl, is)) (ground (arith, e)))
      | inr e ↦ rw e (
          reported req _ (at, (text, refl, is)) (λ h. ground (arith, e, h))
            (write_outcome-success enc (answer (sig.consume p.consumer req).1)))
    ]

    read_request-Account :
        (enc : StatusEncoding) (body : Body)
        → IsPosted path r
        → ((text : Text) → IsRead r text (unmarshal sig enc text))
        → Account path r body refused p (read_request sig refused p enc body)
    unfolding read_request
    read_request-Account enc (whole text) at is =
        exported-Account text enc (unmarshal sig enc text) at (is text)
    read_request-Account enc (too_large e) at is =
        refused_as refusal_body_too_large _ (too_long e at refl)
          (write_status-ne enc 413 _ (λ h. omega (arith, h)))
    read_request-Account enc (broken e) at is =
        refused_as refusal_decode _ (unread e at refl)
          (write_status-ne enc 400 _ (λ h. omega (arith, h)))

    -- The encoding that a media type has.
    encoding_of-Account :
        (o : Option Text) (body : Body)
        → lib.parse_media_type r.content_type ≡ o
        → IsPosted path r
        → Account path r body refused p (encoded sig refused p (encoding_of lib o) body)
    unfolding encoding_of encoded http_error unmarshal bytes ◌==◌
    encoding_of-Account none body m at =
        refused_as refusal_media_type _ (no_encoding at (rw m λ h. cc) (rw m λ h. cc))
          (λ h. omega (arith, h))
    encoding_of-Account (some media_type) body m at = elim (Bool-cases (proto_type == media_type)) [
      | inl e ↦ rw e (
          read_request-Account _ body at
            (λ text. inl (m ∙ ap some (sym ((==_iff proto_type media_type).0 e)), refl)))
      | inr e ↦ elim (Bool-cases (json_type == media_type)) [
        | inl f ↦
            rw (e, f)
              (read_request-Account _ body at
                (λ text. inr (m ∙ ap some (sym ((==_iff json_type media_type).0 f)), refl)))
        | inr f ↦
            rw (e, f)
              (refused_as refusal_media_type _
                (no_encoding at (other_type r proto_type media_type m e)
                  (other_type r json_type media_type m f))
                (λ h. omega (arith, h)))
      ]
    ]

  -- A request over HTTP, to a path that has this signal's handler or none, is refused and counted
  -- once, under the reason that it was refused for, or it is a POST to the path whose body decodes,
  -- by the decoder of its content type's media type, to a request that has no items, or whose items
  -- are given to the consumer and reported once. The answer is 200 only where the request has no
  -- items or the consumer's error comes to none.
  pub serve_http-IsAccount :
      (serve_grpc : Handler (Pipeline S)) (path : Text) (refused : Refusals) (p : Pipeline S)
      (r : Request) (body : Body)
      → is_grpc r ≡ false
      → Account path r body refused p
          (serve_http serve_grpc ((path, export_handler sig lib) ∷ []) refused p r body)
  unfolding serve_http routed lookup export_handler http_error status_encoding
  serve_http-IsAccount serve_grpc path refused p r body h = elim (Bool-cases (path == r.path)) [
    | inr e ↦
        rw (h, e)
          (refused_as refusal_unknown_path _ (no_path (==_ne path r.path e))
            (λ q. omega (arith, q)))
    | inl e ↦
        let at : path ≡ r.path = (==_iff path r.path).0 e in
        rw (h, e)
          (elim (Bool-cases (r.method == bytes "POST")) [
            | inl f ↦ rw f (
                encoding_of-Account path r refused p (lib.parse_media_type r.content_type) body refl
                  (at, (==_iff r.method (bytes "POST")).0 f))
            | inr f ↦ rw f (
                refused_as refusal_method _ (no_method at (==_ne r.method (bytes "POST") f))
                  (λ q. omega (arith, q)))
          ])
  ]
