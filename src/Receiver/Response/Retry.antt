-- ===== src/Receiver/Response/Retry.antt =====
-- receiver/otlpsingleport/errors.go: what a client is told of a request that the authenticator refuses.
use otlp_collector_oidc.Prelude.{
  ℕ, Text, bytes, ◌==◌, List, [], ◌∷◌, Option, none, some, if◌then◌else◌, Bool, true, false, ◌||◌,
  eqb, Entries, insert, lookup, lookup-insert, ◌≡◌, ◌≢◌, refl, inl, inr, ==_refl, arith, Bool-cases,
  Option-cases, ◌∙◌, ap,
}
use otlp_collector_oidc.Prelude.Result.{itoa}
use otlp_collector_oidc.Auth.Reason.{err_not_ready}
use otlp_collector_oidc.Receiver.Codes.{code_number, unauthenticated}
use otlp_collector_oidc.Receiver.Refusals.{Refusals}
use otlp_collector_oidc.Receiver.Response.{
  Status, Detail, Response, Request, StatusEncoding, Library, is_grpc, http_error, write_body,
  write_status, retry_header, written, retry_delay, seconds_text, status_of, status_encoding,
  encoding_of, with_bin, detailed, write_grpc_status, handed, write_handed_status,
  write_unauthenticated, not_ready_status, not_ready_body, write_not_ready, handle_error,
  not_ready_retry_after,
}

-- The client's part of a refusal, over gRPC or HTTP: try again, or send a better token.
abbrev pub IsTold : (grpc not_ready : Bool) → Response → Type 0
IsTold true true r = (r.status ≡ 200) × (lookup (bytes "Grpc-Status") r.headers ≡ some (bytes "14"))
IsTold true false r =
    (r.status ≡ 200) × (lookup (bytes "Grpc-Status") r.headers ≡ some (bytes "16"))
IsTold false true r = (r.status ≡ 503) × (lookup (bytes "Retry-After") r.headers ≡ some (bytes "5"))
IsTold false false r =
    (r.status ≡ 401) × (lookup (bytes "WWW-Authenticate") r.headers ≡ some (bytes "Bearer"))

-- Both encodings take every status of the text, and a status takes the delay.
pub record CanWrite (lib : Library) (msg : Text) : Type 0 where
  pub proto : (st : Status) → st.message ≡ msg → lib.marshal_proto st ≢ none
  pub json : (st : Status) → st.message ≡ msg → lib.marshal_json st ≢ none
  pub delay : lib.takes_details ≡ true

lookup_same :
    (key value : Text) (headers : Entries Text) → lookup key (insert key value headers) ≡ some value
lookup_same key value headers = rw (lookup-insert key key value headers, ==_refl key)

lookup_other :
    (key other value : Text) (headers : Entries Text)
    → (key == other) ≡ false
    → lookup other (insert key value headers) ≡ lookup other headers
lookup_other key other value headers h = rw (lookup-insert key other value headers, h)

module _ (lib : Library) where
  taken :
      (known enc : StatusEncoding) (st : Status)
      → known.marshal_status st ≢ none
      → some known ≡ some enc
      → (body : Text) × (enc.marshal_status st ≡ some body)
  taken known enc st ne h =
      let same : known ≡ enc = ground arith in
      rw (← same) (elim (Option-cases (known.marshal_status st)) [
        | inl e ↦ absurd (ne e)
        | inr (body, e) ↦ (body, e)
      ])

  encoding_of-takes :
      (msg : Text) (o : Option Text) (enc : StatusEncoding) (st : Status)
      → CanWrite lib msg
      → encoding_of lib o ≡ some enc
      → st.message ≡ msg
      → (body : Text) × (enc.marshal_status st ≡ some body)
  unfolding encoding_of
  encoding_of-takes msg o enc st can h same = elim (Option-cases o) [
    | inl e ↦ absurd (ground (arith, rw (e, encoding_of) at h))
    | inr (media_type, e) ↦ elim (Bool-cases (bytes "application/x-protobuf" == media_type)) [
      | inl f ↦
          taken
            (record {
              media_type = bytes "application/x-protobuf";
              marshal_status = lib.marshal_proto;
            })
            enc st (can.proto st same) (rw (e, encoding_of, f) at h)
      | inr f ↦ elim (Bool-cases (bytes "application/json" == media_type)) [
        | inl g ↦
            taken
              (record { media_type = bytes "application/json"; marshal_status = lib.marshal_json })
              enc st (can.json st same) (rw (e, encoding_of, f, g) at h)
        | inr g ↦ absurd (ground (arith, rw (e, encoding_of, f, g) at h))
      ]
    ]
  ]

  with_bin-code :
      (o : Option Text) (headers : Entries Text)
      → lookup (bytes "Grpc-Status") (with_bin lib o headers) ≡ lookup (bytes "Grpc-Status") headers
  unfolding with_bin bytes ◌==◌
  with_bin-code none headers = refl
  with_bin-code (some bin) headers = lookup_other _ _ bin headers refl

  detailed-code :
      (st : Status) (details : List Detail) (headers : Entries Text)
      → lookup (bytes "Grpc-Status") (detailed lib st details headers)
        ≡ lookup (bytes "Grpc-Status") headers
  unfolding detailed
  detailed-code st [] headers = refl
  detailed-code st (d ∷ details) headers = with_bin-code (lib.details_bin st) headers

  write_grpc_status-code :
      (st : Status)
      → lookup (bytes "Grpc-Status") (write_grpc_status lib st).headers
        ≡ some (itoa (code_number st.code))
  unfolding write_grpc_status bytes ◌==◌
  write_grpc_status-code st =
      detailed-code st st.details _ ∙ (lookup_other _ _ _ _ refl ∙ lookup_same _ _ _)

  write_grpc_status-ok : (st : Status) → (write_grpc_status lib st).status ≡ 200
  unfolding write_grpc_status
  write_grpc_status-ok st = refl

  -- The answer with a body, of a status that the encodings take.
  written-status :
      (headers : Entries Text) (enc : StatusEncoding) (status : ℕ) (st : Status) (body : Text)
      → enc.marshal_status st ≡ some body
      → ((write_status headers enc status st).status ≡ status)
        × ((key : Text)
            → (bytes "Content-Type" == key) ≡ false
            → lookup key (write_status headers enc status st).headers
              ≡ lookup key (
                  if eqb status 429 || eqb status 503
                  then retry_header (retry_delay st.details) headers
                  else headers))
  unfolding write_status written write_body
  written-status headers enc status st body h =
      rw h (refl, λ key other. lookup_other (bytes "Content-Type") key _ _ other)

  handed-IsTold :
      (r : Request) (msg : Text) (o : Option StatusEncoding)
      → CanWrite lib msg
      → status_encoding lib r.content_type ≡ o
      → IsTold false false
          (handed lib (insert (bytes "WWW-Authenticate") (bytes "Bearer") []) msg 401 o)
  unfolding handed http_error bytes ◌==◌ status_of status_encoding
  handed-IsTold r msg none can e =
      (refl, lookup_other _ _ _ _ refl ∙ (lookup_other _ _ _ _ refl ∙ lookup_same _ _ _))
  handed-IsTold r msg (some enc) can e =
      let (body, taken_body) =
        encoding_of-takes msg (lib.parse_media_type r.content_type) enc (status_of msg 401) can e
          refl in
      let (same, found) =
        written-status (insert (bytes "WWW-Authenticate") (bytes "Bearer") []) enc 401
          (status_of msg 401) body taken_body in
      (same, found (bytes "WWW-Authenticate") refl ∙ lookup_same _ _ _)

  five : seconds_text (not_ready_retry_after) ≡ bytes "5"
  unfolding seconds_text not_ready_retry_after itoa bytes
  five = refl

  not_ready-message : (msg : Text) → (not_ready_status lib msg).message ≡ msg
  unfolding not_ready_status
  not_ready-message msg = refl

  not_ready-delay :
      (msg : Text)
      → lib.takes_details ≡ true
      → retry_delay (not_ready_status lib msg).details ≡ some not_ready_retry_after
  unfolding not_ready_status retry_delay
  not_ready-delay msg h = rw h refl

  not_ready_body-IsTold :
      (r : Request) (msg : Text) (o : Option StatusEncoding)
      → CanWrite lib msg
      → status_encoding lib r.content_type ≡ o
      → IsTold false true (not_ready_body lib msg o)
  unfolding not_ready_body retry_header http_error bytes ◌==◌ status_encoding
  not_ready_body-IsTold r msg none can e = (
    refl,
    lookup_other _ _ _ _ refl ∙ (lookup_other _ _ _ _ refl ∙ (lookup_same _ _ _ ∙ ap some five)),
  )
  not_ready_body-IsTold r msg (some enc) can e =
      let st = not_ready_status lib msg in
      let (body, taken_body) =
        encoding_of-takes msg (lib.parse_media_type r.content_type) enc st can e
          (not_ready-message msg) in
      let (same, found) = written-status [] enc 503 st body taken_body in
      (
        same,
        found (bytes "Retry-After") refl
            ∙ rw (not_ready-delay msg can.delay) (lookup_same _ _ _ ∙ ap some five),
      )

  fourteen : (msg : Text) → itoa (code_number (not_ready_status lib msg).code) ≡ bytes "14"
  unfolding itoa code_number not_ready_status bytes
  fourteen msg = refl

  sixteen : itoa (code_number unauthenticated) ≡ bytes "16"
  unfolding itoa code_number bytes
  sixteen = refl

  not_ready-IsTold :
      (r : Request) (msg : Text) (b : Bool)
      → CanWrite lib msg
      → is_grpc r ≡ b
      → IsTold b true (write_not_ready lib r msg)
  unfolding write_not_ready
  not_ready-IsTold r msg true can e = rw e (
    write_grpc_status-ok (not_ready_status lib msg),
    write_grpc_status-code (not_ready_status lib msg) ∙ ap some (fourteen msg),
  )
  not_ready-IsTold r msg false can e =
      rw e (not_ready_body-IsTold r msg (status_encoding lib r.content_type) can refl)

  unauthenticated-IsTold :
      (r : Request) (msg : Text) (b : Bool)
      → CanWrite lib msg
      → is_grpc r ≡ b
      → IsTold b false (write_unauthenticated lib r msg)
  unfolding write_unauthenticated write_handed_status
  unauthenticated-IsTold r msg true can e =
      rw e (write_grpc_status-ok _, write_grpc_status-code _ ∙ ap some sixteen)
  unauthenticated-IsTold r msg false can e =
      rw e (handed-IsTold r msg (status_encoding lib r.content_type) can refl)

  -- Where both encodings take every status of the refusal's text, a client whose request the
  -- authenticator refuses is told to try again if the provider is not ready, and else that it is not
  -- authenticated, over HTTP and over gRPC; and the receiver counts neither.
  pub handle_error-IsTold :
      (refused : Refusals) (r : Request) (msg : Text)
      → CanWrite lib msg
      → IsTold (is_grpc r) (msg == err_not_ready) (handle_error lib refused r msg 401).1
        × ((handle_error lib refused r msg 401).0 ≡ refused)
  unfolding handle_error
  handle_error-IsTold refused r msg can = elim (Bool-cases (msg == err_not_ready)) [
    | inl e ↦ rw e (not_ready-IsTold r msg (is_grpc r) can refl, refl)
    | inr e ↦ rw e (unauthenticated-IsTold r msg (is_grpc r) can refl, refl)
  ]
