-- ===== src/Receiver/Response/Written.antt =====
-- receiver/otlpsingleport/errors.go: the status that an error is written with.
use otlp_collector_oidc.Prelude.{
  ℕ, Text, [], Entries, ◌≡◌, ◌≢◌, ◌⊎◌, inl, inr, refl, arith, Option-cases,
}
use otlp_collector_oidc.Receiver.Response.{
  Status, StatusEncoding, write_status, written, http_error, write_body,
}

write_status-status :
    (headers : Entries Text) (enc : StatusEncoding) (status : ℕ) (st : Status)
    → ((write_status headers enc status st).status ≡ status)
      ⊎ ((write_status headers enc status st).status ≡ 500)
unfolding write_status written http_error write_body
write_status-status headers enc status st = elim (Option-cases (enc.marshal_status st)) [
  | inl e ↦ inr (rw e refl)
  | inr (body, e) ↦ inl (rw e refl)
]

-- An error is never written as a success.
pub write_status-ne :
    (enc : StatusEncoding) (status : ℕ) (st : Status)
    → status ≢ 200
    → (write_status [] enc status st).status ≢ 200
write_status-ne enc status st ne h = elim (write_status-status [] enc status st) [
  | inl e ↦ ne (omega (arith, e, h))
  | inr e ↦ omega (arith, e, h)
]
