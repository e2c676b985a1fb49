-- ===== src/Receiver/Message/Laws.antt =====
-- receiver/otlpsingleport/errors.go: the grpc-message header and its decoder.
use otlp_collector_oidc.Prelude.{
  ℕ, ◌+◌, ◌-◌, ◌*◌, ◌/◌, ◌%◌, ◌<◌, ◌≤◌, ◌≡◌, ◌≢◌, refl, ap, Text, [], ◌∷◌, ◌++◌, if◌then◌else◌,
  ◌||◌, ltb, eqb, leb, arith, All, All-append, Bool-cases, inl, inr,
}
use otlp_collector_oidc.Receiver.Message.{hex_digit, encode_byte, encode_grpc_message}

abbrev pub IsByte : ℕ → Type 0
IsByte c = c < 256

-- Printable ASCII.
abbrev pub IsPlain : ℕ → Type 0
IsPlain c = (b' ' ≤ c) × (c ≤ b'~')

abbrev hex_value : ℕ → ℕ
hex_value c = if leb c 57 then c - 48 else c - 55

-- The decoder that the gRPC wire protocol describes: an escape is the byte of its two digits.
unfoldable pub decode : Text → Text
decode [] = []
decode (c ∷ []) = c ∷ []
decode (c ∷ h ∷ []) = c ∷ h ∷ []
decode (c ∷ h ∷ l ∷ s) =
    let after = decode s in
    let next = decode (h ∷ l ∷ s) in
    if eqb c b'%' then (16 * hex_value h + hex_value l) ∷ after else c ∷ next

hex_value-hex_digit : (n : ℕ) → n < 16 → hex_value (hex_digit n) ≡ n
hex_value-hex_digit n h = ground arith

decode-escape :
    (h l : ℕ) (s : Text) → decode (b'%' ∷ h ∷ l ∷ s) ≡ (16 * hex_value h + hex_value l) ∷ decode s
unfolding decode
decode-escape h l s = refl

decode-plain : (c : ℕ) (s : Text) → c ≢ b'%' → decode (c ∷ s) ≡ c ∷ decode s
unfolding decode
decode-plain c [] n = refl
decode-plain c (h ∷ []) n = refl
decode-plain c (h ∷ l ∷ s) n = ground arith

decode-encode_byte : (c : ℕ) (s : Text) → IsByte c → decode (encode_byte c ++ s) ≡ c ∷ decode s
unfolding encode_byte
decode-encode_byte c s b = elim (Bool-cases (ltb c b' ' || ltb b'~' c || eqb c b'%')) [
  | inl e ↦
      rw
        (
          e,
          decode-escape (hex_digit (c / 16)) (hex_digit (c % 16)) s,
          hex_value-hex_digit (c / 16) (omega (arith, b)),
          hex_value-hex_digit (c % 16) (omega arith),
        )
        (ap (λ x. x ∷ decode s) (omega arith))
  | inr e ↦ rw e (decode-plain c s (λ q. ground arith))
]

encode_byte-IsPlain : (c : ℕ) → IsByte c → All IsPlain (encode_byte c)
unfolding encode_byte
encode_byte-IsPlain c b = ground arith

-- A message of any bytes is sent in printable ASCII only, and the decoder of the gRPC wire protocol
-- reads it back as it was.
pub decode-encode_grpc_message :
    (msg : Text)
    → All IsByte msg
    → (decode (encode_grpc_message msg) ≡ msg) × All IsPlain (encode_grpc_message msg)
unfolding encode_grpc_message decode
decode-encode_grpc_message [] h = (refl, tt)
decode-encode_grpc_message (c ∷ msg) (b, h) =
    let (back, plain) = decode-encode_grpc_message msg h in
    (
      rw (decode-encode_byte c (encode_grpc_message msg) b, back),
      All-append IsPlain (encode_byte c) _ (encode_byte-IsPlain c b) plain,
    )
