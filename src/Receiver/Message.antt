-- ===== src/Receiver/Message.antt =====
-- receiver/otlpsingleport/errors.go: a status's text in the grpc-message header.
pub mod Laws
use otlp_collector_oidc.Prelude.{
  ℕ, ◌+◌, ◌/◌, ◌%◌, Text, List, [], ◌∷◌, ◌++◌, if◌then◌else◌, Bool, ◌||◌, ltb, eqb,
}

-- A digit of `%02X`, for n below 16.
abbrev pub hex_digit : ℕ → ℕ
hex_digit n = if ltb n 10 then 48 + n else 55 + n

-- What is written for one byte: `%%%02X` of it, or the byte.
unfoldable pub encode_byte : ℕ → Text
encode_byte c =
    if ltb c b' ' || ltb b'~' c || eqb c b'%'
    then b'%' ∷ hex_digit (c / 16) ∷ hex_digit (c % 16) ∷ []
    else c ∷ []

unfoldable pub encode_grpc_message : Text → Text
encode_grpc_message [] = []
encode_grpc_message (c ∷ msg) = encode_byte c ++ encode_grpc_message msg
