-- ===== src/Auth/KeySet/Keys.antt =====
-- extension/oidcclientauth/keyset.go: fetching a JWKS, and the keys of it that are kept.
pub mod Laws
use otlp_collector_oidc.Prelude.{
  ℕ, ◌+◌, ◌^◌, Text, bytes, ◌==◌, List, [], ◌∷◌, Option, none, some, if◌then◌else◌, Bool, true,
  false, not, ◌&&◌, ◌||◌, eqb, ltb, length, is_empty,
}

-- go-jose's keys and signatures, and encoding/json's reading of the JWKS document into the list
-- of its raw keys.
pub record Jose : Type 1 where
  pub Key : Type 0
  pub Jws : Type 0
  pub key_id : Key → Text
  pub key_algorithm : Key → Text
  pub key_use : Key → Text
  pub is_public : Key → Bool
  -- `JSONWebKey.UnmarshalJSON`; `none` is its error.
  pub unmarshal_key : Text → Option Key
  -- `json.Unmarshal` into `struct{ Keys []json.RawMessage }`.
  pub unmarshal_keys : Text → Option (List Text)
  -- The kid and the alg of each signature's header.
  pub signatures : Jws → List (Text × Text)
  -- `JSONWebSignature.Verify`: the payload, if the signature verifies.
  pub verify : Jws → Key → Option Text

-- What an HTTP GET of the JWKS comes to. A body is what can be read of it.
pub data Response : Type 0 where
  no_request no_response : Response
  answered : (status : ℕ) → (body : Option Text) → Response

pub data Fetched (Key : Type 0) : Type 0 where
  failed : Fetched Key
  keys : List Key → Fetched Key

-- `maxJWKSBytes`.
abbrev pub max_jwks_bytes : ℕ
max_jwks_bytes = 2 ^ 20

-- `io.LimitReader`: the first n bytes.
take : ℕ → Text → Text
take ℕ.zero s = []
take (ℕ.suc n) [] = []
take (ℕ.suc n) (c ∷ s) = c ∷ take n s

module _ (j : Jose) where
  open j use {Key}

  is_signing : Key → Bool
  is_signing key = j.is_public key && not (j.key_use key == bytes "enc")

  -- The loop over the raw keys.
  unfoldable pub signing_keys : List Text → List Key
  unfolding is_signing
  signing_keys [] = []
  signing_keys (r ∷ rs) =
      let rest = signing_keys rs in
      elim (j.unmarshal_key r) [
        | none ↦ rest
        | some key ↦ if is_signing key then key ∷ rest else rest
      ]

  nonempty : List Key → Fetched Key
  nonempty [] = Fetched.failed
  nonempty (key ∷ ks) = Fetched.keys (key ∷ ks)

  unfoldable pub parse_jwks : Text → Fetched Key
  unfolding nonempty
  parse_jwks body = elim (j.unmarshal_keys body) [
    | none ↦ Fetched.failed
    | some raw ↦ nonempty (signing_keys raw)
  ]

  read_body : Option Text → Fetched Key
  read_body none = Fetched.failed
  read_body (some body) =
      let body = take (max_jwks_bytes + 1) body in
      if ltb max_jwks_bytes (length body) then Fetched.failed else parse_jwks body

  unfoldable pub fetch : Response → Fetched Key
  unfolding read_body take
  fetch no_request = Fetched.failed
  fetch no_response = Fetched.failed
  fetch (answered status body) = if not (eqb status 200) then Fetched.failed else read_body body

  unfoldable pub find_in : List Key → Text → Text → Option Key
  find_in [] kid alg = none
  find_in (key ∷ ks) kid alg =
      if j.key_id key == kid && (is_empty (j.key_algorithm key) || j.key_algorithm key == alg)
      then some key
      else find_in ks kid alg

  unfoldable pub find_key : List Key → Text → Text → Option Key
  unfolding find_in
  find_key ks kid alg = if is_empty kid then none else find_in ks kid alg
