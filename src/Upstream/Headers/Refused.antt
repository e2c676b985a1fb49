-- ===== src/Upstream/Headers/Refused.antt =====
-- internal/upstream/config.go: what a header list that is refused is told.
use otlp_collector_oidc.Prelude.{
  ℕ, ◌+◌, ◌≤◌, ◌<◌, ◌≡◌, ◌≢◌, refl, Text, bytes, List, [], ◌∷◌, Option, Bool, false, not, ◌||◌,
  split, cut, trim_space, is_empty, length, arith, Bool-cases, inl, inr, Entries,
}
use otlp_collector_oidc.Prelude.Escape.{unescape}
use otlp_collector_oidc.Prelude.Result.{Result, ok, err, ◌>>=◌}
use otlp_collector_oidc.Upstream.Headers.{
  Header, valid_header_value, valid_header_name, check_pair, read_pair, add_header, read_pairs,
  parse_headers, pair_error, or_empty, is_none, new_headers,
}
use otlp_collector_oidc.Upstream.Headers.Parsing.{IsHeaderList, parse_headers-IsHeaderList}

-- What can be wrong with a pair.
pub data Refusal : Type 0 where
  no_pair bad_encoding bad_name bad_value : Refusal

abbrev pub refusal_text : Refusal → Text
refusal_text no_pair = bytes "is not key=value"
refusal_text bad_encoding = bytes "has a malformed percent-encoding"
refusal_text bad_name = bytes "has a name that is not an HTTP header token"
refusal_text bad_value = bytes "has a value with a control or non-ASCII character"

err-injective {ℓ} : {A : Type ℓ} {e f : Text} → Path (Result A) (err e) (err f) → f ≡ e
err-injective h = cc

ok-err {ℓ} : {A : Type ℓ} {a : A} {e : Text} → ok a ≢ err e
ok-err h = cc

check_pair-told :
    (n : ℕ) (found : Bool) (k v : Option Text) (e : Text)
    → check_pair n found k v ≡ err e
    → (r : Refusal) × (e ≡ pair_error n (refusal_text r))
unfolding check_pair
check_pair-told n found k v e h = elim (Bool-cases (not found || is_empty (or_empty k))) [
  | inl a ↦ (no_pair, err-injective (rw a at h))
  | inr a ↦ elim (Bool-cases (is_none k || is_none v)) [
    | inl b ↦ (bad_encoding, err-injective (rw (a, b) at h))
    | inr b ↦ elim (Bool-cases (not (valid_header_name (or_empty k)))) [
      | inl c ↦ (bad_name, err-injective (rw (a, b, c) at h))
      | inr c ↦ elim (Bool-cases (not (valid_header_value (or_empty v)))) [
        | inl d ↦ (bad_value, err-injective (rw (a, b, c, d) at h))
        | inr d ↦ absurd (ok-err (rw (a, b, c, d) at h))
      ]
    ]
  ]
]

read_pair-told :
    (n : ℕ) (item e : Text)
    → read_pair n item ≡ err e
    → (r : Refusal) × (e ≡ pair_error n (refusal_text r))
unfolding read_pair
read_pair-told n item e h =
    let (k, v, found) = cut b'=' item in
    check_pair-told n found (unescape false (trim_space k)) (unescape false (trim_space v)) e h

-- One of the items, the first of which is the n-th, is refused in these words.
pub record IsRefused (n : ℕ) (items : List Text) (message : Text) : Type 0 where
  pub position : ℕ
  pub refusal : Refusal
  pub from : n ≤ position
  pub below : position < n + length items
  pub told : message ≡ pair_error position (refusal_text refusal)

later-IsRefused :
    (n : ℕ) (item : Text) (items : List Text) (e : Text)
    → IsRefused (n + 1) items e
    → IsRefused n (item ∷ items) e
later-IsRefused n item items e r = record {
  position = r.position;
  refusal = r.refusal;
  from = omega (arith, r.from);
  below = omega (arith, r.below);
  told = r.told;
}

-- The item that is first is refused, or one of those after it.
first-IsRefused :
    (n : ℕ) (item : Text) (items : List Text) (e : Text) (o : Result Header)
    (next : Header → Result (Entries ℕ × List Header))
    → ((f : Text) → o ≡ err f → (r : Refusal) × (f ≡ pair_error n (refusal_text r)))
    → ((p : Header) → next p ≡ err e → IsRefused (n + 1) items e)
    → (o >>= next) ≡ err e
    → IsRefused n (item ∷ items) e
first-IsRefused n item items e (err f) next this rest h =
    let (r, t) = this f refl in
    record {
      position = n;
      refusal = r;
      from = omega arith;
      below = omega arith;
      told = rw (err-injective h) t;
    }
first-IsRefused n item items e (ok p) next this rest h = later-IsRefused n item items e (rest p h)

read_pairs-IsRefused :
    (n : ℕ) (state : Entries ℕ × List Header) (items : List Text) (e : Text)
    → read_pairs n state items ≡ err e
    → IsRefused n items e
unfolding read_pairs
read_pairs-IsRefused n state [] e h = absurd (ok-err h)
read_pairs-IsRefused n state (item ∷ items) e h = elim (Bool-cases (is_empty (trim_space item))) [
  | inl a ↦ later-IsRefused n item items e (read_pairs-IsRefused (n + 1) state items e (rw a at h))
  | inr a ↦
      first-IsRefused n item items e (read_pair n item)
        (λ p. read_pairs (n + 1) (add_header state p) items) (read_pair-told n item)
        (λ p. read_pairs-IsRefused (n + 1) (add_header state p) items e) (rw a at h)
]

-- What is known of the result for a value with these items.
abbrev pub Parsed : List Text → Result Text → Type 0
Parsed items (ok encoded) = (list : List Header) × IsHeaderList encoded list
Parsed items (err message) = IsRefused 1 items message

headers_of-Parsed :
    (raw : Text) (o : Result (Entries ℕ × List Header))
    → read_pairs 1 ([], []) (split b',' raw) ≡ o
    → Parsed (split b',' raw) (parse_headers raw)
unfolding parse_headers
headers_of-Parsed raw (err e) h = rw h (read_pairs-IsRefused 1 ([], []) (split b',' raw) e h)
headers_of-Parsed raw (ok (index, list)) h =
    rw h (parse_headers-IsHeaderList raw (new_headers list) (rw h refl))

-- The result for a value is the form of a list of headers that can be sent, none of whose names is
-- another's but for case, and which the form is decoded to in some order; or it is an error, which
-- says the position of one of the items and one of four fixed texts, and nothing of the value.
pub parse_headers-Parsed : (raw : Text) → Parsed (split b',' raw) (parse_headers raw)
parse_headers-Parsed raw = headers_of-Parsed raw (read_pairs 1 ([], []) (split b',' raw)) refl
