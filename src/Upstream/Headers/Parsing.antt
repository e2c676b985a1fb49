-- ===== src/Upstream/Headers/Parsing.antt =====
-- internal/upstream/config.go: what a list of headers that is accepted holds.
use otlp_collector_oidc.Prelude.{
  ℕ, ◌+◌, ◌≤◌, ◌≡◌, ◌≢◌, ◌⊎◌, inl, inr, refl, sym, lookup, Text, bytes, List, [], ◌∷◌, map, Option,
  some, none, Bool, true, false, not, ◌&&◌, ◌||◌, ltb, eqb, All, All-map, split, cut, trim_space,
  to_lower, is_empty, arith, Bool-cases, Entries,
}
use mathlib.Core.List.{Perm}
use otlp_collector_oidc.Prelude.Escape.{unescape}
use otlp_collector_oidc.Prelude.Escape.Laws.{IsOctet}
use otlp_collector_oidc.Prelude.Ordered.Laws.{IsDistinct, IsIndexed, put-IsIndexed, All-put}
use otlp_collector_oidc.Prelude.Result.{ok, >>=-ok}
use otlp_collector_oidc.Upstream.Headers.{
  Header, new_headers, pairs, valid_header_value, valid_header_name, is_token, check_pair,
  read_pair, add_header, read_pairs, parse_headers, contains_byte,
}
use otlp_collector_oidc.Upstream.Headers.Encoding.{IsHeader, pairs-new_headers}

-- A name that is a token, and a value that gRPC metadata and HTTP take.
pub record IsSendable (h : Header) : Type 0 where
  pub name_ne : h.name ≢ []
  pub token : All (λ c. is_token c ≡ true) h.name
  pub printable : All (λ c. (c ≡ b'\t') ⊎ ((0x20 ≤ c) × (c ≤ 0x7e))) h.value

token_sound : (s : Text) → valid_header_name s ≡ true → All (λ c. is_token c ≡ true) s
unfolding valid_header_name
token_sound [] h = tt
token_sound (c ∷ s) h = (ground arith, token_sound s (ground arith))

byte_sound :
    (c : ℕ)
    → not ((ltb c 0x20 && not (eqb c b'\t')) || ltb 0x7e c) ≡ true
    → (c ≡ b'\t') ⊎ ((0x20 ≤ c) × (c ≤ 0x7e))
byte_sound c h = elim (Bool-cases (eqb c b'\t')) [
  | inl e ↦ inl (ground arith)
  | inr e ↦ inr (ground arith, ground arith)
]

printable_sound :
    (s : Text) → valid_header_value s ≡ true → All (λ c. (c ≡ b'\t') ⊎ ((0x20 ≤ c) × (c ≤ 0x7e))) s
unfolding valid_header_value
printable_sound [] h = tt
printable_sound (c ∷ s) h = (byte_sound c (ground arith), printable_sound s (ground arith))

check_pair_sound :
    (n : ℕ) (found : Bool) (k v : Option Text) (h : Header)
    → check_pair n found k v ≡ ok h
    → (found ≡ true) × (k ≡ some h.name) × (v ≡ some h.value) × IsSendable h
unfolding check_pair
check_pair_sound n false k v h e = cc
check_pair_sound n true none v h e = cc
check_pair_sound n true (some []) v h e = cc
check_pair_sound n true (some (b ∷ k)) none h e = cc
check_pair_sound n true (some (b ∷ k)) (some v) h e =
    elim (Bool-cases (valid_header_name (b ∷ k))) [
      | inr off ↦ absurd (ground arith)
      | inl on ↦ elim (Bool-cases (valid_header_value v)) [
        | inr off ↦ absurd (ground arith)
        | inl fine ↦
            let made : ok (record { name = b ∷ k; value = v }) ≡ ok h = rw (on, fine) at e in
            let same : record { name = b ∷ k; value = v } ≡ h = ground arith in
            rw (← same) (
              refl,
              refl,
              refl,
              record {
                name_ne = λ q. cc;
                token = token_sound (b ∷ k) on;
                printable = printable_sound v fine;
              },
            )
      ]
    ]

-- What the loop keeps.
abbrev Sound : Entries ℕ × List Header → Type 0
Sound s = IsIndexed (λ h. to_lower h.name) s × All IsSendable s.1

read_pair-IsSendable : (n : ℕ) (item : Text) (h : Header) → read_pair n item ≡ ok h → IsSendable h
unfolding read_pair
read_pair-IsSendable n item h e =
    let (k, v, found) = cut b'=' item in
    (check_pair_sound n found (unescape false (trim_space k)) (unescape false (trim_space v)) h e).3

add_header-Sound :
    (s : Entries ℕ × List Header) (h : Header) → IsSendable h → Sound s → Sound (add_header s h)
unfolding add_header
add_header-Sound s h good (inv, all) = (
  put-IsIndexed (λ g. to_lower g.name) s (to_lower h.name) h (λ _. h) refl (λ b e. refl) inv,
  All-put (λ g. to_lower g.name) IsSendable s (to_lower h.name) h (λ _. h) good (λ b p. good) all,
)

read_pairs-Sound :
    (n : ℕ) (s t : Entries ℕ × List Header) (items : List Text)
    → read_pairs n s items ≡ ok t
    → Sound s
    → Sound t
unfolding read_pairs
read_pairs-Sound n s t [] e inv = let same : s ≡ t = ground arith in rw (← same) inv
read_pairs-Sound n s t (item ∷ items) e inv = elim (Bool-cases (is_empty (trim_space item))) [
  | inl blank ↦ read_pairs-Sound (n + 1) s t items (rw (blank, read_pairs) at e) inv
  | inr full ↦
      let (h, good, rest) = >>=-ok (read_pair n item) _ (rw (full, read_pairs) at e) in
      read_pairs-Sound (n + 1) (add_header s h) t items rest
        (add_header-Sound s h (read_pair-IsSendable n item h good) inv)
]

contains_byte-IsOctet : (s : Text) (c : ℕ) → All IsOctet s → contains_byte s c ≡ true → IsOctet c
unfolding contains_byte
contains_byte-IsOctet [] c o h = cc
contains_byte-IsOctet (b ∷ s) c (p, o) h = ground (arith, contains_byte-IsOctet s c o)

token-IsOctet : (c : ℕ) → is_token c ≡ true → IsOctet c
unfolding is_token bytes
token-IsOctet c h = elim (Bool-cases (contains_byte (bytes "!#$%&'*+-.^_`|~") c)) [
  | inl e ↦ contains_byte-IsOctet (bytes "!#$%&'*+-.^_`|~") c (omega arith) e
  | inr e ↦ ground arith
]

printable-IsOctet : (c : ℕ) → (c ≡ b'\t') ⊎ ((0x20 ≤ c) × (c ≤ 0x7e)) → IsOctet c
printable-IsOctet c (inl e) = omega (arith, e)
printable-IsOctet c (inr (a, b)) = omega (arith, b)

IsSendable-IsHeader : (h : Header) → IsSendable h → IsHeader h
IsSendable-IsHeader h s =
    (All-map _ _ h.name token-IsOctet s.token, All-map _ _ h.value printable-IsOctet s.printable)

-- What an accepted list of headers is the comparable form of.
pub record IsHeaderList (encoded : Text) (list : List Header) : Type 0 where
  pub form : encoded ≡ new_headers list
  pub sendable : All IsSendable list
  pub distinct : IsDistinct (map (λ h. to_lower h.name) list)
  pub decoded : Perm (pairs encoded) list

-- An accepted value of the variable is the form of a list of headers that can be sent, none of whose
-- names is another's but for case, and the form is decoded to that list in some order.
pub parse_headers-IsHeaderList :
    (raw encoded : Text)
    → parse_headers raw ≡ ok encoded
    → (list : List Header) × IsHeaderList encoded list
unfolding parse_headers lookup
parse_headers-IsHeaderList raw encoded e =
    let (t, read, made) = >>=-ok (read_pairs 1 ([], []) (split b',' raw)) _ e in
    let (inv, sendable) = read_pairs-Sound 1 ([], []) t (split b',' raw) read (start, tt) in
    let form : new_headers t.1 ≡ encoded = ground arith in
    (
      t.1,
      record {
        form = sym form;
        sendable = sendable;
        distinct = inv.distinct;
        decoded =
            rw (← form) (pairs-new_headers t.1 (All-map _ _ t.1 IsSendable-IsHeader sendable)).0;
      },
    )
  where
    start : IsIndexed (λ (h : Header). to_lower h.name) ([], [])
    start = record { found = λ key. refl; distinct = tt }
