-- ===== src/Prelude/Escape/Laws.antt =====
-- Unescaping undoes escaping.
use Prim.Native.Nat.{ℕ, ◌/◌, ◌%◌, ◌<◌}
use mathlib.Core.Path.{◌≡◌, refl, ap, ◌∙◌}
use mathlib.Core.Logic.{◌≢◌, inl, inr}
use mathlib.Core.Bool.{Bool, true, false}
use mathlib.Core.List.{[], ◌∷◌, ◌++◌}
use mathlib.Core.Option.{some}
use native.Mathlib.Omega.{arith}
use otlp_collector_oidc.Prelude.Tests.{eqb, Bool-cases}
use otlp_collector_oidc.Prelude.Lists.{All, All-append}
use otlp_collector_oidc.Prelude.Bytes.{Text}
use otlp_collector_oidc.Prelude.Escape.{
  upper_hex, is_unreserved, is_segment, escaped, query_escape_byte, query_escape, path_escape_byte,
  path_escape, is_hex, unhex, cons_to, plain, unescape,
}

abbrev pub IsOctet : ℕ → Type 0
IsOctet c = c < 256

hex_digits : (n : ℕ) → n < 16 → (is_hex (upper_hex n) ≡ true) × (unhex (upper_hex n) ≡ n)
unfolding is_hex unhex
hex_digits n h = (ground arith, ground arith)

unescape-escaped :
    (plus : Bool) (c : ℕ) (s : Text)
    → IsOctet c
    → unescape plus (escaped c ++ s) ≡ cons_to c (unescape plus s)
unfolding unescape escaped
unescape-escaped plus c s o =
    let (h, p) = hex_digits (c / 16) (omega (arith, o)) in
    let (l, q) = hex_digits (c % 16) (omega arith) in
    rw (h, l, p, q) (ap (λ x. cons_to x (unescape plus s)) (omega arith))

unescape-plain :
    (plus : Bool) (c : ℕ) (s : Text)
    → c ≢ b'%'
    → unescape plus (c ∷ s) ≡ cons_to (plain plus c) (unescape plus s)
unfolding unescape
unescape-plain plus c [] n = ground arith
unescape-plain plus c (h ∷ []) n = ground arith
unescape-plain plus c (h ∷ l ∷ s) n = ground arith

is_unreserved-ne :
    (c : ℕ)
    → is_unreserved c ≡ true
    → (c ≢ b'%') × (c ≢ b'+') × (c ≢ b'&') × (c ≢ b'=') × (c ≢ b',')
unfolding is_unreserved
is_unreserved-ne c h =
    (λ e. ground arith, λ e. ground arith, λ e. ground arith, λ e. ground arith, λ e. ground arith)

plain_of_ne : (plus : Bool) (c : ℕ) → c ≢ b'+' → plain plus c ≡ c
unfolding plain
plain_of_ne plus c n = ground arith

plus_space : (c : ℕ) → eqb c b' ' ≡ true → plain true b'+' ≡ c
unfolding plain
plus_space c h = ground arith

unescape-query_escape_byte :
    (c : ℕ) (s : Text)
    → IsOctet c
    → unescape true (query_escape_byte c ++ s) ≡ cons_to c (unescape true s)
unfolding query_escape_byte
unescape-query_escape_byte c s o = elim (Bool-cases (is_unreserved c)) [
  | inl e ↦
      let (p, q, _, _, _) = is_unreserved-ne c e in
      rw e
        (unescape-plain true c s p ∙ ap (λ x. cons_to x (unescape true s)) (plain_of_ne true c q))
  | inr e ↦ elim (Bool-cases (eqb c b' ')) [
    | inl f ↦
        rw (e, f)
          (unescape-plain true b'+' s (λ x. omega arith)
            ∙ ap (λ x. cons_to x (unescape true s)) (plus_space c f))
    | inr f ↦ rw (e, f) (unescape-escaped true c s o)
  ]
]

pub unescape-query_escape : (s : Text) → All IsOctet s → unescape true (query_escape s) ≡ some s
unfolding query_escape unescape
unescape-query_escape [] h = refl
unescape-query_escape (c ∷ s) (o, h) =
    rw (unescape-query_escape_byte c (query_escape s) o, unescape-query_escape s h)

is_segment-ne : (c : ℕ) → is_segment c ≡ true → c ≢ b'%'
unfolding is_segment
is_segment-ne c h = λ e. ground arith

unescape-path_escape_byte :
    (c : ℕ) (s : Text)
    → IsOctet c
    → unescape false (path_escape_byte c ++ s) ≡ cons_to c (unescape false s)
unfolding path_escape_byte plain
unescape-path_escape_byte c s o = elim (Bool-cases (is_segment c)) [
  | inl e ↦ rw e (unescape-plain false c s (is_segment-ne c e))
  | inr e ↦ rw e (unescape-escaped false c s o)
]

pub unescape-path_escape : (s : Text) → All IsOctet s → unescape false (path_escape s) ≡ some s
unfolding path_escape unescape
unescape-path_escape [] h = refl
unescape-path_escape (c ∷ s) (o, h) =
    rw (unescape-path_escape_byte c (path_escape s) o, unescape-path_escape s h)

-- What ends a pair or its name in an encoded list.
abbrev pub IsInner : ℕ → Type 0
IsInner c = (c ≢ b'&') × (c ≢ b'=')

escaped-All : (c : ℕ) → IsOctet c → All IsInner (escaped c)
unfolding escaped
escaped-All c o = (
  ((λ e. omega (arith, e)), (λ e. omega (arith, e))),
  (digit (c / 16) (omega (arith, o)), (digit (c % 16) (omega arith), tt)),
)
  where
    digit : (n : ℕ) → n < 16 → IsInner (upper_hex n)
    digit n h = (λ e. ground arith, λ e. ground arith)

query_escape_byte-All : (c : ℕ) → IsOctet c → All IsInner (query_escape_byte c)
unfolding query_escape_byte
query_escape_byte-All c o = elim (Bool-cases (is_unreserved c)) [
  | inl e ↦ let (_, _, p, q, _) = is_unreserved-ne c e in rw e ((p, q), tt)
  | inr e ↦ elim (Bool-cases (eqb c b' ')) [
    | inl f ↦ rw (e, f) (((λ x. omega arith), (λ x. omega arith)), tt)
    | inr f ↦ rw (e, f) (escaped-All c o)
  ]
]

pub query_escape-All : (s : Text) → All IsOctet s → All IsInner (query_escape s)
unfolding query_escape
query_escape-All [] h = tt
query_escape-All (c ∷ s) (o, h) =
    All-append IsInner (query_escape_byte c) (query_escape s) (query_escape_byte-All c o)
      (query_escape-All s h)
