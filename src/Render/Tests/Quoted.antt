-- ===== src/Render/Tests/Quoted.antt =====
-- What the rendered statements and values say, at concrete settings.
use otlp_collector_oidc.Prelude.{
  ◌≡◌, ◌↔◌, refl, ℕ, Text, bytes, ◌==◌, List, [], ◌∷◌, ◌++◌, any, contains, Option, none, some,
  if◌then◌else◌, true, false, ◌&&◌, eqb, has_prefix, arith, join,
}
use otlp_collector_oidc.Prelude.Result.{Result, ok}
use otlp_collector_oidc.Render.Values.{KeyValue}
use otlp_collector_oidc.Render.Bounds.{
  Compiled, read_pattern, check_compiled, is_special, service_name_filter,
}
use otlp_collector_oidc.Render.Bounds.Literal.{
  before, Literals, is_match, service_name_filter-pattern,
}
use otlp_collector_oidc.Render.Metrics.{kept_keys, metric_keep_keys}
use otlp_collector_oidc.Render.Metrics.Laws.{IsItems, metric_keep_keys-kept}
use otlp_collector_oidc.Render.Quote.{trim_newline, quote_list, quote_items, quote}
use otlp_collector_oidc.Render.SelfTelemetry.{double_dollars}
use otlp_collector_oidc.Render.Quote.Laws.{prepend, Expansion, IsEncoded, quote_list-expands}

-- A reading of string literals as it is documented.
read : Text → Option (Text × Text)
read [] = none
read (c ∷ []) = if eqb c b'"' then some ([], []) else none
read (c ∷ d ∷ s) =
    let after = read s in
    let next = read (d ∷ s) in
    if eqb c b'"' then some ([], d ∷ s) else if eqb c b'\\' then before d after else before c next

read-closes : (rest : Text) → read (b'"' ∷ rest) ≡ some ([], rest)
unfolding read
read-closes [] = refl
read-closes (c ∷ rest) = refl

read-stands : (c : ℕ) (rest : Text) → is_special c ≡ false → read (c ∷ rest) ≡ before c (read rest)
unfolding read is_special
read-stands c [] h = ground arith
read-stands c (d ∷ rest) h = ground arith

read-escapes :
    (c : ℕ) (rest : Text) → is_special c ≡ true → read (b'\\' ∷ c ∷ rest) ≡ before c (read rest)
unfolding read
read-escapes c rest h = refl

abbrev literals : Literals
literals = record {
  read = read;
  closes = read-closes;
  escapes = read-escapes;
  stands = λ c rest h g. read-stands c rest h;
}

pattern_read : read_pattern (λ text. Compiled.compiled) (bytes "a\"b") ≡ ok (bytes "a\"b")
unfolding read_pattern bytes check_compiled
pattern_read = refl

service_name_filter-pattern_example :
    (Compiled.compiled ≡ Compiled.compiled)
    × (Compiled.compiled ≡ Compiled.compiled)
    × ((literal : Text) × (service_name_filter (bytes "a\"b") ≡ is_match ++ b'"' ∷ literal)
        × (literals.read literal ≡ some (bytes "^(?:" ++ (bytes "a\"b" ++ bytes ")$"), bytes ")")))
service_name_filter-pattern_example =
    service_name_filter-pattern literals (λ text. Compiled.compiled) (bytes "a\"b") (bytes "a\"b")
      pattern_read

abbrev claims : List KeyValue
claims = record { key = bytes "sub"; value = bytes "user.id" } ∷ []

metric_keep_keys-kept_example :
    let allowed = bytes "route" ∷ bytes "user.id" ∷ bytes "session.x" ∷ [] in
    ((text : Text) × (metric_keep_keys allowed claims
        ≡ bytes "keep_keys(datapoint.attributes, [" ++ text)
      × IsItems literals (kept_keys allowed claims) text (bytes ")"))
    × ((contains (kept_keys allowed claims) (bytes "route") ≡ true) ↔ (
        (contains allowed (bytes "route") ≡ true)
        × (any (λ kv. kv.value == bytes "route") claims ≡ false)
        × (has_prefix (bytes "route") (bytes "user.") ≡ false)
        × (has_prefix (bytes "route") (bytes "session.") ≡ false)
        × (has_prefix (bytes "route") (bytes "enduser.") ≡ false)))
unfolding bytes
metric_keep_keys-kept_example =
    metric_keep_keys-kept literals (bytes "route" ∷ bytes "user.id" ∷ bytes "session.x" ∷ []) claims
      (bytes "route") (refl, (refl, (refl, tt)))

-- The expansion of a text in which a dollar sign starts nothing.
expand : Text → Option Text
expand [] = some []
expand (c ∷ []) = some (c ∷ [])
expand (c ∷ d ∷ s) =
    let after = expand s in
    let next = expand (d ∷ s) in
    if eqb c b'$' && eqb d b'$' then prepend c after else prepend c next

expand-stands : (c : ℕ) (s : Text) → eqb c b'$' ≡ false → expand (c ∷ s) ≡ prepend c (expand s)
unfolding expand
expand-stands c [] h = refl
expand-stands c (d ∷ s) h = ground arith

expand-ends : expand [] ≡ some []
unfolding expand
expand-ends = refl

expand-doubled : (s : Text) → expand (b'$' ∷ b'$' ∷ s) ≡ prepend b'$' (expand s)
unfolding expand
expand-doubled s = refl

abbrev expansion : Expansion
expansion = record {
  expand = expand;
  ends = expand-ends;
  doubled = expand-doubled;
  stands = expand-stands;
}

abbrev encode : Text → Result Text
encode text = ok (b'"' ∷ (text ++ b'"' ∷ b'\n' ∷ []))

quoted : quote_list encode (bytes "$a" ∷ bytes "b" ∷ []) ≡ ok (bytes "[\"$$a\", \"b\"]")
unfolding quote_list quote_items quote double_dollars trim_newline join bytes
quoted = refl

quote_list-expands_example :
    (texts : List Text) × IsEncoded expansion encode (bytes "$a" ∷ bytes "b" ∷ []) texts
    × (expand (bytes "[\"$$a\", \"b\"]") ≡ some (b'[' ∷ (join texts (bytes ", ") ++ b']' ∷ [])))
quote_list-expands_example =
    quote_list-expands expansion encode (bytes "$a" ∷ bytes "b" ∷ []) (bytes "[\"$$a\", \"b\"]")
      quoted
