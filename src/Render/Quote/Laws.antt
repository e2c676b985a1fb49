-- ===== src/Render/Quote/Laws.antt =====
-- The collector reads a quoted value back as it is: no value starts a reference.
use otlp_collector_oidc.Prelude.{
  ◌≡◌, refl, sym, ap, ◌∙◌, ℕ, Text, bytes, List, [], ◌∷◌, ◌++◌, map, Option, none, some, false, eqb,
  eqb_iff, Bool-cases, inl, inr, arith, join,
}
use otlp_collector_oidc.Prelude.Result.{Result, ok, err, >>=-ok}
use otlp_collector_oidc.Render.SelfTelemetry.{double_dollars}
use otlp_collector_oidc.Render.Quote.{trim_newline, quoted_text, quote, quote_items, quote_list}

abbrev pub prepend : ℕ → Option Text → Option Text
prepend c none = none
prepend c (some s) = some (c ∷ s)

-- The collector's expansion of a file's text, as it is documented: two dollar signs stand for one,
-- and a byte that is no dollar sign for itself. What a single dollar sign starts is left open.
pub record Expansion : Type 0 where
  pub expand : Text → Option Text
  pub ends : expand [] ≡ some []
  pub doubled : (s : Text) → expand (b'$' ∷ b'$' ∷ s) ≡ prepend b'$' (expand s)
  pub stands : (c : ℕ) (s : Text) → eqb c b'$' ≡ false → expand (c ∷ s) ≡ prepend c (expand s)

module _ (x : Expansion) where
  open x use {expand}

  abbrev put_before : Text → Option Text → Option Text
  put_before [] rest = rest
  put_before (c ∷ s) rest = prepend c (put_before s rest)

  put_before-some : (s rest : Text) → put_before s (some rest) ≡ some (s ++ rest)
  put_before-some [] rest = refl
  put_before-some (c ∷ s) rest = ap (prepend c) (put_before-some s rest)

  expand-double_dollars :
      (s rest : Text) → expand (double_dollars s ++ rest) ≡ put_before s (expand rest)
  unfolding double_dollars
  expand-double_dollars [] rest = refl
  expand-double_dollars (c ∷ s) rest = elim (Bool-cases (eqb c b'$')) [
    | inl e ↦
        rw (e, double_dollars)
          (x.doubled (double_dollars s ++ rest)
            ∙ ap (prepend b'$') (expand-double_dollars s rest)
            ∙ ap (λ d. prepend d (put_before s (expand rest))) (sym ((eqb_iff c b'$').0 e)))
    | inr e ↦
        rw (e, double_dollars)
          (x.stands c (double_dollars s ++ rest) e ∙ ap (prepend c) (expand-double_dollars s rest))
  ]

  double_dollars-append :
      (s t : Text) → double_dollars (s ++ t) ≡ double_dollars s ++ double_dollars t
  unfolding double_dollars
  double_dollars-append [] t = refl
  double_dollars-append (c ∷ s) t = elim (Bool-cases (eqb c b'$')) [
    | inl e ↦ rw (e, double_dollars) (ap (λ u. b'$' ∷ b'$' ∷ u) (double_dollars-append s t))
    | inr e ↦ rw (e, double_dollars) (ap (λ u. c ∷ u) (double_dollars-append s t))
  ]

  double_dollars-join :
      (texts : List Text) (sep : Text)
      → double_dollars (join texts sep) ≡ join (map double_dollars texts) (double_dollars sep)
  unfolding join double_dollars
  double_dollars-join [] sep = refl
  double_dollars-join (t ∷ []) sep = refl
  double_dollars-join (t ∷ u ∷ texts) sep =
      double_dollars-append (t ++ sep) (join (u ∷ texts) sep)
      ∙ rw (double_dollars-append t sep, double_dollars-join (u ∷ texts) sep)

  -- What the encoder writes of each item, less the line's end.
  abbrev pub IsEncoded : (Text → Result Text) → List Text → List Text → Type 0
  IsEncoded encode [] texts = texts ≡ []
  IsEncoded encode (item ∷ items) texts =
      (raw : Text) × (rest : List Text) × (encode item ≡ ok raw)
      × (texts ≡ trim_newline raw ∷ rest)
      × IsEncoded encode items rest

  quoted_text-ok :
      (r : Result Text) (q : Text)
      → quoted_text r ≡ ok q
      → (raw : Text) × (r ≡ ok raw) × (double_dollars (trim_newline raw) ≡ q)
  unfolding quoted_text
  quoted_text-ok (err e) q h = absurd cc
  quoted_text-ok (ok raw) q h = (raw, refl, ground arith)

  quote_items-ok :
      (encode : Text → Result Text) (items quoted : List Text)
      → quote_items encode items ≡ ok quoted
      → (texts : List Text) × (map double_dollars texts ≡ quoted) × IsEncoded encode items texts
  unfolding quote_items quote
  quote_items-ok encode [] quoted h = ([], ground arith, refl)
  quote_items-ok encode (item ∷ items) quoted h =
      let (q, first, rest) = >>=-ok (quoted_text (encode item)) _ h in
      let (more, second, last) = >>=-ok (quote_items encode items) _ rest in
      let (raw, written, same) = quoted_text-ok (encode item) q first in
      let (texts, mapped, encoded) = quote_items-ok encode items more second in
      let done : q ∷ more ≡ quoted = ground arith in
      (trim_newline raw ∷ texts, rw (same, mapped) done, (raw, texts, written, refl, encoded))

  expand-list :
      (texts : List Text)
      → expand (b'[' ∷ (join (map double_dollars texts) (bytes ", ") ++ b']' ∷ []))
        ≡ some (b'[' ∷ (join texts (bytes ", ") ++ b']' ∷ []))
  unfolding bytes double_dollars
  expand-list texts =
      let inner = join texts (bytes ", ") in
      x.stands b'[' (join (map double_dollars texts) (bytes ", ") ++ b']' ∷ []) refl
      ∙ ap (λ u. prepend b'[' (expand (u ++ b']' ∷ [])))
          (sym (double_dollars-join texts (bytes ", ")))
      ∙ ap (prepend b'[') (
          expand-double_dollars inner (b']' ∷ [])
          ∙ ap (put_before inner) (x.stands b']' [] refl ∙ ap (prepend b']') x.ends)
          ∙ put_before-some inner (b']' ∷ []))

  -- A list that is quoted expands to the items as the encoder writes them, separated by commas
  -- between brackets: none of them starts a reference.
  pub quote_list-expands :
      (encode : Text → Result Text) (items : List Text) (q : Text)
      → quote_list encode items ≡ ok q
      → (texts : List Text) × IsEncoded encode items texts
        × (expand q ≡ some (b'[' ∷ (join texts (bytes ", ") ++ b']' ∷ [])))
  unfolding quote_list bytes double_dollars
  quote_list-expands encode items q h =
      let (quoted, first, last) = >>=-ok (quote_items encode items) _ h in
      let (texts, mapped, encoded) = quote_items-ok encode items quoted first in
      let same : b'[' ∷ (join quoted (bytes ", ") ++ b']' ∷ []) ≡ q = ground arith in
      (
        texts,
        encoded,
        ap expand (sym same)
            ∙ ap (λ u. expand (b'[' ∷ (join u (bytes ", ") ++ b']' ∷ []))) (sym mapped)
            ∙ expand-list texts,
      )
