-- ===== src/Render/Bounds/Literal.antt =====
-- An OTTL string literal reads back as its text and ends where it was closed, whatever follows it.
use mathlib.Core.List.{append_assoc}
use otlp_collector_oidc.Prelude.{
  ◌≡◌, refl, ap, ◌∙◌, ℕ, Text, bytes, any, [], ◌∷◌, ◌++◌, Option, none, some, Bool, true, false,
  ◌||◌, ltb, eqb, Bool-cases, arith, inl, inr,
}
use otlp_collector_oidc.Prelude.Result.{ok, >>=-ok}
use otlp_collector_oidc.Render.Bounds.{
  Compiled, check_compiled, control, anchored, read_pattern, is_special, escape_special,
  ottl_string, service_name_filter,
}

-- A byte before those of the literal that was read.
abbrev pub before : ℕ → Option (Text × Text) → Option (Text × Text)
before c none = none
before c (some (s, rest)) = some (c ∷ s, rest)

abbrev pub is_match : Text
is_match =
    bytes
      "not IsString(resource.attributes[\"service.name\"]) or not IsMatch(resource.attributes[\"service.name\"], "

-- OTTL's reading of a string literal after its opening quote, as OTTL documents it: a quote closes
-- the literal, a backslash lets a quote or a backslash stand for itself, and so does any other
-- byte that is no control character.
pub record Literals : Type 0 where
  pub read : Text → Option (Text × Text)
  pub closes : (rest : Text) → read (b'"' ∷ rest) ≡ some ([], rest)
  pub escapes :
      (c : ℕ) (rest : Text) → is_special c ≡ true → read (b'\\' ∷ c ∷ rest) ≡ before c (read rest)
  pub stands :
      (c : ℕ) (rest : Text)
      → is_special c ≡ false
      → (ltb c 32 || eqb c 127) ≡ false
      → read (c ∷ rest) ≡ before c (read rest)

or_false : (a b : Bool) → (a || b) ≡ false → (a ≡ false) × (b ≡ false)
or_false false b h = (refl, h)
or_false true b h = absurd cc

pub read-escape_special :
    (l : Literals) (s rest : Text)
    → control s ≡ false
    → l.read (escape_special s ++ b'"' ∷ rest) ≡ some (s, rest)
unfolding escape_special
read-escape_special l [] rest h = l.closes rest
read-escape_special l (c ∷ s) rest h =
    let (g, t) = or_false (ltb c 32 || eqb c 127) (control s) h in
    let ih = ap (before c) (read-escape_special l s rest t) in
    elim (Bool-cases (is_special c)) [
      | inl e ↦ rw (e, escape_special) (l.escapes c _ e ∙ ih)
      | inr e ↦ rw (e, escape_special) (l.stands c _ e g ∙ ih)
    ]

any_append :
    (p : ℕ → Bool) (s t : Text) → any p s ≡ false → any p t ≡ false → any p (s ++ t) ≡ false
any_append p [] t h g = g
any_append p (c ∷ s) t h g = let (x, y) = or_false (p c) (any p s) h in rw x (any_append p s t y g)

control-append : (s t : Text) → control s ≡ false → control t ≡ false → control (s ++ t) ≡ false
control-append s t h g = any_append _ s t h g

control-anchored : (s : Text) → control s ≡ false → control (anchored s) ≡ false
unfolding anchored bytes
control-anchored s h = control-append s (bytes ")$") h refl

check_compiled-ok :
    (c : Compiled) (text p : Text)
    → check_compiled c text ≡ ok p
    → (c ≡ Compiled.compiled) × (text ≡ p)
unfolding check_compiled
check_compiled-ok Compiled.compiled text p h = (refl, ground arith)
check_compiled-ok (Compiled.syntax_error code) text p h = absurd cc
check_compiled-ok Compiled.other_error text p h = absurd cc

read_pattern-ok :
    (compile : Text → Compiled) (text p : Text)
    → read_pattern compile text ≡ ok p
    → (control text ≡ false)
      × (compile text ≡ Compiled.compiled)
      × (compile (anchored text) ≡ Compiled.compiled)
      × (text ≡ p)
unfolding read_pattern
read_pattern-ok compile text p h = elim (Bool-cases (control text)) [
  | inl e ↦ absurd (ground arith)
  | inr e ↦
      let (alone, first, second) =
        >>=-ok (check_compiled (compile text) text) _ (rw (e, read_pattern) at h) in
      (
        e,
        (check_compiled-ok (compile text) text alone first).0,
        (check_compiled-ok (compile (anchored text)) text p second).0,
        (check_compiled-ok (compile (anchored text)) text p second).1,
      )
]

-- A pattern that is accepted compiles on its own and anchored, and the filter made of it compares
-- the name with one string literal, which reads back as the anchored pattern and after which only
-- the closing bracket is left.
pub service_name_filter-pattern :
    (l : Literals) (compile : Text → Compiled) (text p : Text)
    → read_pattern compile text ≡ ok p
    → (compile p ≡ Compiled.compiled)
      × (compile (anchored p) ≡ Compiled.compiled)
      × ((literal : Text) × (service_name_filter p ≡ is_match ++ b'"' ∷ literal)
          × (l.read literal ≡ some (bytes "^(?:" ++ (p ++ bytes ")$"), bytes ")")))
unfolding service_name_filter ottl_string anchored
service_name_filter-pattern l compile text p h =
    let (plain, alone, whole, same) = read_pattern-ok compile text p h in
    (
      rw (← same) alone,
      rw (← same) whole,
      (
        escape_special (anchored p) ++ b'"' ∷ bytes ")",
        ap (λ x. is_match ++ b'"' ∷ x)
            (append_assoc (escape_special (anchored p)) (b'"' ∷ []) (bytes ")")),
        read-escape_special l (anchored p) (bytes ")") (control-anchored p (rw (← same) plain)),
      ),
    )
