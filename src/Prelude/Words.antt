-- ===== src/Prelude/Words.antt =====
-- What `fields` makes of words joined by spaces, and membership in a list of strings.
use Prim.Native.Nat.{ℕ, ◌≤◌}
use mathlib.Core.Path.{◌≡◌, refl, sym, ap, ◌∙◌}
use mathlib.Core.Logic.{◌≢◌, ◌↔◌, inl, inr}
use mathlib.Core.Logic.Or
use mathlib.Core.Bool.{Bool, true, ◌||◌}
use mathlib.Core.List.{List, [], ◌∷◌, ◌++◌, Mem, mem-cons, not-mem-nil, append-nil, append_assoc}
use native.Mathlib.Omega.{arith}
use otlp_collector_oidc.Prelude.Tests.{Bool-cases}
use otlp_collector_oidc.Prelude.Bytes.{Text, contains, ◌==◌, ==_iff}
use otlp_collector_oidc.Prelude.Lists.{All}
use otlp_collector_oidc.Prelude.Go.{fields, fields_from, closed, space_len, join}

Bool-set : IsSet Bool
Bool-set = hlevel

pub contains_sound : (ts : List Text) (s : Text) → contains ts s ≡ true → Mem s ts
unfolding contains
contains_sound [] s h = cc
contains_sound (t ∷ ts) s h = elim (Bool-cases (t == s)) [
  | inl e ↦ mem-cons.1 (Or.inl (sym ((==_iff t s).0 e)))
  | inr e ↦ mem-cons.1 (Or.inr (contains_sound ts s (rw e at h)))
]

pub contains_complete : (ts : List Text) (s : Text) → Mem s ts → contains ts s ≡ true
unfolding contains
contains_complete [] s m = absurd (not-mem-nil m)
contains_complete (t ∷ ts) s m =
    Or.elim (Bool-set _ _) (mem-cons.0 m) (λ e. ground (arith, ==_iff t s))
      (λ r. ground (arith, contains_complete ts s r))

pub contains_iff : (ts : List Text) (s : Text) → (contains ts s ≡ true) ↔ Mem s ts
contains_iff ts s = (contains_sound ts s, contains_complete ts s)

pub contains-append :
    (xs ys : List Text) (s : Text) → contains (xs ++ ys) s ≡ (contains xs s || contains ys s)
unfolding contains
contains-append [] ys s = refl
contains-append (x ∷ xs) ys s = ground (arith, contains-append xs ys s)

-- A visible ASCII character, and a word of them.
abbrev pub IsVisible : ℕ → Type 0
IsVisible c = (33 ≤ c) × (c ≤ 126)

abbrev pub IsWord : Text → Type 0
IsWord w = (w ≢ []) × All IsVisible w

space_len_visible : (c : ℕ) (s : Text) → IsVisible c → space_len (c ∷ s) ≡ 0
unfolding space_len
space_len_visible c [] h = ground arith
space_len_visible c (a ∷ []) h = ground arith
space_len_visible c (a ∷ b ∷ s) h = ground arith

fields_from-word :
    (word w rest : Text)
    → All IsVisible w
    → fields_from 0 word (w ++ rest) ≡ fields_from 0 (word ++ w) rest
unfolding fields_from
fields_from-word word [] rest h = rw append-nil
fields_from-word word (c ∷ w) rest (p, h) =
    rw (space_len_visible c (w ++ rest) p, fields_from)
      (fields_from-word (word ++ c ∷ []) w rest h ∙ rw (append_assoc word (c ∷ []) w))

fields_from-nil : (word : Text) → word ≢ [] → fields_from 0 word [] ≡ word ∷ []
unfolding fields_from closed
fields_from-nil [] h = absurd (h refl)
fields_from-nil (c ∷ word) h = refl

fields_from-space :
    (word rest : Text) → word ≢ [] → fields_from 0 word (b' ' ∷ rest) ≡ word ∷ fields_from 0 [] rest
unfolding fields_from closed space_len
fields_from-space [] rest h = absurd (h refl)
fields_from-space (c ∷ word) rest h = refl

-- Splitting at white space gives back the words that were joined by spaces.
pub fields-join : (ts : List Text) → All IsWord ts → fields (join ts (b' ' ∷ [])) ≡ ts
unfolding fields join
fields-join [] h = refl
fields-join (t ∷ []) ((n, v), h) =
    ap fields (sym (append-nil t)) ∙ fields_from-word [] t [] v ∙ fields_from-nil t n
fields-join (t ∷ u ∷ ts) ((n, v), h) =
    let rest = join (u ∷ ts) (b' ' ∷ []) in
    ap fields (append_assoc t (b' ' ∷ []) rest)
    ∙ fields_from-word [] t (b' ' ∷ rest) v
    ∙ fields_from-space t rest n
    ∙ ap (λ ws. t ∷ ws) (fields-join (u ∷ ts) h)
