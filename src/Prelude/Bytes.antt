-- ===== src/Prelude/Bytes.antt =====
-- Go strings: lists of bytes, compared byte for byte.
use Prim.Native.Nat.{ℕ}
use Prim.Native.Char.{code}
use Prim.Native.String.{String}
use mathlib.Core.Path.{◌≡◌, refl}
use mathlib.Core.Logic.{◌↔◌}
use mathlib.Core.Bool.{Bool, true, false, ◌&&◌, ◌||◌}
use mathlib.Core.List.{List, [], ◌∷◌}
use mathlib.Core.Option.{Option, none, some}
use native.Mathlib.Omega.{arith}
use otlp_collector_oidc.Prelude.Tests.{eqb, if◌then◌else◌}

abbrev pub Text : Type 0
Text = List ℕ

-- The bytes of an ASCII literal.
unfoldable pub bytes : String → Text
bytes String.[] = []
bytes (String.◌∷◌ c s) = code c ∷ bytes s

infix 50 ◌==◌
unfoldable pub ◌==◌ : Text → Text → Bool
[] == [] = true
[] == (y ∷ ys) = false
(x ∷ xs) == [] = false
(x ∷ xs) == (y ∷ ys) = eqb x y && xs == ys

==_sound : (s t : Text) → (s == t) ≡ true → s ≡ t
unfolding ◌==◌
==_sound [] [] h = refl
==_sound [] (y ∷ ys) h = cc
==_sound (x ∷ xs) [] h = cc
==_sound (x ∷ xs) (y ∷ ys) h = ground (arith, ==_sound xs ys)

pub ==_refl : (s : Text) → (s == s) ≡ true
unfolding ◌==◌
==_refl [] = refl
==_refl (x ∷ xs) = ground (arith, ==_refl xs)

pub ==_iff : (s t : Text) → ((s == t) ≡ true) ↔ (s ≡ t)
==_iff s t = (==_sound s t, λ e. rw e (==_refl t))

pub ==_symm : (s t : Text) → (s == t) ≡ (t == s)
==_symm s t = ground (arith, ==_iff s t, ==_iff t s)

-- `slices.Contains` on strings.
unfoldable pub contains : List Text → Text → Bool
contains [] s = false
contains (t ∷ ts) s = t == s || contains ts s

abbrev pub is_empty : Text → Bool
is_empty [] = true
is_empty (_ ∷ _) = false

-- A Go map keyed by strings: its entries, the first of which for a key is the map's.
abbrev pub Entries {ℓ} : Type ℓ → Type ℓ
Entries V = List (Text × V)

module _ {ℓ} {V : Type ℓ} where
  -- `v, ok := m[key]`.
  unfoldable pub lookup : Text → Entries V → Option V
  lookup key [] = none
  lookup key ((name, value) ∷ rest) =
      let found = lookup key rest in if name == key then some value else found

  -- `m[key] = value`, in the entry's place where there is one.
  unfoldable pub insert : Text → V → Entries V → Entries V
  insert key value [] = (key, value) ∷ []
  insert key value ((name, old) ∷ rest) =
      let changed = insert key value rest in
      if name == key then (key, value) ∷ rest else (name, old) ∷ changed

  pub lookup-insert :
      (key other : Text) (value : V) (entries : Entries V)
      → lookup other (insert key value entries)
        ≡ (if key == other then some value else lookup other entries)
  unfolding lookup insert
  lookup-insert key other value [] = refl
  lookup-insert key other value ((name, old) ∷ rest) =
      let found = lookup-insert key other value rest in
      ground (arith, ==_iff key other, ==_iff name key, ==_iff name other, found)
