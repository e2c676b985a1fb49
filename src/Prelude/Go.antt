-- ===== src/Prelude/Go.antt =====
-- The functions of Go's package strings that the program calls.
use Prim.Native.Nat.{ℕ, zero, suc, ◌+◌}
use mathlib.Core.Path.{◌≡◌, refl}
use mathlib.Core.Bool.{Bool, true, false, ◌&&◌, ◌||◌}
use mathlib.Core.List.{List, [], ◌∷◌, ◌++◌, map, reverse}
use otlp_collector_oidc.Prelude.Tests.{ltb, leb, eqb, if◌then◌else◌}
use otlp_collector_oidc.Prelude.Bytes.{Text, bytes, ◌==◌, is_empty}

unfoldable pub lower : ℕ → ℕ
lower c = if leb b'A' c && leb c b'Z' then c + 32 else c

unfoldable pub to_lower : Text → Text
unfolding lower
to_lower s = map lower s

-- `strings.EqualFold`, exact where one side is an ASCII word without k and s, the two letters
-- that other code points fold to. The program compares with `authorization`, `bearer` and `true`.
unfoldable pub equal_fold : Text → Text → Bool
unfolding to_lower
equal_fold s t = to_lower s == to_lower t

cons_before : ℕ → Text × Text × Bool → Text × Text × Bool
cons_before c (before, after, found) = (c ∷ before, after, found)

-- `strings.Cut` at a one-byte separator.
unfoldable pub cut : ℕ → Text → Text × Text × Bool
unfolding cons_before
cut sep [] = ([], [], false)
cut sep (c ∷ s) = if eqb c sep then ([], s, true) else cons_before c (cut sep s)

cons_first : ℕ → List Text → List Text
cons_first c [] = (c ∷ []) ∷ []
cons_first c (part ∷ parts) = (c ∷ part) ∷ parts

-- `strings.Split` at a one-byte separator.
unfoldable pub split : ℕ → Text → List Text
unfolding cons_first
split sep [] = [] ∷ []
split sep (c ∷ s) = if eqb c sep then [] ∷ split sep s else cons_first c (split sep s)

unfoldable pub join : List Text → Text → Text
join [] sep = []
join (s ∷ []) sep = s
join (s ∷ t ∷ ts) sep = s ++ sep ++ join (t ∷ ts) sep

unfoldable pub has_prefix : Text → Text → Bool
has_prefix s [] = true
has_prefix [] (p ∷ ps) = false
has_prefix (c ∷ s) (p ∷ ps) = eqb c p && has_prefix s ps

-- `unicode.IsSpace`, on UTF-8: the bytes of the white space that a text starts with, 0 if none.
ascii_space : ℕ → Bool
ascii_space c = eqb c 32 || (leb 9 c && leb c 13)

space₂ : ℕ → ℕ → Bool
space₂ a b = eqb a 0xC2 && (eqb b 0x85 || eqb b 0xA0)

space₃ : ℕ → ℕ → ℕ → Bool
space₃ a b c =
    (eqb a 0xE1 && eqb b 0x9A && eqb c 0x80)
    || (eqb a 0xE2
        && ((eqb b 0x80 && ((leb 0x80 c && leb c 0x8A) || eqb c 0xA8 || eqb c 0xA9 || eqb c 0xAF))
            || (eqb b 0x81 && eqb c 0x9F)))
    || (eqb a 0xE3 && eqb b 0x80 && eqb c 0x80)

wide_space : ℕ → Text → ℕ
unfolding space₂ space₃
wide_space a [] = 0
wide_space a (b ∷ []) = if space₂ a b then 2 else 0
wide_space a (b ∷ c ∷ s) = if space₂ a b then 2 else if space₃ a b c then 3 else 0

unfoldable pub space_len : Text → ℕ
unfolding ascii_space wide_space
space_len [] = 0
space_len (a ∷ s) = if ascii_space a then 1 else wide_space a s

-- The same at the end of a text, which is given reversed.
wide_space_back : ℕ → Text → ℕ
unfolding space₂ space₃
wide_space_back c [] = 0
wide_space_back c (b ∷ []) = if space₂ b c then 2 else 0
wide_space_back c (b ∷ a ∷ s) = if space₂ b c then 2 else if space₃ a b c then 3 else 0

unfoldable pub space_len_back : Text → ℕ
unfolding ascii_space wide_space_back
space_len_back [] = 0
space_len_back (c ∷ s) = if ascii_space c then 1 else wide_space_back c s

-- Drops white space while `len` finds it, after `k` bytes that are already found.
unfoldable pub drop_spaces : (Text → ℕ) → ℕ → Text → Text
drop_spaces len k [] = []
drop_spaces len (suc k) (c ∷ s) = drop_spaces len k s
drop_spaces len zero (c ∷ s) = elim (len (c ∷ s)) [ zero ↦ c ∷ s | suc k ↦ drop_spaces len k s ]

unfoldable pub trim_space : Text → Text
unfolding drop_spaces space_len space_len_back
trim_space s = reverse (drop_spaces space_len_back 0 (reverse (drop_spaces space_len 0 s)))

unfoldable pub closed : Text → List Text
closed word = if is_empty word then [] else word ∷ []

unfoldable pub fields_from : ℕ → Text → Text → List Text
unfolding closed
fields_from k word [] = closed word
fields_from (suc k) word (c ∷ s) = fields_from k word s
fields_from zero word (c ∷ s) = elim (space_len (c ∷ s)) [
  | zero ↦ fields_from zero (word ++ c ∷ []) s
  | suc k ↦ closed word ++ fields_from k [] s
]

-- `strings.Fields`.
unfoldable pub fields : Text → List Text
unfolding fields_from space_len
fields s = fields_from 0 [] s

-- `strings.Compare(a, b) < 0`.
unfoldable pub less : Text → Text → Bool
less [] [] = false
less [] (y ∷ ys) = true
less (x ∷ xs) [] = false
less (x ∷ xs) (y ∷ ys) = ltb x y || (eqb x y && less xs ys)

trimmed : trim_space (0xC2 ∷ 0xA0 ∷ bytes " a b " ++ 0xE2 ∷ 0x80 ∷ 0x8A ∷ []) ≡ bytes "a b"
unfolding trim_space bytes
trimmed = refl

words : fields (bytes " a  bc ") ≡ bytes "a" ∷ bytes "bc" ∷ []
unfolding fields bytes
words = refl
