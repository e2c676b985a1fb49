-- ===== src/Prelude/Escape.antt =====
-- The percent encodings of Go's package net/url that the program calls.
pub mod Laws
use Prim.Native.Nat.{ℕ, ◌+◌, ◌-◌, ◌*◌, ◌/◌, ◌%◌}
use mathlib.Core.Bool.{Bool, true, false, not, ◌&&◌, ◌||◌}
use mathlib.Core.List.{List, [], ◌∷◌, ◌++◌}
use mathlib.Core.Option.{Option, none, some}
use otlp_collector_oidc.Prelude.Tests.{ltb, leb, eqb, if◌then◌else◌}
use otlp_collector_oidc.Prelude.Bytes.{Text}

abbrev pub upper_hex : ℕ → ℕ
upper_hex n = if ltb n 10 then 48 + n else 55 + n

-- Letters, digits and `-_.~`.
unfoldable pub is_unreserved : ℕ → Bool
is_unreserved c =
    (leb b'a' c && leb c b'z')
    || (leb b'A' c && leb c b'Z')
    || (leb b'0' c && leb c b'9')
    || eqb c b'-'
    || eqb c b'_'
    || eqb c b'.'
    || eqb c b'~'

-- The reserved characters that a path segment keeps.
unfoldable pub is_segment : ℕ → Bool
unfolding is_unreserved
is_segment c =
    is_unreserved c
    || eqb c b'$'
    || eqb c b'&'
    || eqb c b'+'
    || eqb c b':'
    || eqb c b'='
    || eqb c b'@'

unfoldable pub escaped : ℕ → Text
escaped c = b'%' ∷ upper_hex (c / 16) ∷ upper_hex (c % 16) ∷ []

unfoldable pub query_escape_byte : ℕ → Text
query_escape_byte c =
    if is_unreserved c then c ∷ [] else if eqb c b' ' then b'+' ∷ [] else escaped c

-- `url.QueryEscape`.
unfoldable pub query_escape : Text → Text
query_escape [] = []
query_escape (c ∷ s) = query_escape_byte c ++ query_escape s

unfoldable pub path_escape_byte : ℕ → Text
path_escape_byte c = if is_segment c then c ∷ [] else escaped c

-- `url.PathEscape`.
unfoldable pub path_escape : Text → Text
path_escape [] = []
path_escape (c ∷ s) = path_escape_byte c ++ path_escape s

unfoldable pub is_hex : ℕ → Bool
is_hex c = (leb b'0' c && leb c b'9') || (leb b'a' c && leb c b'f') || (leb b'A' c && leb c b'F')

unfoldable pub unhex : ℕ → ℕ
unhex c = if leb c b'9' then c - 48 else if leb b'a' c then c - 87 else c - 55

abbrev pub cons_to : ℕ → Option Text → Option Text
cons_to c none = none
cons_to c (some s) = some (c ∷ s)

-- What a byte that starts no escape stands for; `plus` is set for a query.
unfoldable pub plain : Bool → ℕ → ℕ
plain plus c = if plus && eqb c b'+' then b' ' else c

-- `url.QueryUnescape` where `plus` is set, and else `url.PathUnescape`; `none` is the error.
unfoldable pub unescape : Bool → Text → Option Text
unfolding is_hex unhex plain
unescape plus [] = some []
unescape plus (c ∷ []) = if eqb c b'%' then none else some (plain plus c ∷ [])
unescape plus (c ∷ h ∷ []) =
    let next = unescape plus (h ∷ []) in if eqb c b'%' then none else cons_to (plain plus c) next
unescape plus (c ∷ h ∷ l ∷ s) =
    let after = unescape plus s in
    let next = unescape plus (h ∷ l ∷ s) in
    if eqb c b'%'
    then if is_hex h && is_hex l then cons_to (16 * unhex h + unhex l) after else none
    else cons_to (plain plus c) next
