-- ===== src/Prelude/Numbers.antt =====
-- strconv's reading of whole numbers in base 10.
use Prim.Native.Nat.{ℕ, zero, suc, ◌+◌, ◌-◌, ◌*◌, ◌^◌}
use mathlib.Core.Bool.{◌&&◌}
use mathlib.Core.List.{[], ◌∷◌}
use mathlib.Core.Option.{Option, none, some}
use otlp_collector_oidc.Prelude.Tests.{leb, eqb, if◌then◌else◌}
use otlp_collector_oidc.Prelude.Bytes.{Text}
use otlp_collector_oidc.Prelude.Int.{ℤ, pos, negsuc}

-- The number that the digits write after those of `acc`, if they are digits.
unfoldable pub digits_value : ℕ → Text → Option ℕ
digits_value acc [] = some acc
digits_value acc (c ∷ s) =
    let rest = digits_value (10 * acc + (c - 48)) s in if leb 48 c && leb c 57 then rest else none

-- One digit at least.
unfoldable pub natural : Text → Option ℕ
natural [] = none
natural (c ∷ s) = digits_value 0 (c ∷ s)

at_most : ℕ → Option ℕ → Option ℕ
at_most bound none = none
at_most bound (some n) = if leb n bound then some n else none

-- `strconv.ParseUint(raw, 10, bits)`.
unfoldable pub parse_uint : ℕ → Text → Option ℕ
unfolding at_most
parse_uint bits raw = at_most (2 ^ bits - 1) (natural raw)

positive : Option ℕ → Option ℤ
positive none = none
positive (some n) = if leb n (2 ^ 63 - 1) then some (pos n) else none

negative : Option ℕ → Option ℤ
negative none = none
negative (some zero) = some (pos 0)
negative (some (suc n)) = if leb n (2 ^ 63 - 1) then some (negsuc n) else none

-- `strconv.ParseInt(raw, 10, 64)`.
unfoldable pub parse_int : Text → Option ℤ
unfolding positive negative
parse_int [] = none
parse_int (c ∷ s) =
    if eqb c b'-'
    then negative (natural s)
    else if eqb c b'+'
    then positive (natural s)
    else positive (natural (c ∷ s))
