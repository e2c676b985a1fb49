-- ===== src/Prelude/Result.antt =====
-- A value or the text of an error, and the decimal digits of a number.
use Prim.Native.Nat.{ℕ, zero, suc, ◌+◌, ◌/◌, ◌%◌}
use mathlib.Core.Path.{◌≡◌, refl}
use mathlib.Core.List.{[], ◌∷◌}
use otlp_collector_oidc.Prelude.Tests.{ltb, if◌then◌else◌}
use otlp_collector_oidc.Prelude.Bytes.{Text}

-- A Go function's value, or the text of its error.
pub data Result {ℓ} (A : Type ℓ) : Type ℓ where
  err : Text → Result A
  ok : A → Result A

infixl 5 ◌>>=◌
-- `if err != nil { return err }`, and on with the value.
abbrev pub ◌>>=◌ {κ ℓ} : {B : Type κ} {A : Type ℓ} → Result B → (B → Result A) → Result A
err message >>= next = err message
ok value >>= next = next value

-- The value that a chain of calls which succeeds has after the first of them.
pub >>=-ok {κ ℓ} :
    {B : Type κ} {A : Type ℓ} {last : A} (first : Result B) (next : B → Result A)
    → (first >>= next) ≡ ok last
    → (value : B) × (first ≡ ok value) × (next value ≡ ok last)
>>=-ok (err message) next done = cc
>>=-ok (ok value) next done = (value, refl, done)

-- The digits of n before those of `acc`; the fuel n + 1 is more than n has digits.
digits : ℕ → ℕ → Text → Text
digits zero n acc = acc
digits (suc fuel) n acc =
    let rest = digits fuel (n / 10) ((48 + n % 10) ∷ acc) in
    if ltb n 10 then (48 + n) ∷ acc else rest

-- `strconv.Itoa`, of a number that is not negative.
unfoldable pub itoa : ℕ → Text
unfolding digits
itoa n = digits (n + 1) n []
