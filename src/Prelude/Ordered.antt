-- ===== src/Prelude/Ordered.antt =====
-- A list with one entry for each key, in the order in which the keys were first seen, with a map
-- from each key to its place: what the program's readers of `key=value` lists build.
pub mod Laws
use Prim.Native.Nat.{ℕ, zero, suc}
use mathlib.Core.List.{List, [], ◌∷◌, ◌++◌}
use mathlib.Core.Option.{Option, none, some}
use otlp_collector_oidc.Prelude.Lists.{length}
use otlp_collector_oidc.Prelude.Bytes.{Text, Entries, lookup, insert}

module _ {A : Type 0} where
  -- `out[i] = change(out[i])`.
  unfoldable pub modify : ℕ → (A → A) → List A → List A
  modify i change [] = []
  modify zero change (x ∷ xs) = change x ∷ xs
  modify (suc i) change (x ∷ xs) = x ∷ modify i change xs

  -- The entry `a`, or a change of the one of its key.
  unfoldable pub put : Text → A → (A → A) → Entries ℕ × List A → Entries ℕ × List A
  put key a change (index, out) = elim (lookup key index) [
    | none ↦ (insert key (length out) index, out ++ a ∷ [])
    | some i ↦ (index, modify i change out)
  ]
