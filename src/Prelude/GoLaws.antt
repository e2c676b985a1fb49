-- ===== src/Prelude/GoLaws.antt =====
-- What `cut` finds.
use mathlib.Core.Path.{◌≡◌, refl}
use mathlib.Core.Logic.{◌≢◌}
use mathlib.Core.Bool.{true, false}
use mathlib.Core.List.{[], ◌∷◌, ◌++◌}
use native.Mathlib.Omega.{arith}
use Prim.Native.Nat.{ℕ}
use otlp_collector_oidc.Prelude.Bytes.{Text}
use otlp_collector_oidc.Prelude.Lists.{All}
use otlp_collector_oidc.Prelude.Go.{cut}

-- No byte of the text is `sep`.
abbrev pub Free : ℕ → Text → Type 0
Free sep s = All (λ c. c ≢ sep) s

pub cut_sound :
    (sep : ℕ) (s b a : Text) → cut sep s ≡ (b, a, true) → (s ≡ b ++ sep ∷ a) × Free sep b
unfolding cut
cut_sound sep [] b a h = absurd (ground arith)
cut_sound sep (c ∷ s) [] a h = ground arith
cut_sound sep (c ∷ s) (x ∷ b) a h = ground (arith, cut_sound sep s b a)

pub cut_of_Free : (sep : ℕ) (b a : Text) → Free sep b → cut sep (b ++ sep ∷ a) ≡ (b, a, true)
unfolding cut
cut_of_Free sep [] a h = ground arith
cut_of_Free sep (x ∷ b) a h = ground (arith, cut_of_Free sep b a h.1)

pub cut_of_Free_nil : (sep : ℕ) (s : Text) → Free sep s → cut sep s ≡ (s, [], false)
unfolding cut
cut_of_Free_nil sep [] h = refl
cut_of_Free_nil sep (x ∷ s) h = ground (arith, cut_of_Free_nil sep s h.1)
