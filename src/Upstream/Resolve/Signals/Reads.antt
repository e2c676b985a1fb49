-- ===== src/Upstream/Resolve/Signals/Reads.antt =====
-- internal/upstream/resolve.go: which variables a resolution reads, and what of them.
use otlp_collector_oidc.Prelude.{
  Text, bytes, equal_fold, ◌==◌, List, [], ◌∷◌, ◌++◌, Option, some, none, if◌then◌else◌, Bool, true,
  false, ◌≡◌, refl, inl, inr, Option-cases, All, eqb, length,
}
use otlp_collector_oidc.Upstream.Enums.{Signal}
use otlp_collector_oidc.Upstream.Variables.{Setting, settings, base_name, signal_name, prefix}
use otlp_collector_oidc.Upstream.Resolve.{
  Lookup, Resolver, new_resolver, Library, nonempty, values, value, own_value, base_value,
}
use otlp_collector_oidc.Upstream.Resolve.Signals.{
  resolve_signal, resolve_signals, resolve, across, unused_insecure, unused_files, unused_files_of,
  is_true, keep, report_file, Configs,
}

-- The variable is the same in both environments, or each has it unset or empty.
abbrev pub IsAlike : Lookup → Lookup → Text → Type 0
IsAlike one other name = nonempty (one name) ≡ nonempty (other name)

-- So is every variable that a signal reads, and every one that all share.
abbrev pub IsAlikeShared : Lookup → Lookup → Type 0
IsAlikeShared one other = All (λ s. IsAlike one other (base_name s)) settings

abbrev pub IsAlikeOwn : Lookup → Lookup → Signal → Type 0
IsAlikeOwn one other sig = All (λ s. IsAlike one other (signal_name s sig)) settings

own_value-alike :
    (one other : Lookup) (s : Setting) (sig : Signal)
    → IsAlike one other (signal_name s sig)
    → own_value one s sig ≡ own_value other s sig
unfolding own_value
own_value-alike one other s sig e = rw e

base_value-alike :
    (one other : Lookup) (s : Setting)
    → IsAlike one other (base_name s)
    → base_value one s ≡ base_value other s
unfolding base_value
base_value-alike one other s e = rw (e, base_value)

value-alike :
    (one other : Lookup) (s : Setting) (sig : Signal)
    → IsAlike one other (base_name s)
    → IsAlike one other (signal_name s sig)
    → value one s sig ≡ value other s sig
unfolding value
value-alike one other s sig e f =
    let own = own_value-alike one other s sig f in
    elim (Option-cases (own_value other s sig)) [
      | inl g ↦ rw (own, g, value) (base_value-alike one other s e)
      | inr (raw, g) ↦ rw (own, g, value) refl
    ]

values-alike :
    (one other : Lookup) (sig : Signal)
    → IsAlikeShared one other
    → IsAlikeOwn one other sig
    → values one sig ≡ values other sig
unfolding values settings
values-alike one other sig a b = rw (
  value-alike one other _ sig a.0 b.0,
  value-alike one other _ sig a.1.0 b.1.0,
  value-alike one other _ sig a.1.1.0 b.1.1.0,
  value-alike one other _ sig a.1.1.1.0 b.1.1.1.0,
  value-alike one other _ sig a.1.1.1.1.0 b.1.1.1.1.0,
  value-alike one other _ sig a.1.1.1.1.1.0 b.1.1.1.1.1.0,
  value-alike one other _ sig a.1.1.1.1.1.1.0 b.1.1.1.1.1.1.0,
  value-alike one other _ sig a.1.1.1.1.1.1.1.0 b.1.1.1.1.1.1.1.0,
  value-alike one other _ sig a.1.1.1.1.1.1.1.1.0 b.1.1.1.1.1.1.1.1.0,
  value-alike one other _ sig a.1.1.1.1.1.1.1.1.1.0 b.1.1.1.1.1.1.1.1.1.0,
  value-alike one other _ sig a.1.1.1.1.1.1.1.1.1.1.0 b.1.1.1.1.1.1.1.1.1.1.0,
  value-alike one other _ sig a.1.1.1.1.1.1.1.1.1.1.1.0 b.1.1.1.1.1.1.1.1.1.1.1.0,
)

module _ (lib : Library) where
  resolve_signal-alike :
      (one other : Lookup) (r : Resolver) (sig : Signal)
      → IsAlikeShared one other
      → IsAlikeOwn one other sig
      → resolve_signal lib r one sig ≡ resolve_signal lib r other sig
  unfolding resolve_signal
  resolve_signal-alike one other r sig a b = rw (values-alike one other sig a b)

  resolve_signals-alike :
      (one other : Lookup) (sigs : List Signal) (r : Resolver) (out : Configs)
      → IsAlikeShared one other
      → All (IsAlikeOwn one other) sigs
      → resolve_signals lib r one out sigs ≡ resolve_signals lib r other out sigs
  unfolding resolve_signals
  resolve_signals-alike one other [] r out a b = refl
  resolve_signals-alike one other (sig ∷ sigs) r out a (b, bs) =
      rw (resolve_signal-alike one other r sig a b) (
        resolve_signals-alike one other sigs (resolve_signal lib r other sig).0
          (keep lib sig (resolve_signal lib r other sig).1 out) a bs)

  is_true-nonempty : (o : Option Text) → is_true lib o ≡ is_true lib (nonempty o)
  unfolding is_true equal_fold bytes ◌==◌
  is_true-nonempty none = refl
  is_true-nonempty (some []) = refl
  is_true-nonempty (some (b ∷ raw)) = refl

  branches :
      (b : Bool) {x y u v : Resolver} → x ≡ u → y ≡ v → (if b then x else y) ≡ (if b then u else v)
  branches true p q = p
  branches false p q = q

  unused_files_of-alike :
      (one other : Lookup) (ss : List Setting) (r : Resolver)
      → All (λ s. IsAlike one other (base_name s)) ss
      → unused_files_of lib r one ss ≡ unused_files_of lib r other ss
  unfolding unused_files_of
  unused_files_of-alike one other [] r h = refl
  unused_files_of-alike one other (s ∷ ss) r (same, rest) =
      branches s.tls_file
        (rw same (
          unused_files_of-alike one other ss (report_file lib r s (nonempty (other (base_name s))))
            rest))
        (unused_files_of-alike one other ss r rest)

  unused_insecure-alike :
      (one other : Lookup) (r : Resolver)
      → IsAlikeShared one other
      → unused_insecure lib r one ≡ unused_insecure lib r other
  unfolding unused_insecure settings base_name
  unused_insecure-alike one other r a = rw (
    is_true-nonempty (one (prefix ++ bytes "INSECURE")),
    is_true-nonempty (other (prefix ++ bytes "INSECURE")),
    a.1.1.1.1.1.1.1.1.0,
  )

  unused_files-alike :
      (one other : Lookup) (r : Resolver)
      → IsAlikeShared one other
      → unused_files lib r one ≡ unused_files lib r other
  unfolding unused_files
  unused_files-alike one other r a = rw (unused_files_of-alike one other settings r a)

  across-alike :
      (one other : Lookup) (r : Resolver) (all : Bool)
      → IsAlikeShared one other
      → across lib r one all ≡ across lib r other all
  unfolding across
  across-alike one other r false a = refl
  across-alike one other r true a =
      rw (unused_insecure-alike one other r a)
        (unused_files-alike one other (unused_insecure lib r other) a)

  -- Environments that are alike in the variables that the signals share and in the signals' own give
  -- the same result: no other variable is read, and an empty one is as one that is unset.
  pub resolve-alike :
      (one other : Lookup) (sigs : List Signal)
      → IsAlikeShared one other
      → All (IsAlikeOwn one other) sigs
      → resolve lib one sigs ≡ resolve lib other sigs
  unfolding resolve
  resolve-alike one other sigs a b = rw (resolve_signals-alike one other sigs new_resolver [] a b) (
      let (r, out) = resolve_signals lib new_resolver other [] sigs in
      rw (across-alike one other r (eqb (length out) (length sigs)) a) refl)
