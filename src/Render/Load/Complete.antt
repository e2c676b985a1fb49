-- ===== src/Render/Load/Complete.antt =====
-- internal/render/env.go: every fault of a variable is reported, and none goes unnoticed.
use otlp_collector_oidc.Prelude.{
  Text, List, [], ◌∷◌, ◌++◌, Option, none, some, if◌then◌else◌, Bool, true, false, ◌≡◌, refl, ap,
  sym, All, All-map,
}
use mathlib.Core.List.{append_assoc}
use otlp_collector_oidc.Prelude.Result.{Result, ok, err}
use otlp_collector_oidc.Upstream.Resolve.{Lookup, nonempty}
use otlp_collector_oidc.Upstream.Variables.{Url, Fault, variable_error, required, cause}
use otlp_collector_oidc.Render.Load.{
  Variable, Group, redacted, parsed, read_raw, load_variable, load_variables, resolved, checked,
  load_group, load_groups, load,
}

-- What is wrong with a variable, which the other variables have no part in.
result_fault : {A : Type 0} → (Text → Fault) → Result A → List Fault
result_fault f (ok a) = []
result_fault f (err e) = f e ∷ []

-- The one list within the other.
abbrev pub IsPart {ℓ} : {A : Type ℓ} → List A → List A → Type ℓ
IsPart {A = A} xs ys = (before after : List A) × (ys ≡ before ++ (xs ++ after))

append_nil_right : {A : Type 0} (xs : List A) → xs ++ [] ≡ xs
append_nil_right [] = refl
append_nil_right (x ∷ xs) = ap (λ ys. x ∷ ys) (append_nil_right xs)

IsPart-nil : {A : Type 0} (xs : List A) → IsPart xs [] → xs ≡ []
IsPart-nil [] p = refl
IsPart-nil (x ∷ xs) ([], after, e) = absurd cc
IsPart-nil (x ∷ xs) (y ∷ before, after, e) = absurd cc

IsPart-left : {A : Type 0} (xs ys zs : List A) → IsPart xs ys → IsPart xs (ys ++ zs)
IsPart-left xs ys zs (before, after, e) =
    (before, after ++ zs, rw (e, append_assoc before (xs ++ after) zs, append_assoc xs after zs))

IsPart-right : {A : Type 0} (xs ys zs : List A) → IsPart xs zs → IsPart xs (ys ++ zs)
IsPart-right xs ys zs (before, after, e) =
    (ys ++ before, after, rw (e, append_assoc ys before (xs ++ after)))

module _ {S : Type 0} (parse_url : Text → Option Url) where
  raw_faults : Variable S → Option Text → List Fault
  unfolding result_fault
  raw_faults v (some raw) =
      result_fault (λ e. variable_error v.name (redacted parse_url raw) (cause e)) (v.parse raw)
  raw_faults v none =
      if v.required
      then variable_error v.name [] required ∷ []
      else result_fault (λ e. variable_error v.name (redacted parse_url v.def) (cause e))
          (v.parse v.def)

  -- The faults of a variable: none, or the one of it.
  unfoldable pub faults_of : Lookup → Variable S → List Fault
  unfolding raw_faults
  faults_of lookup v = raw_faults v (nonempty (lookup v.name))

  unfoldable pub faults_of_all : Lookup → List (Variable S) → List Fault
  faults_of_all lookup [] = []
  faults_of_all lookup (v ∷ vs) = faults_of lookup v ++ faults_of_all lookup vs

  parsed-faults :
      (v : Variable S) (raw : Text) (res : Result (S → S)) (s : S)
      → (parsed parse_url v raw res s).1
        ≡ result_fault (λ e. variable_error v.name (redacted parse_url raw) (cause e)) res
  unfolding parsed result_fault
  parsed-faults v raw (ok set) s = refl
  parsed-faults v raw (err e) s = refl

  either-faults :
      (b : Bool) (x y : S × List Fault) {m n : List Fault}
      → x.1 ≡ m
      → y.1 ≡ n
      → (if b then x else y).1 ≡ (if b then m else n)
  either-faults true x y p q = p
  either-faults false x y p q = q

  read_raw-faults :
      (v : Variable S) (o : Option Text) (s : S) → (read_raw parse_url v o s).1 ≡ raw_faults v o
  unfolding read_raw raw_faults
  read_raw-faults v (some raw) s = parsed-faults v raw (v.parse raw) s
  read_raw-faults v none s =
      either-faults v.required _ _ refl (parsed-faults v v.def (v.parse v.def) s)

  load_variables-faults :
      (lookup : Lookup) (vs : List (Variable S)) (s : S)
      → (load_variables parse_url lookup vs s).1 ≡ faults_of_all lookup vs
  unfolding load_variables faults_of_all load_variable faults_of
  load_variables-faults lookup [] s = refl
  load_variables-faults lookup (v ∷ vs) s =
      rw (read_raw-faults v (nonempty (lookup v.name)) s, load_variables-faults lookup vs _)

  checked-IsPart :
      (xs : List Fault) (validate : S → List Fault) (s : S) (errs : List Fault)
      → IsPart xs errs
      → IsPart xs (checked parse_url validate (s, errs)).1
  unfolding checked
  checked-IsPart xs validate s [] p = rw (IsPart-nil xs p) ([], validate s, refl)
  checked-IsPart xs validate s (e ∷ errs) p = p

  load_group-IsPart :
      (lookup : Lookup) (g : Group S) (s : S)
      → IsPart (faults_of_all lookup g.variables) (load_group parse_url lookup g s).1
  unfolding load_group
  load_group-IsPart lookup g s =
      let (t, before) = resolved parse_url lookup g.resolver s in
      checked-IsPart _ g.validate (load_variables parse_url lookup g.variables t).0
        (before ++ (load_variables parse_url lookup g.variables t).1)
        (rw (load_variables-faults lookup g.variables t)
          (before, [], ap (λ ys. before ++ ys) (sym (append_nil_right _))))

  load_groups-IsPart :
      (lookup : Lookup) (gs : List (Group S)) (s : S)
      → All
          (λ g. IsPart (faults_of_all lookup g.variables) (load_groups parse_url lookup gs s).1)
          gs
  unfolding load_groups
  load_groups-IsPart lookup [] s = tt
  load_groups-IsPart lookup (g ∷ gs) s =
      let (t, mine) = load_group parse_url lookup g s in
      let errs = (load_groups parse_url lookup gs t).1 in
      (
        IsPart-left _ mine errs (load_group-IsPart lookup g s),
        All-map _ _ gs (λ h p. IsPart-right _ mine errs p) (load_groups-IsPart lookup gs t),
      )

  -- Whatever else is at fault, the faults of each group's variables are among the errors, in the
  -- order of the variables.
  pub load-reports :
      (lookup : Lookup) (groups : List (Group S)) (validate : S → List Fault) (s : S)
      → All
          (λ g.
            IsPart (faults_of_all lookup g.variables) (load parse_url lookup groups validate s).1)
          groups
  unfolding load
  load-reports lookup groups validate s =
      All-map _ _ groups
        (λ g p.
          checked-IsPart _ validate (load_groups parse_url lookup groups s).0
            (load_groups parse_url lookup groups s).1 p)
        (load_groups-IsPart lookup groups s)

  checked-nil :
      (validate : S → List Fault) (s : S) (errs : List Fault)
      → (checked parse_url validate (s, errs)).1 ≡ []
      → (errs ≡ []) × (validate (checked parse_url validate (s, errs)).0 ≡ [])
  unfolding checked
  checked-nil validate s [] h = (refl, h)
  checked-nil validate s (e ∷ errs) h = absurd cc

  -- Settings that load without an error have no variable at fault, and keep the rule across the groups.
  pub load-valid :
      (lookup : Lookup) (groups : List (Group S)) (validate : S → List Fault) (s : S)
      → (load parse_url lookup groups validate s).1 ≡ []
      → All (λ g. faults_of_all lookup g.variables ≡ []) groups
        × (validate (load parse_url lookup groups validate s).0 ≡ [])
  unfolding load
  load-valid lookup groups validate s h =
      let (t, errs) = load_groups parse_url lookup groups s in
      let (none_of_them, valid) = checked-nil validate t errs h in
      (
        All-map _ _ groups (λ g p. IsPart-nil _ (rw (← none_of_them) p))
            (load_groups-IsPart lookup groups s),
        valid,
      )

  -- The one fault of a required variable that is missing.
  pub faults_of-missing :
      (lookup : Lookup) (v : Variable S)
      → v.required ≡ true
      → nonempty (lookup v.name) ≡ none
      → faults_of lookup v ≡ variable_error v.name [] required ∷ []
  unfolding faults_of raw_faults
  faults_of-missing lookup v r e = rw e (rw r)
