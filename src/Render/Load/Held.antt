-- ===== src/Render/Load/Held.antt =====
-- internal/render/env.go: what the settings keep from the variable that sets it to the end of Load.
use otlp_collector_oidc.Prelude.{
  append_nil, ◌≡◌, ◌⊎◌, inl, inr, refl, Text, List, [], ◌∷◌, ◌++◌, Option, none, some, Bool-cases,
  All, arith,
}
use otlp_collector_oidc.Prelude.Result.{Result, ok, err}
use otlp_collector_oidc.Upstream.Resolve.{Lookup, nonempty}
use otlp_collector_oidc.Upstream.Variables.{Url, Fault}
use otlp_collector_oidc.Render.Load.{
  Variable, Group, parsed, read_raw, load_variable, load_variables, resolved, checked, load_group,
  load_groups, load,
}

module _ {S : Type 0} (P : S → Type 0) where
  -- The variable's value, once it has parsed, makes `P` hold, or keeps it.
  abbrev pub Sets : Variable S → Type 0
  Sets v = (raw : Text) (set : S → S) (s : S) → v.parse raw ≡ ok set → P (set s)

  abbrev pub Keeps : Variable S → Type 0
  Keeps v = (raw : Text) (set : S → S) (s : S) → v.parse raw ≡ ok set → P s → P (set s)

  module _ (parse_url : Text → Option Url) (lookup : Lookup) where
    parsed-keeps :
        (v : Variable S) (raw : Text) (res : Result (S → S)) (s : S)
        → v.parse raw ≡ res
        → Keeps v
        → P s
        → P (parsed parse_url v raw res s).0
    unfolding parsed
    parsed-keeps v raw (ok set) s e k h = k raw set s e h
    parsed-keeps v raw (err m) s e k h = h

    parsed-sets :
        (v : Variable S) (raw : Text) (res : Result (S → S)) (s : S)
        → v.parse raw ≡ res
        → Sets v
        → (parsed parse_url v raw res s).1 ≡ []
        → P (parsed parse_url v raw res s).0
    unfolding parsed
    parsed-sets v raw (ok set) s e k n = k raw set s e
    parsed-sets v raw (err m) s e k n = absurd cc

    read_raw-keeps :
        (v : Variable S) (o : Option Text) (s : S) → Keeps v → P s → P (read_raw parse_url v o s).0
    unfolding read_raw
    read_raw-keeps v (some raw) s k h = parsed-keeps v raw (v.parse raw) s refl k h
    read_raw-keeps v none s k h = elim (Bool-cases v.required) [
      | inl e ↦ rw e h
      | inr e ↦ rw e (parsed-keeps v v.def (v.parse v.def) s refl k h)
    ]

    read_raw-sets :
        (v : Variable S) (o : Option Text) (s : S)
        → Sets v
        → (read_raw parse_url v o s).1 ≡ []
        → P (read_raw parse_url v o s).0
    unfolding read_raw
    read_raw-sets v (some raw) s k n = parsed-sets v raw (v.parse raw) s refl k n
    read_raw-sets v none s k n = elim (Bool-cases v.required) [
      | inl e ↦ absurd (ground (arith, rw e at n))
      | inr e ↦ rw e (parsed-sets v v.def (v.parse v.def) s refl k (rw e at n))
    ]

    load_variables-keeps :
        (vs : List (Variable S)) (s : S)
        → All Keeps vs
        → P s
        → P (load_variables parse_url lookup vs s).0
    unfolding load_variables load_variable
    load_variables-keeps [] s k h = h
    load_variables-keeps (v ∷ vs) s (k, ks) h =
        load_variables-keeps vs _ ks (read_raw-keeps v (nonempty (lookup v.name)) s k h)

    -- One of the variables sets it, and those after it keep it.
    abbrev pub IsPut : List (Variable S) → Type 0
    IsPut [] = ⊥
    IsPut (v ∷ vs) = (Sets v × All Keeps vs) ⊎ IsPut vs

    load_variables-sets :
        (vs : List (Variable S)) (s : S)
        → IsPut vs
        → (load_variables parse_url lookup vs s).1 ≡ []
        → P (load_variables parse_url lookup vs s).0
    unfolding load_variables load_variable
    load_variables-sets [] s k n = absurd k
    load_variables-sets (v ∷ vs) s (inl (k, ks)) n = load_variables-keeps vs _ ks (
        read_raw-sets v (nonempty (lookup v.name)) s k
          (append_nil (read_raw parse_url v (nonempty (lookup v.name)) s).1 _ n).0)
    load_variables-sets (v ∷ vs) s (inr k) n =
        load_variables-sets vs _ k
          (append_nil (read_raw parse_url v (nonempty (lookup v.name)) s).1 _ n).1

    checked-state :
        (validate : S → List Fault) (x : S × List Fault) → (checked parse_url validate x).0 ≡ x.0
    unfolding checked
    checked-state validate (s, []) = refl
    checked-state validate (s, e ∷ errs) = refl

    checked-nil :
        (validate : S → List Fault) (x : S × List Fault)
        → (checked parse_url validate x).1 ≡ []
        → (x.1 ≡ []) × (validate x.0 ≡ [])
    unfolding checked
    checked-nil validate (s, []) n = (refl, n)
    checked-nil validate (s, e ∷ errs) n = absurd cc

    -- The group, once it has loaded without a fault, makes `P` hold; or keeps it.
    abbrev pub GroupSets : Group S → Type 0
    GroupSets g =
        (s : S) → (load_group parse_url lookup g s).1 ≡ [] → P (load_group parse_url lookup g s).0

    abbrev pub GroupKeeps : Group S → Type 0
    GroupKeeps g = (s : S) → P s → P (load_group parse_url lookup g s).0

    -- A group without a resolver.
    abbrev plain : List (Variable S) → (S → List Fault) → Group S
    plain vs validate = record { resolver = none; variables = vs; validate = validate }

    pub plain-Keeps :
        (vs : List (Variable S)) (validate : S → List Fault)
        → All Keeps vs
        → GroupKeeps (plain vs validate)
    unfolding load_group resolved
    plain-Keeps vs validate k s h =
        rw (checked-state validate (load_variables parse_url lookup vs s))
          (load_variables-keeps vs s k h)

    pub plain-sets :
        (vs : List (Variable S)) (validate : S → List Fault)
        → IsPut vs
        → GroupSets (plain vs validate)
    unfolding load_group resolved
    plain-sets vs validate k s n =
        rw (checked-state validate (load_variables parse_url lookup vs s)) (
          load_variables-sets vs s k
            (checked-nil validate (load_variables parse_url lookup vs s) n).0)

    -- A group that its resolver fills.
    abbrev filled : (Lookup → S → S × List Fault) → (S → List Fault) → Group S
    filled resolve validate = record {
      resolver = some resolve;
      variables = [];
      validate = validate;
    }

    pub filled-keeps :
        (resolve : Lookup → S → S × List Fault) (validate : S → List Fault)
        → ((s : S) → P s → P (resolve lookup s).0)
        → GroupKeeps (filled resolve validate)
    unfolding load_group resolved load_variables
    filled-keeps resolve validate k s h =
        let (t, before) = resolve lookup s in rw (checked-state validate (t, before ++ [])) (k s h)

    pub filled-sets :
        (resolve : Lookup → S → S × List Fault) (validate : S → List Fault)
        → ((s : S) → (resolve lookup s).1 ≡ [] → P (resolve lookup s).0)
        → GroupSets (filled resolve validate)
    unfolding load_group resolved load_variables
    filled-sets resolve validate k s n =
        let (t, before) = resolve lookup s in
        rw (checked-state validate (t, before ++ []))
          (k s (append_nil before [] (checked-nil validate (t, before ++ []) n).0).0)

    -- One of the groups sets it, and those after it keep it.
    abbrev pub IsHeld : List (Group S) → Type 0
    IsHeld [] = ⊥
    IsHeld (g ∷ gs) = (GroupSets g × All GroupKeeps gs) ⊎ IsHeld gs

    load_groups-keeps :
        (gs : List (Group S)) (s : S)
        → All GroupKeeps gs
        → P s
        → P (load_groups parse_url lookup gs s).0
    unfolding load_groups
    load_groups-keeps [] s k h = h
    load_groups-keeps (g ∷ gs) s (k, ks) h = load_groups-keeps gs _ ks (k s h)

    load_groups-held :
        (gs : List (Group S)) (s : S)
        → IsHeld gs
        → (load_groups parse_url lookup gs s).1 ≡ []
        → P (load_groups parse_url lookup gs s).0
    unfolding load_groups
    load_groups-held [] s k n = absurd k
    load_groups-held (g ∷ gs) s (inl (k, ks)) n =
        load_groups-keeps gs _ ks (k s (append_nil (load_group parse_url lookup g s).1 _ n).0)
    load_groups-held (g ∷ gs) s (inr k) n =
        load_groups-held gs _ k (append_nil (load_group parse_url lookup g s).1 _ n).1

    -- What one of the groups sets and those after it keep holds of settings that load without a
    -- fault.
    pub load-held :
        (gs : List (Group S)) (across : S → List Fault) (s : S)
        → IsHeld gs
        → (load parse_url lookup gs across s).1 ≡ []
        → P (load parse_url lookup gs across s).0
    unfolding load
    load-held gs across s k n =
        rw (checked-state across (load_groups parse_url lookup gs s))
          (load_groups-held gs s k (checked-nil across (load_groups parse_url lookup gs s) n).0)

-- A group's rule holds of the settings that it makes.
pub plain-valid :
    {S : Type 0} (parse_url : Text → Option Url) (lookup : Lookup) (vs : List (Variable S))
    (validate : S → List Fault)
    → GroupSets
        (λ s. validate s ≡ [])
        parse_url
        lookup
        (record { resolver = none; variables = vs; validate = validate })
unfolding load_group resolved
plain-valid parse_url lookup vs validate s n =
    rw
      (checked-state (λ s. validate s ≡ []) parse_url lookup validate
        (load_variables parse_url lookup vs s))
      (checked-nil (λ s. validate s ≡ []) parse_url lookup validate
        (load_variables parse_url lookup vs s) n).1
