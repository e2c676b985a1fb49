-- ===== src/Render/Load.antt =====
-- internal/render/env.go: the groups of settings from the environment.
pub mod Complete
pub mod Held
use otlp_collector_oidc.Prelude.{
  ℕ, Text, bytes, List, [], ◌∷◌, ◌++◌, Option, none, some, if◌then◌else◌, Bool, true, false, split,
  trim_space, is_empty,
}
use otlp_collector_oidc.Prelude.Int.{ℤ}
use otlp_collector_oidc.Prelude.Time.{Duration}
use otlp_collector_oidc.Prelude.Numbers.{parse_int, parse_uint}
use otlp_collector_oidc.Prelude.Result.{Result, ok, err}
use otlp_collector_oidc.Upstream.Resolve.{Lookup, nonempty}
use otlp_collector_oidc.Upstream.Variables.{Url, Fault, variable_error, required, cause}

-- `splitList`, over the items of the split.
unfoldable pub nonblank : List Text → List Text
nonblank [] = []
nonblank (item ∷ items) =
    if is_empty (trim_space item) then nonblank items else trim_space item ∷ nonblank items

unfoldable pub split_list : Text → List Text
split_list raw = nonblank (split b',' raw)

or_error {ℓ} : {A : Type ℓ} → Option A → Text → Result A
or_error none e = err e
or_error (some a) e = ok a

-- The cases of `parseInto` for a duration, an int64 and a uint32.
unfoldable pub parse_duration_field : (Text → Option Duration) → Text → Result Duration
unfolding or_error
parse_duration_field parse_duration raw =
    or_error (parse_duration raw) (bytes "must be a duration such as 30s or 5m")

unfoldable pub parse_int_field : Text → Result ℤ
unfolding or_error
parse_int_field raw = or_error (parse_int raw) (bytes "must be a whole number")

-- A result that Go keeps in a uint32.
unfoldable pub parse_uint32_field : Text → Result ℕ
unfolding or_error
parse_uint32_field raw =
    or_error (parse_uint 32 raw) (bytes "must be a whole number of MiB, 0 to 4294967295")

-- A variable of a group, of the settings `S`: `parse` is `parseInto` for the type of its field, and
-- what it returns of a text sets the field.
pub record Variable (S : Type 0) : Type 0 where
  pub name : Text
  pub required : Bool
  pub def : Text
  pub parse : Text → Result (S → S)

-- A group: its resolver, where it has one, its variables that have fields, and its rule.
pub record Group (S : Type 0) : Type 0 where
  pub resolver : Option (Lookup → S → S × List Fault)
  pub variables : List (Variable S)
  pub validate : S → List Fault

shown_url : Option Url → Text → Text
shown_url none raw = raw
shown_url (some u) raw = if u.has_user then u.redacted else raw

-- `redacted`; `parse_url` is url.Parse.
unfoldable pub redacted : (Text → Option Url) → Text → Text
unfolding shown_url
redacted parse_url raw = shown_url (parse_url raw) raw

module _ {S : Type 0} (parse_url : Text → Option Url) where
  parsed : Variable S → Text → Result (S → S) → S → S × List Fault
  parsed v raw (ok set) s = (set s, [])
  parsed v raw (err e) s = (s, variable_error v.name (redacted parse_url raw) (cause e) ∷ [])

  read_raw : Variable S → Option Text → S → S × List Fault
  unfolding parsed
  read_raw v (some raw) s = parsed v raw (v.parse raw) s
  read_raw v none s =
      if v.required
      then (s, variable_error v.name [] required ∷ [])
      else parsed v v.def (v.parse v.def) s

  -- `variable.load`.
  unfoldable pub load_variable : Lookup → Variable S → S → S × List Fault
  unfolding read_raw
  load_variable lookup v s = read_raw v (nonempty (lookup v.name)) s

  -- The loop over a group's variables.
  unfoldable pub load_variables : Lookup → List (Variable S) → S → S × List Fault
  load_variables lookup [] s = (s, [])
  load_variables lookup (v ∷ vs) s =
      let (t, e) = load_variable lookup v s in
      let (u, errs) = load_variables lookup vs t in (u, e ++ errs)

  resolved : Lookup → Option (Lookup → S → S × List Fault) → S → S × List Fault
  resolved lookup none s = (s, [])
  resolved lookup (some resolve) s = resolve lookup s

  -- The rule of fields that have parsed.
  checked : (S → List Fault) → S × List Fault → S × List Fault
  checked validate (s, []) = (s, validate s)
  checked validate (s, e ∷ errs) = (s, e ∷ errs)

  unfoldable pub load_group : Lookup → Group S → S → S × List Fault
  unfolding resolved checked
  load_group lookup g s =
      let (t, before) = resolved lookup g.resolver s in
      let (u, errs) = load_variables lookup g.variables t in checked g.validate (u, before ++ errs)

  -- The loop over the groups.
  unfoldable pub load_groups : Lookup → List (Group S) → S → S × List Fault
  load_groups lookup [] s = (s, [])
  load_groups lookup (g ∷ gs) s =
      let (t, mine) = load_group lookup g s in
      let (u, errs) = load_groups lookup gs t in (u, mine ++ errs)

  -- `Load`, of the groups and of the rule across them.
  unfoldable pub load : Lookup → List (Group S) → (S → List Fault) → S → S × List Fault
  unfolding checked
  load lookup groups validate s = checked validate (load_groups lookup groups s)
