-- ===== src/Auth/Claims.antt =====
-- A token's payload as encoding/json decodes it into `map[string]any`, and
-- extension/oidcclientauth/authorize.go: what the payload must grant and carry.
pub mod Laws
pub mod Reasons
use otlp_collector_oidc.Prelude.{
  Text, bytes, ◌==◌, contains, lookup, fields, any, is_empty, if◌then◌else◌, Bool, true, false, not,
  ◌||◌, List, [], ◌∷◌, Option, none, some,
}
use otlp_collector_oidc.Auth.Reason.{Rejection, missing_scope, missing_claim}

-- `any`; F is float64, the type of every JSON number.
mutual
  pub data Value (F : Type 0) : Type 0 where
    null : Value F
    boolean : Bool → Value F
    number : F → Value F
    string : Text → Value F
    array : Values F → Value F
    object : Members F → Value F

  pub data Values (F : Type 0) : Type 0 where
    nil : Values F
    cons : Value F → Values F → Values F

  pub data Members (F : Type 0) : Type 0 where
    end : Members F
    member : Text → Value F → Members F → Members F

abbrev pub Claims : Type 0 → Type 0
Claims F = List (Text × Value F)

pub record Authorizer : Type 0 where
  pub scope : Text
  pub claims : List Text

string_grants : Option Text → Text → Bool
string_grants none scope = false
string_grants (some s) scope = contains (fields s) scope

module _ {F : Type 0} where
  -- `v.(string)`; a missing claim reads as a nil `any`.
  abbrev pub as_string : Option (Value F) → Option Text
  as_string (some (string s)) = some s
  as_string _ = none

  -- The loops over an array that look for the string `s`.
  unfoldable pub has_string : Values F → Text → Bool
  has_string nil s = false
  has_string (cons (string t) vs) s = t == s || has_string vs s
  has_string (cons _ vs) s = has_string vs s

  scp_grants : Option (Value F) → Text → Bool
  scp_grants (some (string s)) scope = contains (fields s) scope
  scp_grants (some (array vs)) scope = has_string vs scope
  scp_grants _ scope = false

  unfoldable pub grants_scope : Claims F → Text → Bool
  unfolding string_grants scp_grants
  grants_scope c scope =
      string_grants (as_string (lookup (bytes "scope") c)) scope
      || scp_grants (lookup (bytes "scp") c) scope

  -- Go's `nonEmpty(c[name])`; `none` is the nil that a missing claim reads as.
  unfoldable pub non_empty : Option (Value F) → Bool
  non_empty none = false
  non_empty (some null) = false
  non_empty (some (string t)) = not (is_empty t)
  non_empty (some (array nil)) = false
  non_empty (some (object end)) = false
  non_empty (some _) = true

  -- The loop over the required claims.
  pub first_missing : List Text → Claims F → Option Rejection
  first_missing [] c = none
  first_missing (name ∷ names) c =
      if not (non_empty (lookup name c)) then some (missing_claim name) else first_missing names c

  -- `none` is the nil rejection: the claims are authorized.
  unfoldable pub authorize : Authorizer → Claims F → Option Rejection
  unfolding first_missing
  authorize a c =
      if not (grants_scope c a.scope)
      then some (missing_scope a.scope)
      else first_missing a.claims c
