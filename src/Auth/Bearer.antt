-- ===== src/Auth/Bearer.antt =====
-- extension/oidcclientauth/bearer.go: the token of a request.
pub mod Laws
use otlp_collector_oidc.Prelude.{
  Text, bytes, equal_fold, cut, trim_space, is_empty, if◌then◌else◌, Bool, true, false, ◌||◌, not,
  List, [], ◌∷◌, ◌++◌, Option, none, some,
}

-- A `map[string][]string`. The order of its entries is the order in which Go happens to walk it.
abbrev pub Headers : Type 0
Headers = List (Text × List Text)

-- The loop that collects the values of every header whose name folds to `authorization`.
unfoldable pub authorization_values : Headers → List Text
authorization_values [] = []
authorization_values ((k, v) ∷ sources) =
    (if equal_fold k (bytes "authorization") then v else []) ++ authorization_values sources

token_of : Text × Text × Bool → Option Text
token_of (scheme, rest, found) =
    if not found || not (equal_fold scheme (bytes "bearer"))
    then none
    else let token = trim_space rest in if is_empty token then none else some token

unfoldable pub bearer_value : List Text → Option Text
unfolding token_of
bearer_value (value ∷ []) = token_of (cut b' ' value)
bearer_value _ = none

-- `none` is the result `"", false`.
unfoldable pub bearer_token : Headers → Option Text
unfolding authorization_values bearer_value
bearer_token sources = bearer_value (authorization_values sources)
