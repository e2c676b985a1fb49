-- ===== src/Auth/AuthData.antt =====
-- extension/oidcclientauth/authdata.go: what an authenticated request carries.
pub mod Laws
use otlp_collector_oidc.Prelude.{
  Text, List, [], ◌∷◌, Option, none, some, if◌then◌else◌, is_empty, not, lookup, insert, less,
}
use otlp_collector_oidc.Auth.Claims.{Claims, as_string}

pub record AuthData : Type 0 where
  pub attributes : List (Text × Text)

with_claim : Text → Option Text → List (Text × Text) → List (Text × Text)
with_claim attr none attrs = attrs
with_claim attr (some v) attrs = if not (is_empty v) then insert attr v attrs else attrs

-- The loop over the mapped claims, in the order in which Go happens to walk the map.
set_claims : {F : Type 0} → Claims F → List (Text × Text) → List (Text × Text) → List (Text × Text)
set_claims c [] attrs = attrs
set_claims c ((claim, attr) ∷ more) attrs =
    set_claims c more (with_claim attr (as_string (lookup claim c)) attrs)

-- `maps.Copy(dst, src)`.
copy : List (Text × Text) → List (Text × Text) → List (Text × Text)
copy dst [] = dst
copy dst ((k, v) ∷ src) = copy (insert k v dst) src

unfoldable pub new_auth_data :
    {F : Type 0} → Claims F → List (Text × Text) → List (Text × Text) → AuthData
unfolding set_claims with_claim copy
new_auth_data c claim_attributes resource_attributes = record {
  attributes = copy (set_claims c claim_attributes []) resource_attributes;
}

-- `none` is a nil result.
unfoldable pub get_attribute : AuthData → Text → Option Text
get_attribute d name = lookup name d.attributes

insert_name : Text → List Text → List Text
insert_name name [] = name ∷ []
insert_name name (t ∷ ts) = if less t name then t ∷ insert_name name ts else name ∷ t ∷ ts

-- The names of the entries, sorted.
sorted_names : List (Text × Text) → List Text
unfolding insert_name
sorted_names [] = []
sorted_names ((name, v) ∷ attributes) = insert_name name (sorted_names attributes)

-- `slices.Sorted(maps.Keys(attributes))`.
unfoldable pub get_attribute_names : AuthData → List Text
unfolding sorted_names
get_attribute_names d = sorted_names d.attributes
