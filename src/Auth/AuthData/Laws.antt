-- ===== src/Auth/AuthData/Laws.antt =====
-- Where the attributes of a request come from.
use otlp_collector_oidc.Prelude.{
  ◌≡◌, refl, Text, List, [], ◌∷◌, ◌++◌, Option, none, some, if◌then◌else◌, Bool, true, false, ◌==◌,
  lookup, insert, lookup-insert, ◌||◌, contains, Bool-cases, inl, inr, ◌↔◌, ◌≢◌, less,
}
use otlp_collector_oidc.Auth.Claims.{Claims, as_string}
use otlp_collector_oidc.Auth.AuthData.{
  AuthData, with_claim, set_claims, copy, new_auth_data, get_attribute, insert_name, sorted_names,
  get_attribute_names,
}

-- The first of two values that there is.
infixr 20 ◌or_else◌
abbrev pub ◌or_else◌ : Option Text → Option Text → Option Text
none or_else w = w
some v or_else w = some v

-- What the last of the entries for a name says.
abbrev pub final : Text → List (Text × Text) → Option Text
final name [] = none
final name ((k, v) ∷ m) = final name m or_else (if k == name then some v else none)

or_else_assoc : (a b c : Option Text) → ((a or_else b) or_else c) ≡ (a or_else (b or_else c))
or_else_assoc none b c = refl
or_else_assoc (some v) b c = refl

or_else-none : (a : Option Text) → (a or_else none) ≡ a
or_else-none none = refl
or_else-none (some v) = refl

or_else_if :
    (b : Bool) (v : Text) (o : Option Text)
    → ((if b then some v else none) or_else o) ≡ (if b then some v else o)
or_else_if true v o = refl
or_else_if false v o = refl

lookup-copy :
    (name : Text) (dst src : List (Text × Text))
    → lookup name (copy dst src) ≡ (final name src or_else lookup name dst)
unfolding copy
lookup-copy name dst [] = refl
lookup-copy name dst ((k, v) ∷ src) = rw (
  lookup-copy name (insert k v dst) src,
  lookup-insert k name v dst,
  or_else_assoc (final name src) (if k == name then some v else none) (lookup name dst),
  or_else_if (k == name) v (lookup name dst),
)

-- The entry that a claim's value makes: none unless it is a non-empty string.
abbrev pub entry : Text → Option Text → List (Text × Text)
entry attr none = []
entry attr (some []) = []
entry attr (some (b ∷ v)) = (attr, b ∷ v) ∷ []

with_claim-copy :
    (attr : Text) (o : Option Text) (attrs more : List (Text × Text))
    → copy attrs (entry attr o ++ more) ≡ copy (with_claim attr o attrs) more
unfolding copy with_claim
with_claim-copy attr none attrs more = refl
with_claim-copy attr (some []) attrs more = refl
with_claim-copy attr (some (b ∷ v)) attrs more = refl

module _ {F : Type 0} where
  abbrev pub mapped : Claims F → List (Text × Text) → List (Text × Text)
  mapped c [] = []
  mapped c ((claim, attr) ∷ more) = entry attr (as_string (lookup claim c)) ++ mapped c more

  set_claims-copy :
      (c : Claims F) (claims attrs : List (Text × Text))
      → set_claims c claims attrs ≡ copy attrs (mapped c claims)
  unfolding set_claims copy
  set_claims-copy c [] attrs = refl
  set_claims-copy c ((claim, attr) ∷ more) attrs = rw (
    with_claim-copy attr (as_string (lookup claim c)) attrs (mapped c more),
    set_claims-copy c more (with_claim attr (as_string (lookup claim c)) attrs),
  )

  -- An attribute is what the deployment states for its name, and only where it states nothing, what
  -- the token's claim that is mapped to the name says, if that is a non-empty string: the last such
  -- claim walked, should several be mapped to it. No other attribute is there.
  pub get_attribute-new_auth_data :
      (c : Claims F) (claims resources : List (Text × Text)) (name : Text)
      → get_attribute (new_auth_data c claims resources) name
        ≡ (final name resources or_else final name (mapped c claims))
  unfolding get_attribute new_auth_data lookup
  get_attribute-new_auth_data c claims resources name = rw (
    lookup-copy name (set_claims c claims []) resources,
    set_claims-copy c claims [],
    lookup-copy name [] (mapped c claims),
    or_else-none (final name (mapped c claims)),
  )

or_swap : (a b c : Bool) → (a || (b || c)) ≡ (b || (a || c))
or_swap true true c = refl
or_swap true false c = refl
or_swap false b c = refl

contains-insert_name :
    (name k : Text) (ts : List Text)
    → contains (insert_name name ts) k ≡ (name == k || contains ts k)
unfolding insert_name contains
contains-insert_name name k [] = refl
contains-insert_name name k (t ∷ ts) = elim (Bool-cases (less t name)) [
  | inl e ↦ rw (e, contains-insert_name name k ts) (or_swap (t == k) (name == k) (contains ts k))
  | inr e ↦ rw e refl
]

names_of_entries :
    (l : List (Text × Text)) (name : Text)
    → (contains (sorted_names l) name ≡ true) ↔ (lookup name l ≢ none)
unfolding sorted_names lookup contains
names_of_entries [] name = (λ h. absurd cc, λ n. absurd (n refl))
names_of_entries ((k, v) ∷ l) name =
    rw (contains-insert_name k name (sorted_names l)) (elim (Bool-cases (k == name)) [
      | inl e ↦ rw e (λ h z. absurd cc, λ n. refl)
      | inr e ↦ rw e (names_of_entries l name)
    ])

-- The names are those that have an attribute.
pub get_attribute_names-contains :
    (d : AuthData) (name : Text)
    → (contains (get_attribute_names d) name ≡ true) ↔ (get_attribute d name ≢ none)
unfolding get_attribute_names get_attribute
get_attribute_names-contains d name = names_of_entries d.attributes name
