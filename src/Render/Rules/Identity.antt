-- ===== src/Render/Rules/Identity.antt =====
-- internal/render/env.go: the claims' attributes and the client's, once their rule holds.
use otlp_collector_oidc.Prelude.{
  append_nil, ◌≡◌, ◌≢◌, refl, inl, inr, Text, ◌==◌, ==_symm, contains, List, [], ◌∷◌, map, true,
  false, not, ◌||◌, is_empty, Entries, lookup, insert, lookup-insert, All, All-map, arith,
  Bool-cases,
}
use otlp_collector_oidc.Prelude.Ordered.Laws.{IsDistinct}
use otlp_collector_oidc.Render.Values.{KeyValue}
use otlp_collector_oidc.Render.Rules.{
  client_owned, target_of, claim_errors, claims_errors, resource_errors, resources_errors,
  no_claims, identity_errors,
}

-- The map has a claim for each of the attributes, and for no other.
abbrev IsTargets : Entries Text → List Text → Type 0
IsTargets targets seen =
    (a : Text) → is_empty (target_of (lookup a targets)) ≡ not (contains seen a)

insert-IsTargets :
    (targets : Entries Text) (seen : List Text) (kv : KeyValue)
    → kv.key ≢ []
    → IsTargets targets seen
    → IsTargets (insert kv.value kv.key targets) (kv.value ∷ seen)
unfolding contains
insert-IsTargets targets seen kv ne inv a =
    rw (lookup-insert kv.value a kv.key targets)
      (elim (Bool-cases (kv.value == a)) [ inl e ↦ rw e (filled kv.key ne) | inr e ↦ rw e (inv a) ])
  where
    filled : (s : Text) → s ≢ [] → is_empty s ≡ false
    filled [] h = absurd (h refl)
    filled (b ∷ s) h = refl

-- An attribute that a claim may set.
pub record IsAttribute (a : Text) : Type 0 where
  pub given : a ≢ []
  pub free : client_owned a ≡ false

claim_errors-nil :
    (targets : Entries Text) (seen : List Text) (kv : KeyValue)
    → IsTargets targets seen
    → claim_errors targets kv ≡ []
    → IsAttribute kv.value × (contains seen kv.value ≡ false)
unfolding claim_errors
claim_errors-nil targets seen kv inv h = elim (Bool-cases (is_empty kv.value)) [
  | inl e ↦ absurd (ground (arith, rw e at h))
  | inr e ↦ elim (Bool-cases (client_owned kv.value)) [
    | inl f ↦ absurd (ground (arith, rw (e, f) at h))
    | inr f ↦ elim (Bool-cases (is_empty (target_of (lookup kv.value targets)))) [
      | inl g ↦
          (record { given = λ q. ground (arith, e, q); free = f }, ground (arith, inv kv.value, g))
      | inr g ↦ absurd (ground (arith, rw (e, f, g) at h))
    ]
  ]
]

fresh_head :
    (x : Text) (seen : List Text) (claims : List KeyValue)
    → All (λ c. contains (x ∷ seen) c.value ≡ false) claims
    → (contains (map (λ c. c.value) claims) x ≡ false)
      × All (λ c. contains seen c.value ≡ false) claims
unfolding contains
fresh_head x seen [] h = (refl, tt)
fresh_head x seen (c ∷ claims) (p, h) =
    let (a, b) = fresh_head x seen claims h in
    (ground (arith, p, a, ==_symm c.value x), (ground (arith, p), b))

-- The attributes that the claims set, in the order of the map.
abbrev all_values : List KeyValue → List Text → List Text
all_values [] seen = seen
all_values (c ∷ claims) seen = all_values claims (c.value ∷ seen)

claims_errors-nil :
    (claims : List KeyValue) (targets : Entries Text) (seen : List Text)
    → All (λ c. c.key ≢ []) claims
    → IsTargets targets seen
    → (claims_errors targets claims).0 ≡ []
    → All (λ c. IsAttribute c.value) claims
      × All (λ c. contains seen c.value ≡ false) claims
      × IsDistinct (map (λ c. c.value) claims)
      × IsTargets (claims_errors targets claims).1 (all_values claims seen)
unfolding claims_errors
claims_errors-nil [] targets seen keys inv h = (tt, tt, tt, inv)
claims_errors-nil (kv ∷ claims) targets seen (ne, keys) inv h =
    let (mine, rest) = append_nil (claim_errors targets kv) _ h in
    let (good, fresh) = claim_errors-nil targets seen kv inv mine in
    let (all, new, distinct, final) =
      claims_errors-nil claims (insert kv.value kv.key targets) (kv.value ∷ seen) keys
        (insert-IsTargets targets seen kv ne inv) rest in
    let (apart, others) = fresh_head kv.value seen claims new in
    ((good, all), (fresh, others), (apart, distinct), final)

contains_all :
    (claims : List KeyValue) (seen : List Text) (a : Text)
    → contains (all_values claims seen) a
      ≡ contains (map (λ c. c.value) claims) a || contains seen a
unfolding contains
contains_all [] seen a = refl
contains_all (c ∷ claims) seen a = ground (arith, contains_all claims (c.value ∷ seen) a)

resource_errors-nil :
    (targets : Entries Text) (kv : KeyValue)
    → resource_errors targets kv ≡ []
    → (client_owned kv.key ≡ false) × (is_empty (target_of (lookup kv.key targets)) ≡ true)
unfolding resource_errors
resource_errors-nil targets kv h = elim (Bool-cases (client_owned kv.key)) [
  | inl f ↦ absurd (ground (arith, rw f at h))
  | inr f ↦ elim (Bool-cases (is_empty (target_of (lookup kv.key targets)))) [
    | inl g ↦ (f, g)
    | inr g ↦ absurd (ground (arith, rw (f, g) at h))
  ]
]

resources_errors-nil :
    (attributes : List KeyValue) (targets : Entries Text) (values : List Text)
    → IsTargets targets values
    → resources_errors targets attributes ≡ []
    → All (λ a. (client_owned a.key ≡ false) × (contains values a.key ≡ false)) attributes
unfolding resources_errors
resources_errors-nil [] targets values inv h = tt
resources_errors-nil (kv ∷ attributes) targets values inv h =
    let (mine, rest) = append_nil (resource_errors targets kv) _ h in
    let (free, unset) = resource_errors-nil targets kv mine in
    (
      (free, ground (arith, inv kv.key, unset)),
      resources_errors-nil attributes targets values inv rest,
    )

-- Each claim has one attribute of its own, and neither a claim nor the stamp on a client's resource
-- touches what the client says of itself or what a claim says.
pub record IsIdentity (claims attributes : List KeyValue) : Type 0 where
  pub some_claim : claims ≢ []
  pub settable : All (λ c. IsAttribute c.value) claims
  pub distinct : IsDistinct (map (λ c. c.value) claims)
  pub apart :
      All
        (λ a. (client_owned a.key ≡ false) × (contains (map (λ c. c.value) claims) a.key ≡ false))
        attributes

some_claims : (claims : List KeyValue) → no_claims claims ≡ [] → claims ≢ []
unfolding no_claims
some_claims [] h e = absurd cc
some_claims (c ∷ claims) h e = cc

-- Settings without an error, whose claims have names, keep each claim to one attribute that is
-- neither the client's own nor stamped on its resource.
pub identity_errors-IsIdentity :
    (claims attributes : List KeyValue)
    → All (λ c. c.key ≢ []) claims
    → identity_errors claims attributes ≡ []
    → IsIdentity claims attributes
unfolding identity_errors lookup contains
identity_errors-IsIdentity claims attributes keys h =
    let (counted, rest) = append_nil (no_claims claims) _ h in
    let (checked, stamped) = append_nil (claims_errors [] claims).0 _ rest in
    let (settable, _, distinct, final) = claims_errors-nil claims [] [] keys (λ a. refl) checked in
    let resources =
      resources_errors-nil attributes (claims_errors [] claims).1 (all_values claims []) final
        stamped in
    record {
      some_claim = some_claims claims counted;
      settable = settable;
      distinct = distinct;
      apart =
          All-map _ _ attributes
            (λ a (free, other). (free, ground (arith, other, contains_all claims [] a.key)))
            resources;
    }
