-- ===== src/Render/Identity/Resource.antt =====
-- What a client's resource is once the resource actions are done.
use otlp_collector_oidc.Prelude.{
  ◌≡◌, ◌≢◌, refl, ap, ◌∙◌, Text, ◌==◌, ==_iff, List, [], ◌∷◌, ◌++◌, map, any, contains, Option,
  none, some, if◌then◌else◌, subst, All, All-map, Bool, true, false, ◌||◌, Bool-cases, inl, inr,
}
use otlp_collector_oidc.Render.Values.{KeyValue}
use otlp_collector_oidc.Render.Rules.{client_owned, identity_errors}
use otlp_collector_oidc.Render.Rules.Identity.{IsAttribute, identity_errors-IsIdentity}
use otlp_collector_oidc.Render.Identity.{
  ResourceAction, delete_claim, upsert_value, resource_actions,
}

-- The collector's resource processor: one action on a resource's attributes, with what its
-- documentation says of it.
pub record Resource : Type 1 where
  pub State : Type 0
  pub get : State → Text → Option Text
  pub act : ResourceAction → State → State
  pub deletes : (kv : KeyValue) (s : State) → get (act (delete_claim kv) s) kv.value ≡ none
  pub upserts : (kv : KeyValue) (s : State) → get (act (upsert_value kv) s) kv.key ≡ some kv.value
  pub other :
      (a : ResourceAction) (s : State) (key : Text)
      → (a.key == key) ≡ false
      → get (act a s) key ≡ get s key

contains-any :
    (claims : List KeyValue) (key : Text)
    → contains (map (λ c. c.value) claims) key ≡ any (λ kv. kv.value == key) claims
unfolding contains
contains-any [] key = refl
contains-any (kv ∷ claims) key = ap (λ b. (kv.value == key) || b) (contains-any claims key)

apart_of_target :
    (claims : List KeyValue) (key target : Text)
    → any (λ kv. kv.value == target) claims ≡ true
    → contains (map (λ c. c.value) claims) key ≡ false
    → (key == target) ≡ false
apart_of_target claims key target t free = elim (Bool-cases (key == target)) [
  | inr e ↦ e
  | inl e ↦
      let same = (==_iff key target).0 e in
      let found = contains-any claims target ∙ t in
      let missing = subst (λ k. contains (map (λ c. c.value) claims) k ≡ false) same free in
      absurd cc
]

apart_of_owned :
    (key owned : Text)
    → client_owned key ≡ false
    → client_owned owned ≡ true
    → (key == owned) ≡ false
apart_of_owned key owned free o = elim (Bool-cases (key == owned)) [
  | inr e ↦ e
  | inl e ↦ let same = ap client_owned ((==_iff key owned).0 e) in absurd cc
]

no_target :
    (claims : List KeyValue) (owned : Text)
    → client_owned owned ≡ true
    → All (λ c. IsAttribute c.value) claims
    → any (λ kv. kv.value == owned) claims ≡ false
no_target [] owned o h = refl
no_target (kv ∷ claims) owned o (a, h) =
    rw (apart_of_owned kv.value owned a.free o) (no_target claims owned o h)

module _ (r : Resource) where
  open r use {State, get, act}

  abbrev pub run_resource : List ResourceAction → State → State
  run_resource [] s = s
  run_resource (a ∷ actions) s = run_resource actions (act a s)

  -- What a key holds after the values are set in their order.
  abbrev pub put_values : List KeyValue → Text → Option Text → Option Text
  put_values [] key old = old
  put_values (kv ∷ values) key old =
      put_values values key (if kv.key == key then some kv.value else old)

  run_resource-append :
      (first second : List ResourceAction) (s : State)
      → run_resource (first ++ second) s ≡ run_resource second (run_resource first s)
  run_resource-append [] second s = refl
  run_resource-append (a ∷ first) second s = run_resource-append first second (act a s)

  upserted :
      (kv : KeyValue) (s : State) (key : Text)
      → get (act (upsert_value kv) s) key ≡ (if kv.key == key then some kv.value else get s key)
  unfolding upsert_value
  upserted kv s key = elim (Bool-cases (kv.key == key)) [
    | inl e ↦ rw e (
        subst (λ k. get (act (upsert_value kv) s) k ≡ some kv.value) ((==_iff kv.key key).0 e)
          (r.upserts kv s))
    | inr e ↦ rw e (r.other (upsert_value kv) s key e)
  ]

  deleted :
      (kv : KeyValue) (s : State) (key : Text)
      → get (act (delete_claim kv) s) key ≡ (if kv.value == key then none else get s key)
  unfolding delete_claim
  deleted kv s key = elim (Bool-cases (kv.value == key)) [
    | inl e ↦ rw e (
        subst (λ k. get (act (delete_claim kv) s) k ≡ none) ((==_iff kv.value key).0 e)
          (r.deletes kv s))
    | inr e ↦ rw e (r.other (delete_claim kv) s key e)
  ]

  abbrev removed : Bool → Option Text → Option Text
  removed true old = none
  removed false old = old

  removed_if : (b : Bool) (old : Option Text) → removed b old ≡ (if b then none else old)
  removed_if true old = refl
  removed_if false old = refl

  upserts-values :
      (values : List KeyValue) (s : State) (key : Text)
      → get (run_resource (map upsert_value values) s) key ≡ put_values values key (get s key)
  upserts-values [] s key = refl
  upserts-values (kv ∷ values) s key =
      upserts-values values (act (upsert_value kv) s) key
      ∙ ap (put_values values key) (upserted kv s key)

  removed_twice :
      (a b : Bool) (old : Option Text) → removed b (if a then none else old) ≡ removed (a || b) old
  removed_twice true true old = refl
  removed_twice true false old = refl
  removed_twice false b old = refl

  deletes-claims :
      (claims : List KeyValue) (s : State) (key : Text)
      → get (run_resource (map delete_claim claims) s) key
        ≡ removed (any (λ kv. kv.value == key) claims) (get s key)
  deletes-claims [] s key = refl
  deletes-claims (kv ∷ claims) s key =
      deletes-claims claims (act (delete_claim kv) s) key
      ∙ ap (removed (any (λ c. c.value == key) claims)) (deleted kv s key)
      ∙ removed_twice (kv.value == key) (any (λ c. c.value == key) claims) (get s key)

  -- Once the resource actions are done, each of the deployment's attributes has the value that the
  -- deployment gives it last, every other attribute that a claim sets is gone, whatever the client
  -- sent, and the rest is as it was.
  pub resource_actions-values :
      (claims client_resource : List KeyValue) (s : State) (key : Text)
      → get (run_resource (resource_actions claims client_resource) s) key
        ≡ put_values client_resource key
            (if any (λ kv. kv.value == key) claims then none else get s key)
  unfolding resource_actions
  resource_actions-values claims client_resource s key =
      ap (λ t. get t key)
        (run_resource-append (map delete_claim claims) (map upsert_value client_resource) s)
      ∙ upserts-values client_resource (run_resource (map delete_claim claims) s) key
      ∙ ap (put_values client_resource key) (
          deletes-claims claims s key ∙ removed_if (any (λ kv. kv.value == key) claims) (get s key))

  not_put :
      (values : List KeyValue) (key : Text) (old : Option Text)
      → All (λ kv. (kv.key == key) ≡ false) values
      → put_values values key old ≡ old
  not_put [] key old h = refl
  not_put (kv ∷ values) key old (n, h) = rw n (not_put values key old h)

  -- With settings that validate and claims that have names, a client's resource keeps no attribute
  -- that a claim sets, and what it says as service.name and service.version it keeps.
  pub resource_actions-identity :
      (claims client_resource : List KeyValue) (s : State) (target owned : Text)
      → All (λ c. c.key ≢ []) claims
      → identity_errors claims client_resource ≡ []
      → any (λ kv. kv.value == target) claims ≡ true
      → client_owned owned ≡ true
      → (get (run_resource (resource_actions claims client_resource) s) target ≡ none)
        × (get (run_resource (resource_actions claims client_resource) s) owned ≡ get s owned)
  resource_actions-identity claims client_resource s target owned named valid t o =
      let rules = identity_errors-IsIdentity claims client_resource named valid in
      (
        resource_actions-values claims client_resource s target
            ∙ rw t (
                not_put client_resource target none (
                  All-map _ _ client_resource
                    (λ kv (_, free). apart_of_target claims kv.key target t free) rules.apart)),
        resource_actions-values claims client_resource s owned
            ∙ rw (no_target claims owned o rules.settable) (
                not_put client_resource owned (get s owned) (
                  All-map _ _ client_resource (λ kv (free, _). apart_of_owned kv.key owned free o)
                    rules.apart)),
      )
