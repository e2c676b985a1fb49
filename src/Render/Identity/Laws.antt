-- ===== src/Render/Identity/Laws.antt =====
-- What a span's or a record's attributes are once the identity actions are done.
use otlp_collector_oidc.Prelude.{
  ◌≡◌, refl, ap, ◌∙◌, Text, bytes, ◌==◌, ==_iff, List, [], ◌∷◌, ◌++◌, any, Option, none, some,
  Option-cases, subst, Bool, true, false, Bool-cases, inl, inr,
}
use otlp_collector_oidc.Render.Values.{KeyValue}
use otlp_collector_oidc.Render.Identity.{
  AttributeAction, delete_attribute, upsert_claim, identity_actions,
}

-- The collector's attributes processor: one action on attributes, with the keys of the client's
-- context at hand. `deletes`, `upserts` and `skips` are what its documentation says of the actions
-- it names `delete` and `upsert`, the latter with `from_context`.
pub record Attributes : Type 1 where
  pub State : Type 0
  pub get : State → Text → Option Text
  pub act : (Text → Option Text) → AttributeAction → State → State
  pub deletes :
      (context : Text → Option Text) (a : AttributeAction) (s : State)
      → a.action ≡ bytes "delete"
      → get (act context a s) a.key ≡ none
  pub upserts :
      (context : Text → Option Text) (a : AttributeAction) (v : Text) (s : State)
      → a.action ≡ bytes "upsert"
      → context a.from_context ≡ some v
      → get (act context a s) a.key ≡ some v
  pub skips :
      (context : Text → Option Text) (a : AttributeAction) (s : State)
      → a.action ≡ bytes "upsert"
      → context a.from_context ≡ none
      → act context a s ≡ s
  pub other :
      (context : Text → Option Text) (a : AttributeAction) (s : State) (key : Text)
      → (a.key == key) ≡ false
      → get (act context a s) key ≡ get s key

module _ (p : Attributes) (context : Text → Option Text) where
  open p use {State, get, act}

  -- The actions in their order.
  abbrev pub run_actions : List AttributeAction → State → State
  run_actions [] s = s
  run_actions (a ∷ actions) s = run_actions actions (act context a s)

  -- The attributes that the claims set.
  abbrev pub is_target : List KeyValue → Text → Bool
  is_target claims key = any (λ kv. kv.value == key) claims

  -- What a key holds: for a claim's attribute what the context has, and else what it held.
  abbrev pub stamped : Bool → Text → Option Text → Option Text
  stamped true key old = context (bytes "auth." ++ key)
  stamped false key old = old

  set_claim : State → Text → State
  set_claim s key = act context (upsert_claim key) (act context (delete_attribute key) s)

  set_claim-same :
      (s : State) (key : Text) → get (set_claim s key) key ≡ context (bytes "auth." ++ key)
  unfolding set_claim delete_attribute upsert_claim
  set_claim-same s key = elim (Option-cases (context (bytes "auth." ++ key))) [
    | inl e ↦ rw e (
        ap (λ t. get t key)
          (p.skips context (upsert_claim key) (act context (delete_attribute key) s) refl e)
        ∙ p.deletes context (delete_attribute key) s refl)
    | inr (v, e) ↦
        rw e (p.upserts context (upsert_claim key) v (act context (delete_attribute key) s) refl e)
  ]

  set_claim-other :
      (s : State) (target key : Text)
      → (target == key) ≡ false
      → get (set_claim s target) key ≡ get s key
  unfolding set_claim delete_attribute upsert_claim
  set_claim-other s target key n =
      p.other context (upsert_claim target) _ key n
      ∙ p.other context (delete_attribute target) s key n

  stamped_again :
      (b : Bool) (key : Text) (old : Option Text)
      → stamped b key (context (bytes "auth." ++ key)) ≡ context (bytes "auth." ++ key)
  stamped_again true key old = refl
  stamped_again false key old = refl

  -- Once the identity actions are done, each claim's attribute holds what the authenticated context
  -- has for it, and nothing where the context has nothing, whatever the client sent; every other
  -- attribute is as it was.
  pub identity_actions-stamped :
      (claims : List KeyValue) (s : State) (key : Text)
      → get (run_actions (identity_actions claims) s) key
        ≡ stamped (is_target claims key) key (get s key)
  unfolding identity_actions set_claim
  identity_actions-stamped [] s key = refl
  identity_actions-stamped (kv ∷ claims) s key =
      identity_actions-stamped claims (set_claim s kv.value) key
      ∙ elim (Bool-cases (kv.value == key)) [
        | inl e ↦ rw e (
            ap (stamped (is_target claims key) key) (
              subst (λ k. get (set_claim s kv.value) k ≡ context (bytes "auth." ++ k))
                ((==_iff kv.value key).0 e) (set_claim-same s kv.value))
            ∙ stamped_again (is_target claims key) key (get s key))
        | inr e ↦ rw e (ap (stamped (is_target claims key) key) (set_claim-other s kv.value key e))
      ]
