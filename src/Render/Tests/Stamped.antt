-- ===== src/Render/Tests/Stamped.antt =====
-- What the rendered actions do, at concrete settings.
use otlp_collector_oidc.Prelude.{
  ◌≡◌, refl, Text, bytes, ◌==◌, ==_refl, List, [], ◌∷◌, Option, none, some, if◌then◌else◌, false,
  Bool-cases, inl, inr, arith, lookup, insert,
}
use otlp_collector_oidc.Render.Values.{KeyValue}
use otlp_collector_oidc.Render.Rules.{
  client_owned, identity_errors, claims_errors, claim_errors, resources_errors, resource_errors,
}
use otlp_collector_oidc.Render.Identity.{
  AttributeAction, ResourceAction, identity_actions, delete_claim, upsert_value, resource_actions,
}
use otlp_collector_oidc.Render.Identity.Laws.{
  Attributes, run_actions, is_target, stamped, identity_actions-stamped,
}
use otlp_collector_oidc.Render.Identity.Resource.{Resource, run_resource, resource_actions-identity}

abbrev claims : List KeyValue
claims = record { key = bytes "sub"; value = bytes "user.id" } ∷ []

-- A processor over attributes as a function of their keys.
set : (Text → Option Text) → Text → Option Text → Text → Option Text
set s target v key = if target == key then v else s key

upserted : (Text → Option Text) → Text → Option Text → Text → Option Text
unfolding set
upserted s target none = s
upserted s target (some v) = set s target (some v)

act : (Text → Option Text) → AttributeAction → (Text → Option Text) → Text → Option Text
unfolding set upserted
act context a s =
    if a.action == bytes "delete"
    then set s a.key none
    else if a.action == bytes "upsert"
    then upserted s a.key (context a.from_context)
    else s

set-same : (s : Text → Option Text) (key : Text) (v : Option Text) → set s key v key ≡ v
unfolding set
set-same s key v = rw (==_refl key)

upserted-other :
    (s : Text → Option Text) (target key : Text) (v : Option Text)
    → (target == key) ≡ false
    → upserted s target v key ≡ s key
unfolding set upserted
upserted-other s target key none h = refl
upserted-other s target key (some v) h = rw h

act-other :
    (context : Text → Option Text) (a : AttributeAction) (s : Text → Option Text) (key : Text)
    → (a.key == key) ≡ false
    → act context a s key ≡ s key
unfolding act set
act-other context a s key h = elim (Bool-cases (a.action == bytes "delete")) [
  | inl e ↦ rw (e, h)
  | inr e ↦ elim (Bool-cases (a.action == bytes "upsert")) [
    | inl f ↦ rw (e, f) (upserted-other s a.key key (context a.from_context) h)
    | inr f ↦ rw (e, f)
  ]
]

act-deletes :
    (context : Text → Option Text) (a : AttributeAction) (s : Text → Option Text)
    → a.action ≡ bytes "delete"
    → act context a s a.key ≡ none
unfolding act bytes ◌==◌
act-deletes context a s e = rw e (set-same s a.key none)

act-upserts :
    (context : Text → Option Text) (a : AttributeAction) (v : Text) (s : Text → Option Text)
    → a.action ≡ bytes "upsert"
    → context a.from_context ≡ some v
    → act context a s a.key ≡ some v
unfolding act bytes ◌==◌ upserted
act-upserts context a v s e h = rw (e, h) (set-same s a.key (some v))

act-skips :
    (context : Text → Option Text) (a : AttributeAction) (s : Text → Option Text)
    → a.action ≡ bytes "upsert"
    → context a.from_context ≡ none
    → act context a s ≡ s
unfolding act bytes ◌==◌ upserted
act-skips context a s e h = rw (e, h)

abbrev attributes : Attributes
attributes = record {
  State = Text → Option Text;
  get = λ s key. s key;
  act = act;
  deletes = act-deletes;
  upserts = act-upserts;
  skips = act-skips;
  other = act-other;
}

abbrev context : Text → Option Text
context key = if key == bytes "auth.user.id" then some (bytes "u1") else none

abbrev forged : Text → Option Text
forged key = some (bytes "root")

identity_actions-stamped_example :
    run_actions attributes context (identity_actions claims) forged (bytes "user.id")
    ≡ stamped attributes context
        (is_target attributes context claims (bytes "user.id"))
        (bytes "user.id")
        (forged (bytes "user.id"))
identity_actions-stamped_example =
    identity_actions-stamped attributes context claims forged (bytes "user.id")

resource_act : ResourceAction → (Text → Option Text) → Text → Option Text
unfolding set
resource_act a s = set s a.key (if a.action == bytes "delete" then none else some a.value)

resource_act-deletes :
    (kv : KeyValue) (s : Text → Option Text) → resource_act (delete_claim kv) s kv.value ≡ none
unfolding resource_act delete_claim bytes ◌==◌
resource_act-deletes kv s = set-same s kv.value none

resource_act-upserts :
    (kv : KeyValue) (s : Text → Option Text)
    → resource_act (upsert_value kv) s kv.key ≡ some kv.value
unfolding resource_act upsert_value bytes ◌==◌
resource_act-upserts kv s = set-same s kv.key (some kv.value)

resource_act-other :
    (a : ResourceAction) (s : Text → Option Text) (key : Text)
    → (a.key == key) ≡ false
    → resource_act a s key ≡ s key
unfolding resource_act set
resource_act-other a s key h = rw h

abbrev resource : Resource
resource = record {
  State = Text → Option Text;
  get = λ s key. s key;
  act = resource_act;
  deletes = resource_act-deletes;
  upserts = resource_act-upserts;
  other = resource_act-other;
}

abbrev stamps : List KeyValue
stamps = record { key = bytes "env"; value = bytes "prod" } ∷ []

rules_hold : identity_errors claims stamps ≡ []
unfolding identity_errors claims_errors claim_errors client_owned resources_errors resource_errors
    bytes ◌==◌ lookup insert
rules_hold = refl

resource_actions-identity_example :
    (resource.get (run_resource resource (resource_actions claims stamps) forged) (bytes "user.id")
      ≡ none)
    × (resource.get
          (run_resource resource (resource_actions claims stamps) forged)
          (bytes "service.name")
        ≡ resource.get forged (bytes "service.name"))
unfolding bytes ◌==◌ client_owned
resource_actions-identity_example =
    resource_actions-identity resource claims stamps forged (bytes "user.id") (bytes "service.name")
      ((λ e. ground arith), tt) rules_hold refl refl
