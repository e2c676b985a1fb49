-- ===== src/Render/Identity.antt =====
-- internal/render/identity.go: the actions that stamp identity onto what a client sends.
pub mod Laws
pub mod Resource
use otlp_collector_oidc.Prelude.{Text, bytes, List, [], ◌∷◌, ◌++◌, map}
use otlp_collector_oidc.Render.Values.{KeyValue}

pub record AttributeAction : Type 0 where
  pub key : Text
  pub action : Text
  pub from_context : Text

pub record ResourceAction : Type 0 where
  pub key : Text
  pub action : Text
  pub value : Text

unfoldable pub delete_attribute : Text → AttributeAction
delete_attribute key = record { key = key; action = bytes "delete"; from_context = [] }

unfoldable pub upsert_claim : Text → AttributeAction
upsert_claim key = record {
  key = key;
  action = bytes "upsert";
  from_context = bytes "auth." ++ key;
}

unfoldable pub identity_actions : List KeyValue → List AttributeAction
identity_actions [] = []
identity_actions (kv ∷ claims) =
    delete_attribute kv.value ∷ upsert_claim kv.value ∷ identity_actions claims

unfoldable pub delete_claim : KeyValue → ResourceAction
delete_claim kv = record { key = kv.value; action = bytes "delete"; value = [] }

unfoldable pub upsert_value : KeyValue → ResourceAction
upsert_value kv = record { key = kv.key; action = bytes "upsert"; value = kv.value }

unfoldable pub resource_actions : List KeyValue → List KeyValue → List ResourceAction
unfolding delete_claim upsert_value
resource_actions claims client_resource =
    map delete_claim claims ++ map upsert_value client_resource

unfoldable pub identity_processors : List Text
identity_processors =
    bytes "memory_limiter"
    ∷ bytes "filter/bounds"
    ∷ bytes "transform/bounds"
    ∷ bytes "attributes/identity"
    ∷ bytes "resource/identity"
    ∷ bytes "batch"
    ∷ []
