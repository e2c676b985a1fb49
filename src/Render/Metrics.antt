-- ===== src/Render/Metrics.antt =====
-- internal/render/metrics.go: what a client's metrics keep.
pub mod Laws
use otlp_collector_oidc.Prelude.{
  Text, bytes, ◌==◌, List, [], ◌∷◌, ◌++◌, map, any, if◌then◌else◌, Bool, ◌||◌, is_empty, has_prefix,
  join,
}
use otlp_collector_oidc.Prelude.Result.{Result, ok}
use otlp_collector_oidc.Render.Values.{KeyValue}
use otlp_collector_oidc.Render.Bounds.{Compiled, anchored, read_pattern, ottl_string}

-- `MetricNamePattern.UnmarshalText`; the empty text stands for no pattern.
unfoldable pub read_metric_pattern : (Text → Compiled) → Text → Result Text
read_metric_pattern compile text = if is_empty text then ok [] else read_pattern compile text

unfoldable pub metric_name_filter : Text → Text
metric_name_filter pattern =
    if is_empty pattern
    then bytes "true"
    else bytes "not IsMatch(metric.name, " ++ (ottl_string (anchored pattern) ++ bytes ")")

-- `ottlList`.
unfoldable pub ottl_list : List Text → Text
ottl_list items = b'[' ∷ (join (map ottl_string items) (bytes ", ") ++ b']' ∷ [])

unfoldable pub metric_resource_keys : List Text
metric_resource_keys = bytes "service.name" ∷ bytes "service.version" ∷ []

unfoldable pub metric_resource_reduce : Text
metric_resource_reduce =
    bytes "keep_keys(resource.attributes, " ++ (ottl_list metric_resource_keys ++ bytes ")")

unfoldable pub metric_strip : List Text
metric_strip =
    bytes "keep_keys(scope.attributes, [])"
    ∷ bytes "keep_keys(metric.metadata, [])"
    ∷ bytes "set(datapoint.exemplars, nil)"
    ∷ []

-- A key that a metric never carries.
unfoldable pub identity_key : Text → List KeyValue → Bool
identity_key key claims =
    any (λ prefix. has_prefix key prefix) (bytes "user." ∷ bytes "session." ∷ bytes "enduser." ∷ [])
    || any (λ kv. kv.value == key) claims

-- The loop over the allowed keys.
unfoldable pub kept_keys : List Text → List KeyValue → List Text
kept_keys [] claims = []
kept_keys (key ∷ allowed) claims =
    let rest = kept_keys allowed claims in if identity_key key claims then rest else key ∷ rest

unfoldable pub metric_keep_keys : List Text → List KeyValue → Text
metric_keep_keys allowed claims =
    bytes "keep_keys(datapoint.attributes, " ++ (ottl_list (kept_keys allowed claims) ++ bytes ")")

resource_metrics : List KeyValue → List Text
resource_metrics [] = []
resource_metrics (kv ∷ client_resource) = bytes "resource/metrics" ∷ []

unfoldable pub metric_processors : List KeyValue → List Text
unfolding resource_metrics
metric_processors client_resource =
    (bytes "memory_limiter" ∷ bytes "filter/metrics" ∷ bytes "transform/metrics" ∷ [])
    ++ (resource_metrics client_resource ++ (bytes "deltatocumulative" ∷ bytes "batch" ∷ []))
