-- ===== src/Render/Table.antt =====
-- internal/render/env.go: the variables of every group, with their defaults.
pub mod Required
pub mod Kept
pub mod Held
pub mod Rest
pub mod Valid
use otlp_collector_oidc.Prelude.{
  Text, bytes, List, [], ◌∷◌, map, none, some, Option, Bool, true, false,
}
use otlp_collector_oidc.Prelude.Int.{ℤ, pos}
use otlp_collector_oidc.Prelude.Time.{Duration}
use otlp_collector_oidc.Prelude.Result.{Result, ok, err, ◌>>=◌}
use otlp_collector_oidc.Upstream.Variables.{Fault, rule_error}
use otlp_collector_oidc.Upstream.Resolve.{Library, Lookup}
use otlp_collector_oidc.Upstream.Resolve.Signals.{Configs}
use otlp_collector_oidc.Render.Values.{
  Addr, read_addr, read_log_level, read_log_format, read_log_output, read_list,
}
use otlp_collector_oidc.Render.Rules.{
  identity_errors, bounds_errors, metric_errors, listener_errors, memory_errors, settings_errors,
}
use otlp_collector_oidc.Render.Load.{
  Variable, Group, split_list, parse_duration_field, parse_int_field, parse_uint32_field,
}
use otlp_collector_oidc.Render.Exporters.{resolve_settings, logs}
use otlp_collector_oidc.Render.Bounds.{Compiled, read_pattern}
use otlp_collector_oidc.Render.Metrics.{read_metric_pattern}
use otlp_collector_oidc.Render.Settings.{Settings, LogSettings}

-- The packages that read the variables' texts and write them into errors.
pub record Packages : Type 0 where
  pub library : Library
  -- regexp.Compile, net.SplitHostPort, Duration.String, and `%d`.
  pub compile : Text → Compiled
  pub split_host_port : Text → Option (Text × Text)
  pub show_duration : Duration → Text
  pub show_int : ℤ → Text

module _ {A : Type 0} {S : Type 0} where
  -- `parseInto`, of a field of one type.
  unfoldable pub parse_field : (Text → Result A) → (A → S → S) → Text → Result (S → S)
  parse_field read set raw = read raw >>= λ v. ok (set v)

  unfoldable pub variable : Text → Bool → Text → (Text → Result A) → (A → S → S) → Variable S
  variable name required def read set = record {
    name = name;
    required = required;
    def = def;
    parse = parse_field read set;
  }

module _ (p : Packages) where
  duration : Text → Result Duration
  duration raw = parse_duration_field p.library.parse_duration raw

  list : Text → Result (List Text)
  list raw = ok (split_list raw)

  addr : Text → Result Addr
  addr raw = read_addr p.split_host_port raw

  unfoldable pub identity_variables : List (Variable Settings)
  unfolding duration list addr
  identity_variables =
      variable (bytes "OIDC_ISSUER_URL") true [] ok
        (λ v s. record s { identity = record s.identity { issuer_url = v } })
      ∷ variable (bytes "OIDC_AUDIENCE") true [] ok
          (λ v s. record s { identity = record s.identity { audience = v } })
      ∷ variable (bytes "OIDC_DISCOVERY_RETRY") false (bytes "30s") duration
          (λ v s. record s { identity = record s.identity { discovery_retry = v } })
      ∷ variable (bytes "OIDC_JWKS_REFRESH") false (bytes "10m") duration
          (λ v s. record s { identity = record s.identity { jwks_refresh = v } })
      ∷ variable (bytes "REQUIRED_SCOPE") false (bytes "telemetry:write") ok
          (λ v s. record s { identity = record s.identity { required_scope = v } })
      ∷ variable (bytes "REQUIRED_CLAIMS") false (bytes "sub,preferred_username") list
          (λ v s. record s { identity = record s.identity { required_claims = v } })
      ∷ variable (bytes "CLAIM_ATTRIBUTES") false
          (bytes "sub=user.id,preferred_username=user.name,email=user.email,name=user.full_name")
          read_list (λ v s. record s { identity = record s.identity { claim_attributes = v } })
      ∷ variable (bytes "CLIENT_RESOURCE_ATTRIBUTES") false [] read_list
          (λ v s. record s { identity = record s.identity { client_resource_attrs = v } })
      ∷ variable (bytes "CLOCK_SKEW") false (bytes "60s") duration
          (λ v s. record s { identity = record s.identity { clock_skew = v } })
      ∷ variable (bytes "REJECTION_LOG_INTERVAL") false (bytes "60s") duration
          (λ v s. record s { identity = record s.identity { rejection_log_interval = v } })
      ∷ []

  unfoldable pub listener_variables : List (Variable Settings)
  unfolding duration list addr
  listener_variables =
      variable (bytes "LISTEN_ADDR") false (bytes "0.0.0.0:4318") addr
        (λ v s. record s { listener = record s.listener { listen_addr = v } })
      ∷ variable (bytes "TLS_CERT_FILE") false (bytes "/etc/otlp-collector-oidc/tls/cert.pem") ok
          (λ v s. record s { listener = record s.listener { tls_cert_file = v } })
      ∷ variable (bytes "TLS_KEY_FILE") false (bytes "/etc/otlp-collector-oidc/tls/key.pem") ok
          (λ v s. record s { listener = record s.listener { tls_key_file = v } })
      ∷ variable (bytes "TLS_RELOAD_INTERVAL") false (bytes "1m") duration
          (λ v s. record s { listener = record s.listener { tls_reload_interval = v } })
      ∷ variable (bytes "MAX_REQUEST_BODY_BYTES") false (bytes "4194304") parse_int_field
          (λ v s. record s { listener = record s.listener { max_request_body_bytes = v } })
      ∷ variable (bytes "CORS_ALLOWED_ORIGINS") false [] list
          (λ v s. record s { listener = record s.listener { cors_allowed_origins = v } })
      ∷ []

  unfoldable pub bounds_variables : List (Variable Settings)
  unfolding duration list addr
  bounds_variables =
      variable (bytes "ALLOWED_SERVICE_NAMES") true [] (read_pattern p.compile)
        (λ v s. record s { bounds = record s.bounds { allowed_service_names = v } })
      ∷ variable (bytes "MAX_FUTURE_SKEW") false (bytes "5m") duration
          (λ v s. record s { bounds = record s.bounds { max_future_skew = v } })
      ∷ variable (bytes "MAX_PAST_AGE") false (bytes "48h") duration
          (λ v s. record s { bounds = record s.bounds { max_past_age = v } })
      ∷ []

  unfoldable pub metrics_variables : List (Variable Settings)
  unfolding duration list addr
  metrics_variables =
      variable (bytes "ALLOWED_METRIC_NAMES") false [] (read_metric_pattern p.compile)
        (λ v s. record s { metrics = record s.metrics { allowed_names = v } })
      ∷ variable (bytes "ALLOWED_METRIC_ATTRIBUTE_KEYS") false [] list
          (λ v s. record s { metrics = record s.metrics { allowed_attribute_keys = v } })
      ∷ variable (bytes "MAX_METRIC_STREAMS") false (bytes "2000") parse_int_field
          (λ v s. record s { metrics = record s.metrics { max_streams = v } })
      ∷ variable (bytes "DELTA_MAX_STALE") false (bytes "10m") duration
          (λ v s. record s { metrics = record s.metrics { delta_max_stale = v } })
      ∷ []

  unfoldable pub resources_variables : List (Variable Settings)
  unfolding duration list addr
  resources_variables =
      variable (bytes "MEMORY_LIMIT_MIB") false (bytes "64") parse_uint32_field
        (λ v s. record s { resources = record s.resources { memory_limit_mib = v } })
      ∷ variable (bytes "MEMORY_SPIKE_LIMIT_MIB") false (bytes "16") parse_uint32_field
          (λ v s. record s { resources = record s.resources { memory_spike_limit_mib = v } })
      ∷ variable (bytes "BATCH_TIMEOUT") false (bytes "5s") duration
          (λ v s. record s { resources = record s.resources { batch_timeout = v } })
      ∷ []

  unfoldable pub self_variables : List (Variable Settings)
  unfolding duration list addr
  self_variables =
      variable (bytes "HEALTH_ADDR") false (bytes "127.0.0.1:13133") addr
        (λ v s. record s { self = record s.self { health_addr = v } })
      ∷ variable (bytes "SELF_METRICS_ADDR") false (bytes "0.0.0.0:8888") addr
          (λ v s. record s { self = record s.self { self_metrics_addr = v } })
      ∷ []

  unfoldable pub logs_variables : List (Variable Settings)
  unfolding duration list addr
  logs_variables =
      variable (bytes "LOG_LEVEL") false (bytes "info") read_log_level
        (λ v s. record s { logs = record s.logs { level = v } })
      ∷ variable (bytes "LOG_FORMAT") false (bytes "json") read_log_format
          (λ v s. record s { logs = record s.logs { format = v } })
      ∷ []

  unfoldable pub own_variables : List (Variable Settings)
  unfolding duration list addr
  own_variables =
      variable (bytes "LOG_OUTPUT") false (bytes "both") read_log_output
        (λ v s. record s { own = record s.own { output = v } })
      ∷ variable (bytes "OTEL_SERVICE_NAME") false [] ok
          (λ v s. record s { own = record s.own { service_name = v } })
      ∷ variable (bytes "OTEL_RESOURCE_ATTRIBUTES") false [] read_list
          (λ v s. record s { own = record s.own { resource_attributes = v } })
      ∷ []

  pub group : List (Variable Settings) → (Settings → List Fault) → Group Settings
  group variables validate = record { resolver = none; variables = variables; validate = validate }

  -- The settings keep their map where there is an error.
  with_upstream : Settings → Configs × List Fault → Settings × List Fault
  with_upstream s (resolved, []) = (record s { upstream = resolved }, [])
  with_upstream s (resolved, e ∷ errs) = (s, e ∷ errs)

  -- `UpstreamSettings`, which a resolver fills.
  pub upstream_group : Group Settings
  unfolding with_upstream
  upstream_group = record {
    resolver = some (λ lookup s. with_upstream s (resolve_settings p.library lookup));
    variables = [];
    validate = λ s. [];
  }

  -- The groups of `Settings`, with their `Validate`.
  unfoldable pub settings_groups : List (Group Settings)
  unfolding group upstream_group
  settings_groups =
      group identity_variables (λ s.
        map rule_error
          (identity_errors s.identity.claim_attributes s.identity.client_resource_attrs))
      ∷ upstream_group
      ∷ group listener_variables
          (λ s. map rule_error (listener_errors s.listener.tls_cert_file s.listener.tls_key_file))
      ∷ group bounds_variables (λ s.
        map rule_error
          (bounds_errors p.show_duration s.bounds.max_future_skew s.bounds.max_past_age))
      ∷ group metrics_variables (λ s.
        map rule_error (
          metric_errors p.show_int p.show_duration s.metrics.max_streams s.metrics.delta_max_stale))
      ∷ group resources_variables (λ s.
        map rule_error
          (memory_errors s.resources.memory_limit_mib s.resources.memory_spike_limit_mib))
      ∷ group self_variables (λ s. [])
      ∷ group logs_variables (λ s. [])
      ∷ group own_variables (λ s. [])
      ∷ []

  -- `Settings.Validate`.
  unfoldable pub across : Settings → List Fault
  across s = map rule_error (settings_errors s.own.output (logs s.upstream))

  -- The group of `logsOnly`.
  unfoldable pub logs_groups : List (Group LogSettings)
  logs_groups =
      record {
        resolver = none;
        variables =
            variable (bytes "LOG_LEVEL") false (bytes "info") read_log_level
              (λ v s. record s { level = v })
            ∷ variable (bytes "LOG_FORMAT") false (bytes "json") read_log_format
                (λ v s. record s { format = v })
            ∷ [];
        validate = λ s. [];
      }
      ∷ []

  -- The group of `Source`.
  unfoldable pub source_groups : List (Group Text)
  source_groups =
      record {
        resolver = none;
        variables = variable (bytes "COLLECTOR_CONFIG") false [] ok (λ v s. v) ∷ [];
        validate = λ s. [];
      }
      ∷ []
