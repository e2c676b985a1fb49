-- ===== src/Render/Settings.antt =====
-- internal/render/env.go: the groups of settings, as Load fills them.
use otlp_collector_oidc.Prelude.{ℕ, Text, List}
use otlp_collector_oidc.Prelude.Int.{ℤ}
use otlp_collector_oidc.Prelude.Time.{Duration}
use otlp_collector_oidc.Upstream.Resolve.Signals.{Configs}
use otlp_collector_oidc.Render.Values.{Addr, LogLevel, LogFormat, LogOutput, KeyValue}

pub record IdentitySettings : Type 0 where
  pub issuer_url : Text
  pub audience : Text
  pub discovery_retry : Duration
  pub jwks_refresh : Duration
  pub required_scope : Text
  pub required_claims : List Text
  pub claim_attributes : List KeyValue
  pub client_resource_attrs : List KeyValue
  pub clock_skew : Duration
  pub rejection_log_interval : Duration

pub record ListenerSettings : Type 0 where
  pub listen_addr : Addr
  pub tls_cert_file : Text
  pub tls_key_file : Text
  pub tls_reload_interval : Duration
  pub max_request_body_bytes : ℤ
  pub cors_allowed_origins : List Text

pub record BoundsSettings : Type 0 where
  pub allowed_service_names : Text
  pub max_future_skew : Duration
  pub max_past_age : Duration

pub record MetricSettings : Type 0 where
  pub allowed_names : Text
  pub allowed_attribute_keys : List Text
  pub max_streams : ℤ
  pub delta_max_stale : Duration

pub record ResourceSettings : Type 0 where
  pub memory_limit_mib : ℕ
  pub memory_spike_limit_mib : ℕ
  pub batch_timeout : Duration

pub record SelfSettings : Type 0 where
  pub health_addr : Addr
  pub self_metrics_addr : Addr

pub record LogSettings : Type 0 where
  pub level : LogLevel
  pub format : LogFormat

pub record OwnSettings : Type 0 where
  pub output : LogOutput
  pub service_name : Text
  pub resource_attributes : List KeyValue

-- `upstream` is the map of UpstreamSettings.
pub record Settings : Type 0 where
  pub identity : IdentitySettings
  pub upstream : Configs
  pub listener : ListenerSettings
  pub bounds : BoundsSettings
  pub metrics : MetricSettings
  pub resources : ResourceSettings
  pub self : SelfSettings
  pub logs : LogSettings
  pub own : OwnSettings
  pub instance_id : Text
