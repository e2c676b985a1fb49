-- ===== src/Render/SelfTelemetry.antt =====
-- internal/render/selftelemetry.go: where the process's own logs go, and as what they are sent.
pub mod Laws
pub mod Sent
use otlp_collector_oidc.Prelude.{
  ℕ, ◌+◌, ◌/◌, Text, bytes, ◌==◌, List, [], ◌∷◌, ◌++◌, map, Option, none, some, if◌then◌else◌, Bool,
  true, false, not, ◌&&◌, is_empty, eqb, trim_space,
}
use otlp_collector_oidc.Prelude.Int.{ℤ, pos, negsuc, sub_ℕ}
use otlp_collector_oidc.Prelude.Time.{Duration}
use otlp_collector_oidc.Prelude.Result.{Result, ok, err, ◌>>=◌}
use otlp_collector_oidc.Upstream.Enums.{
  Protocol, protocol_string, unset, grpc, http_protobuf, Compression, gzip, no_compression,
}
use otlp_collector_oidc.Upstream.Headers.{Header, pairs}
use otlp_collector_oidc.Upstream.Exporter.{ExporterConfig}
use otlp_collector_oidc.Render.Values.{KeyValue, to_upstream, without}
use otlp_collector_oidc.Render.Exporters.{logs}
use otlp_collector_oidc.Render.Settings.{Settings}

abbrev pub service_version_key : Text
service_version_key = bytes "service.version"

pub record OtlpExporter : Type 0 where
  pub protocol : Text
  pub endpoint : Text
  pub insecure : Bool
  pub certificate : Text
  pub client_certificate : Text
  pub client_key : Text
  pub headers : List Header
  pub compression : Text
  pub timeout : ℤ

-- `logProcessor`, of its batch processor's exporter.
pub record LogProcessor : Type 0 where
  pub otlp : OtlpExporter

abbrev compression_text : Compression → Text
compression_text gzip = bytes "gzip"
compression_text no_compression = bytes "none"

-- `Duration.Milliseconds`, which cuts off towards zero.
unfoldable pub milliseconds : Duration → ℤ
milliseconds (pos n) = pos (n / 1000000)
milliseconds (negsuc n) = sub_ℕ 0 ((n + 1) / 1000000)

-- `strings.TrimSuffix(s, "/")`.
unfoldable pub trim_slash : Text → Text
trim_slash [] = []
trim_slash (c ∷ []) = if eqb c b'/' then [] else c ∷ []
trim_slash (c ∷ d ∷ s) = c ∷ trim_slash (d ∷ s)

-- The switch over the protocol.
unfoldable pub own_endpoint : Protocol → ExporterConfig → Text
unfolding trim_slash
own_endpoint unset cfg = []
own_endpoint grpc cfg =
    (if cfg.plaintext then bytes "http://" else bytes "https://") ++ cfg.endpoint
own_endpoint http_protobuf cfg =
    if cfg.signal_path then trim_slash cfg.endpoint ++ bytes "/v1/logs" else cfg.endpoint

-- `selfLogsExporter`.
unfoldable pub self_logs_exporter : ExporterConfig → OtlpExporter
unfolding own_endpoint
self_logs_exporter cfg = record {
  protocol = protocol_string cfg.protocol;
  endpoint = own_endpoint cfg.protocol cfg;
  insecure = cfg.plaintext;
  certificate = if cfg.plaintext then [] else cfg.ca_file;
  client_certificate = if cfg.plaintext then [] else cfg.client_cert_file;
  client_key = if cfg.plaintext then [] else cfg.client_key_file;
  headers = pairs cfg.headers;
  compression = compression_text cfg.compression;
  timeout = milliseconds cfg.timeout;
}

exported : Bool → Option ExporterConfig → List LogProcessor
unfolding self_logs_exporter
exported false cfg = []
exported true none = []
exported true (some cfg) = record { otlp = self_logs_exporter cfg } ∷ []

-- `selfLogProcessors`; no processor is a nil result.
unfoldable pub self_log_processors : Settings → List LogProcessor
unfolding exported
self_log_processors s = exported (to_upstream s.own.output) (logs s.upstream)

-- `strings.ReplaceAll(s, "$", "$$")`.
unfoldable pub double_dollars : Text → Text
double_dollars [] = []
double_dollars (c ∷ s) = if eqb c b'$' then b'$' ∷ b'$' ∷ double_dollars s else c ∷ double_dollars s

encoded_processors : (List LogProcessor → Result Text) → List LogProcessor → Result Text
encoded_processors encode [] = ok []
encoded_processors encode (p ∷ procs) = elim (encode (p ∷ procs)) [
  | err e ↦ err (bytes "encoding the own-logs processors: " ++ e)
  | ok text ↦ ok (double_dollars (trim_space text))
]

-- `SelfLogProcessors`; `encode` is json.Encoder's Encode without the escapes of HTML.
unfoldable pub self_log_processors_text : (List LogProcessor → Result Text) → Settings → Result Text
unfolding encoded_processors
self_log_processors_text encode s = encoded_processors encode (self_log_processors s)

-- `build.Command`.
abbrev pub command : Text
command = bytes "otlp-collector-oidc"

-- The loop over the attributes.
unfoldable pub name_in : List KeyValue → Text
name_in [] = command
name_in (kv ∷ attributes) = if kv.key == bytes "service.name" then kv.value else name_in attributes

unfoldable pub fallback_service_name : Settings → Text
unfolding name_in
fallback_service_name s = name_in s.own.resource_attributes

unfoldable pub service_name : Settings → Text
service_name s =
    if not (is_empty s.own.service_name) then s.own.service_name else fallback_service_name s

unfoldable pub own_resource : Settings → List KeyValue
own_resource s =
    record { key = bytes "service.name"; value = service_name s }
    ∷ without s.own.resource_attributes (bytes "service.name" ∷ service_version_key ∷ [])

instance_attribute : Text → List KeyValue
instance_attribute id =
    if is_empty id then [] else record { key = bytes "service.instance.id"; value = id } ∷ []

-- The configuration of the SDK: its processors and its resource.
pub record SdkConfig (Processor : Type 0) : Type 0 where
  pub processors : List Processor
  pub attributes : List KeyValue

-- `sdkConfig`: `marshal` is json.Marshal, `unmarshal` json.Unmarshal into the SDK's processors, and
-- `version` what build.Version returns.
unfoldable pub sdk_config :
    {P : Type 0}
    → (List LogProcessor → Result Text)
    → (Text → Result (List P))
    → Text
    → Settings
    → Result (SdkConfig P)
unfolding instance_attribute
sdk_config marshal unmarshal version s = elim (marshal (self_log_processors s)) [
  | err e ↦ err (bytes "encoding the own-logs processors: " ++ e)
  | ok raw ↦ elim (unmarshal raw) [
    | err e ↦ err (bytes "reading the own-logs processors: " ++ e)
    | ok procs ↦ ok (record {
      processors = procs;
      attributes =
          record { key = service_version_key; value = version }
          ∷ (instance_attribute s.instance_id ++ own_resource s);
    })
  ]
]
