-- ===== src/Render/Exporters.antt =====
-- internal/render/upstream.go: the exporter blocks, one for each distinct configuration.
pub mod Equal
pub mod Ids
pub mod Serves
pub mod Withheld
use otlp_collector_oidc.Prelude.{
  ℕ, Text, bytes, ◌==◌, List, [], ◌∷◌, ◌++◌, map, length, Option, none, some, if◌then◌else◌, Bool,
  true, false, ◌&&◌, ◌||◌, ltb, eqb, join,
}
use otlp_collector_oidc.Prelude.Int.{ℤ, pos, negsuc}
use otlp_collector_oidc.Prelude.Result.{Result, ok, err}
use otlp_collector_oidc.Upstream.Enums.{
  Signal, signal_logs, signals, signal_string, parse_signal, Protocol, unset, grpc, http_protobuf,
  Compression, gzip, no_compression,
}
use otlp_collector_oidc.Upstream.Headers.{Header, pairs, redacted}
use otlp_collector_oidc.Upstream.Variables.{Fault}
use otlp_collector_oidc.Upstream.Exporter.{ExporterConfig}
use otlp_collector_oidc.Upstream.Exporter.Shown.{config_string}
use otlp_collector_oidc.Upstream.Resolve.{Lookup, Library}
use otlp_collector_oidc.Upstream.Resolve.Signals.{Configs, config_of, resolve, same_signal}

-- An endpoint key and its value.
pub record EndpointKey : Type 0 where
  pub key : Text
  pub value : Text

-- An exporter and the signals it serves.
pub record Exporter : Type 0 where
  pub id : Text
  pub config : ExporterConfig
  pub endpoints : List EndpointKey
  pub headers : List Header
  pub served : List Signal

-- `==` of the types of the fields.
same_bool : Bool → Bool → Bool
same_bool true true = true
same_bool true false = false
same_bool false true = false
same_bool false false = true

same_protocol : Protocol → Protocol → Bool
same_protocol unset unset = true
same_protocol grpc grpc = true
same_protocol http_protobuf http_protobuf = true
same_protocol unset grpc = false
same_protocol unset http_protobuf = false
same_protocol grpc unset = false
same_protocol grpc http_protobuf = false
same_protocol http_protobuf unset = false
same_protocol http_protobuf grpc = false

same_compression : Compression → Compression → Bool
same_compression gzip gzip = true
same_compression gzip no_compression = false
same_compression no_compression gzip = false
same_compression no_compression no_compression = true

same_int : ℤ → ℤ → Bool
same_int (pos a) (pos b) = eqb a b
same_int (pos a) (negsuc b) = false
same_int (negsuc a) (pos b) = false
same_int (negsuc a) (negsuc b) = eqb a b

-- `==` of two configurations, which makes them one key of a map.
unfoldable pub same_config : ExporterConfig → ExporterConfig → Bool
unfolding same_bool same_protocol same_compression same_int
same_config a b =
    same_protocol a.protocol b.protocol
    && a.endpoint == b.endpoint
    && same_bool a.signal_path b.signal_path
    && same_bool a.plaintext b.plaintext
    && same_bool a.skip_verify b.skip_verify
    && a.ca_file == b.ca_file
    && a.client_cert_file == b.client_cert_file
    && a.client_key_file == b.client_key_file
    && a.headers == b.headers
    && same_int a.timeout b.timeout
    && same_compression a.compression b.compression
    && same_int a.queue_size b.queue_size
    && same_int a.retry_max_elapsed b.retry_max_elapsed
    && same_int a.retry_initial_interval b.retry_initial_interval
    && same_int a.retry_max_interval b.retry_max_interval

-- The map `bySignals`, in the order that `order` keeps.
abbrev pub Groups : Type 0
Groups = List (ExporterConfig × List Signal)

unfoldable pub add_signal : ExporterConfig → Signal → Groups → Groups
add_signal cfg sig [] = (cfg, sig ∷ []) ∷ []
add_signal cfg sig ((d, sigs) ∷ groups) =
    if same_config d cfg
    then (d, sigs ++ sig ∷ []) ∷ groups
    else (d, sigs) ∷ add_signal cfg sig groups

add_found : Option ExporterConfig → Signal → Groups → Groups
add_found none sig groups = groups
add_found (some cfg) sig groups = add_signal cfg sig groups

-- The loop over the signals.
unfoldable pub group_signals : Configs → Groups → List Signal → Groups
unfolding add_found
group_signals resolved groups [] = groups
group_signals resolved groups (sig ∷ sigs) =
    group_signals resolved (add_found (config_of sig resolved) sig groups) sigs

-- `none` is the panic.
unfoldable pub component_type : Protocol → Option Text
component_type grpc = some (bytes "otlp_grpc")
component_type http_protobuf = some (bytes "otlp_http")
component_type unset = none

is_base : ExporterConfig → Bool
is_base c = same_protocol c.protocol grpc || c.signal_path

unfoldable pub endpoints_of : ExporterConfig → List Signal → List EndpointKey
unfolding is_base same_protocol
endpoints_of c sigs =
    if is_base c
    then record { key = bytes "endpoint"; value = c.endpoint } ∷ []
    else map (λ sig. record { key = signal_string sig ++ bytes "_endpoint"; value = c.endpoint })
        sigs

pub id_of : ℕ → Text → List Signal → Text
id_of total type sigs =
    if ltb (length sigs) total
    then type ++ b'/' ∷ join (map signal_string sigs) (b'_' ∷ [])
    else type

exporter_of : ℕ → ExporterConfig → List Signal → Text → Exporter
unfolding id_of
exporter_of total c sigs type = record {
  id = id_of total type sigs;
  config = c;
  endpoints = endpoints_of c sigs;
  headers = pairs c.headers;
  served = sigs;
}

made : ℕ → ExporterConfig → List Signal → Option Text → Option Exporter
unfolding exporter_of
made total c sigs none = none
made total c sigs (some type) = some (exporter_of total c sigs type)

add_exporter : Option Exporter → Option (List Exporter) → Option (List Exporter)
add_exporter none rest = none
add_exporter (some e) none = none
add_exporter (some e) (some rest) = some (e ∷ rest)

-- The loop over the configurations.
unfoldable pub make_exporters : ℕ → Groups → Option (List Exporter)
unfolding made add_exporter
make_exporters total [] = some []
make_exporters total ((c, sigs) ∷ groups) =
    let rest = make_exporters total groups in
    add_exporter (made total c sigs (component_type c.protocol)) rest

-- `UpstreamSettings.all`.
unfoldable pub all_exporters : Configs → Option (List Exporter)
all_exporters resolved = make_exporters (length resolved) (group_signals resolved [] signals)

contains_signal : List Signal → Signal → Bool
contains_signal [] sig = false
contains_signal (s ∷ sigs) sig = same_signal s sig || contains_signal sigs sig

-- The loop of `ExporterFor`.
unfoldable pub find_exporter : Signal → List Exporter → Option Exporter
unfolding contains_signal
find_exporter sig [] = none
find_exporter sig (e ∷ exporters) =
    if contains_signal e.served sig then some e else find_exporter sig exporters

id_result : Text → Option Exporter → Result Text
id_result name none = err (bytes "no upstream resolved for " ++ name)
id_result name (some e) = ok e.id

parsed_signal : Text → List Exporter → Result Signal → Result Text
unfolding id_result
parsed_signal name exporters (err e) = err e
parsed_signal name exporters (ok sig) = id_result name (find_exporter sig exporters)

-- `ExporterFor`, of the exporters of `all`.
unfoldable pub exporter_for : List Exporter → Text → Result Text
unfolding parsed_signal
exporter_for exporters name = parsed_signal name exporters (parse_signal name)

-- `UpstreamSettings.resolve`.
unfoldable pub resolve_settings : Library → Lookup → Configs × List Fault
resolve_settings lib lookup = resolve lib lookup signals

-- `logs`, the upstream that the process's own logs follow.
unfoldable pub logs : Configs → Option ExporterConfig
logs resolved = config_of signal_logs resolved

-- `redacted`, for the rendering that is logged.
unfoldable pub redact_all : Configs → Configs
redact_all resolved = map (λ (sig, c). (sig, record c { headers = redacted c.headers })) resolved

pub field_of : Signal → Option ExporterConfig → List (Text × Text)
field_of sig none = []
field_of sig (some c) = (bytes "upstream." ++ signal_string sig, config_string c) ∷ []

-- `logFields`, over the signals: the names and the values of the fields.
unfoldable pub log_fields : Configs → List Signal → List (Text × Text)
unfolding field_of
log_fields resolved [] = []
log_fields resolved (sig ∷ sigs) = field_of sig (config_of sig resolved) ++ log_fields resolved sigs
