-- ===== src/Upstream/Resolve.antt =====
-- internal/upstream/resolve.go: the exporters' configurations from the environment.
pub mod Signals
use otlp_collector_oidc.Prelude.{
  Text, String, bytes, ◌==◌, contains, equal_fold, List, [], ◌∷◌, ◌++◌, Option, none, some,
  if◌then◌else◌, Bool, true, false, not, ◌&&◌, ◌||◌, is_empty, eqb, length,
}
use otlp_collector_oidc.Prelude.Int.{ℤ, pos}
use otlp_collector_oidc.Prelude.Time.{Duration}
use otlp_collector_oidc.Prelude.Result.{Result, ok, err}
use otlp_collector_oidc.Upstream.Enums.{
  Signal, signal_string, Protocol, unset, grpc, http_protobuf, parse_protocol, Compression, gzip,
  parse_compression,
}
use otlp_collector_oidc.Upstream.Headers.{parse_headers}
use otlp_collector_oidc.Upstream.Variables.{
  Setting, endpoint_row, protocol_row, headers_row, timeout_row, compression_row, certificate_row,
  client_certificate_row, client_key_row, insecure_row, skip_verify_row, queue_size_row,
  retry_max_elapsed_row, settings, prefix, base_name, signal_name, Cause, required, cause, Fault,
  variable_error, rule_error, fault_text, Url, shown,
}
use otlp_collector_oidc.Upstream.Exporter.{
  ExporterConfig, default_retry_initial_interval, default_retry_max_interval, Endpoint,
  set_endpoint, capped, parse_bool, read_timeout, read_queue_size, read_retry,
}

-- The environment: `lookup(name)`, whose result `_, false` is none.
abbrev pub Lookup : Type 0
Lookup = Text → Option Text

pub record Read : Type 0 where
  pub setting : Setting
  pub name : Text
  pub raw : Text
  pub per_signal : Bool

-- `if raw, ok := r.lookup(name); ok && raw != ""`.
abbrev pub nonempty : Option Text → Option Text
nonempty none = none
nonempty (some []) = none
nonempty (some (b ∷ raw)) = some (b ∷ raw)

base_value : Lookup → Setting → Read
base_value lookup s = elim (nonempty (lookup (base_name s))) [
  | some raw ↦ record { setting = s; name = base_name s; raw = raw; per_signal = false }
  | none ↦ record { setting = s; name = base_name s; raw = s.def; per_signal = false }
]

own_value : Lookup → Setting → Signal → Option Text
own_value lookup s sig = if s.per_signal then nonempty (lookup (signal_name s sig)) else none

-- `resolver.value`.
unfoldable pub value : Lookup → Setting → Signal → Read
unfolding base_value own_value
value lookup s sig = elim (own_value lookup s sig) [
  | some raw ↦ record { setting = s; name = signal_name s sig; raw = raw; per_signal = true }
  | none ↦ base_value lookup s
]

-- The resolver, less its lookup. `seen` is the set of the errors' texts.
pub record Resolver : Type 0 where
  pub errs : List Fault
  pub seen : List Text
  pub faulted : Bool
  pub any_tls : Bool
  pub any_grpc : Bool

unfoldable pub new_resolver : Resolver
new_resolver = record { errs = []; seen = []; faulted = false; any_tls = false; any_grpc = false }

-- The packages that are called: url.Parse, time.ParseDuration and strconv.Quote.
pub record Library : Type 0 where
  pub parse_url : Text → Option Url
  pub parse_duration : Text → Option Duration
  pub quote : Text → Text

-- What the first half of `signal` makes of the variables: a configuration without its TLS files,
-- and the two switches.
pub record Parsed : Type 0 where
  pub config : ExporterConfig
  pub force_plaintext : Bool
  pub skip_verify : Bool

-- The values of a signal's variables: the map `vals`, by the rows' names.
pub record Values : Type 0 where
  pub endpoint : Read
  pub protocol : Read
  pub headers : Read
  pub timeout : Read
  pub compression : Read
  pub certificate : Read
  pub client_certificate : Read
  pub client_key : Read
  pub insecure : Read
  pub skip_verify : Read
  pub queue_size : Read
  pub retry_max_elapsed : Read

unfoldable pub values : Lookup → Signal → Values
values lookup sig = record {
  endpoint = value lookup endpoint_row sig;
  protocol = value lookup protocol_row sig;
  headers = value lookup headers_row sig;
  timeout = value lookup timeout_row sig;
  compression = value lookup compression_row sig;
  certificate = value lookup certificate_row sig;
  client_certificate = value lookup client_certificate_row sig;
  client_key = value lookup client_key_row sig;
  insecure = value lookup insecure_row sig;
  skip_verify = value lookup skip_verify_row sig;
  queue_size = value lookup queue_size_row sig;
  retry_max_elapsed = value lookup retry_max_elapsed_row sig;
}

module _ (lib : Library) where
  unfoldable pub fail : Resolver → Fault → Resolver
  fail r e =
      if contains r.seen (fault_text lib.quote e) then record r { faulted = true } else record r {
        faulted = true;
        seen = fault_text lib.quote e ∷ r.seen;
        errs = r.errs ++ e ∷ [];
      }

  unfoldable pub invalid : Resolver → Read → Text → Resolver
  invalid r v e = fail r (variable_error v.name (shown lib.parse_url v.setting v.raw) (cause e))

  -- A value, or its zero with the variable's fault reported.
  unfoldable pub accept {ℓ} : {A : Type ℓ} → Resolver → Read → A → Result A → Resolver × A
  accept r v zero (ok a) = (r, a)
  accept r v zero (err e) = (invalid r v e, zero)

  no_endpoint : Endpoint
  no_endpoint = record { plaintext = false; endpoint = []; signal_path = false }

  -- `setEndpoint`, of a protocol that has parsed.
  given_endpoint : Resolver → Protocol → Read → Resolver × Endpoint
  unfolding no_endpoint
  given_endpoint r unset v = (r, no_endpoint)
  given_endpoint r grpc v =
      accept r v no_endpoint (set_endpoint lib.parse_url grpc v.raw v.per_signal)
  given_endpoint r http_protobuf v =
      accept r v no_endpoint (set_endpoint lib.parse_url http_protobuf v.raw v.per_signal)

  -- The switch over the endpoint.
  read_endpoint : Resolver → Protocol → Read → Resolver × Endpoint
  unfolding given_endpoint no_endpoint
  read_endpoint r protocol v =
      if is_empty v.raw
      then (fail r (variable_error v.name [] required), no_endpoint)
      else given_endpoint r protocol v

  -- `signal` to where each variable has parsed.
  unfoldable pub parse_values : Resolver → Values → Resolver × Parsed
  unfolding read_endpoint
  parse_values r v =
      let (r1, protocol) = accept r v.protocol unset (parse_protocol v.protocol.raw) in
      let (r2, endpoint) = read_endpoint r1 protocol v.endpoint in
      let (r3, force_plaintext) = accept r2 v.insecure false (parse_bool v.insecure.raw) in
      let (r4, skip) = accept r3 v.skip_verify false (parse_bool v.skip_verify.raw) in
      let (r5, headers) = accept r4 v.headers [] (parse_headers v.headers.raw) in
      let (r6, timeout) = accept r5 v.timeout (pos 0) (read_timeout v.timeout.raw) in
      let (r7, compression) = accept r6 v.compression gzip (parse_compression v.compression.raw) in
      let (r8, queue_size) = accept r7 v.queue_size (pos 0) (read_queue_size v.queue_size.raw) in
      let (r9, retry) =
        accept r8 v.retry_max_elapsed (pos 0)
          (read_retry lib.parse_duration v.retry_max_elapsed.raw) in
      (
        r9,
        record {
          config = record {
            protocol = protocol;
            endpoint = endpoint.endpoint;
            signal_path = endpoint.signal_path;
            plaintext = endpoint.plaintext;
            skip_verify = false;
            ca_file = [];
            client_cert_file = [];
            client_key_file = [];
            headers = headers;
            timeout = timeout;
            compression = compression;
            queue_size = queue_size;
            retry_max_elapsed = retry;
            retry_initial_interval = capped default_retry_initial_interval retry;
            retry_max_interval = capped default_retry_max_interval retry;
          };
          force_plaintext = force_plaintext;
          skip_verify = skip;
        },
      )
