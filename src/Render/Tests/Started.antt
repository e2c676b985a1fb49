-- ===== src/Render/Tests/Started.antt =====
-- The start of the run command, at concrete settings.
use otlp_collector_oidc.Prelude.{
  ◌≡◌, refl, bytes, List, [], ◌∷◌, ◌++◌, none, some, if◌then◌else◌, true, false, is_empty,
}
use otlp_collector_oidc.Prelude.Int.{pos}
use otlp_collector_oidc.Prelude.Result.{ok}
use otlp_collector_oidc.Upstream.Enums.{signal_logs, grpc, gzip}
use otlp_collector_oidc.Upstream.Exporter.{ExporterConfig}
use otlp_collector_oidc.Render.Values.{Addr, level_info, format_json, output_both}
use otlp_collector_oidc.Render.Load.{load}
use otlp_collector_oidc.Render.Bounds.{Compiled}
use otlp_collector_oidc.Render.Table.{Packages}
use otlp_collector_oidc.Render.Table.Required.{shipped_tables, audience, needed_name, run-required}
use otlp_collector_oidc.Upstream.Variables.{Fault, variable_error, required}
use otlp_collector_oidc.Render.Settings.{Settings}
use otlp_collector_oidc.Render.Run.{faults, Tables, Stopped, Host, run}
use otlp_collector_oidc.Render.Run.Order.{IsCourse, run-IsCourse}

abbrev address : Addr
address = record { host = bytes "0.0.0.0"; port = bytes "4318" }

abbrev collector : ExporterConfig
collector = record {
  protocol = grpc;
  endpoint = bytes "c:4317";
  signal_path = false;
  plaintext = true;
  skip_verify = false;
  ca_file = [];
  client_cert_file = [];
  client_key_file = [];
  headers = [];
  timeout = pos 10000000000;
  compression = gzip;
  queue_size = pos 1000;
  retry_max_elapsed = pos 60000000000;
  retry_initial_interval = pos 5000000000;
  retry_max_interval = pos 30000000000;
}

abbrev pub settings : Settings
settings = record {
  identity = record {
    issuer_url = bytes "https://id";
    audience = bytes "app";
    discovery_retry = pos 30000000000;
    jwks_refresh = pos 600000000000;
    required_scope = bytes "telemetry:write";
    required_claims = bytes "sub" ∷ [];
    claim_attributes = [];
    client_resource_attrs = [];
    clock_skew = pos 60000000000;
    rejection_log_interval = pos 60000000000;
  };
  upstream = (signal_logs, collector) ∷ [];
  listener = record {
    listen_addr = address;
    tls_cert_file = bytes "cert.pem";
    tls_key_file = bytes "key.pem";
    tls_reload_interval = pos 60000000000;
    max_request_body_bytes = pos 4194304;
    cors_allowed_origins = [];
  };
  bounds = record {
    allowed_service_names = bytes ".*";
    max_future_skew = pos 300000000000;
    max_past_age = pos 172800000000000;
  };
  metrics = record {
    allowed_names = [];
    allowed_attribute_keys = [];
    max_streams = pos 2000;
    delta_max_stale = pos 600000000000;
  };
  resources = record {
    memory_limit_mib = 64;
    memory_spike_limit_mib = 16;
    batch_timeout = pos 5000000000;
  };
  self = record { health_addr = address; self_metrics_addr = address };
  logs = record { level = level_info; format = format_json };
  own = record { output = output_both; service_name = []; resource_attributes = [] };
  instance_id = [];
}

abbrev tables : Tables
tables = record {
  source = [];
  logs_only = [];
  settings = [];
  across = λ s. [];
  zero_logs = settings.logs;
  zero = settings;
}

abbrev pub host : Host
host = record {
  uuid = ok (bytes "id");
  unset_error = λ name. none;
  stdout_logger = λ l. none;
  upstream_logger = λ s. none;
  render = λ s. ok s.instance_id;
  rendered_path = bytes "/tmp/x.yaml";
  write_error = λ yaml. none;
  new_collector_error = λ uri. none;
  run_collector = λ uri. Stopped.clean;
}

run-IsCourse_example :
    let (mounted, errs) = load (λ u. none) (λ name. none) tables.source (λ _. []) [] in
    let (l, log_errs) = load (λ u. none) (λ name. none) tables.logs_only (λ _. []) settings.logs in
    let (s, all_errs) = load (λ u. none) (λ name. none) tables.settings tables.across settings in
    IsCourse host mounted s
      (errs ++ (if is_empty mounted then all_errs else log_errs))
      (run host (λ u. none) tables (λ name. none))
run-IsCourse_example = run-IsCourse host (λ u. none) tables (λ name. none)

abbrev packages : Packages
packages = record {
  library = record {
    parse_url = λ u. none;
    parse_duration = λ d. some (pos 60000000000);
    quote = λ s. s;
  };
  compile = λ pattern. Compiled.compiled;
  split_host_port = λ s. some (bytes "0.0.0.0", bytes "4318");
  show_duration = λ d. [];
  show_int = λ n. [];
}

run-required_example :
    (before : List Fault) × (after : List Fault) × (run host
        (λ u. none)
        (shipped_tables packages settings.logs settings)
        (λ name. none)
      ≡ ([], faults (before ++ variable_error (needed_name audience) [] required ∷ after)))
run-required_example =
    run-required packages (λ u. none) (λ name. none) host audience settings.logs settings refl refl
