-- ===== src/Render/Tests/Withheld.antt =====
-- What is logged of an upstream with a token in a header.
use otlp_collector_oidc.Prelude.{Text, bytes, List, [], ◌∷◌, true, false, ◌≡◌, refl, arith}
use otlp_collector_oidc.Prelude.Int.{pos}
use otlp_collector_oidc.Upstream.Enums.{signals, signal_logs, http_protobuf, gzip}
use otlp_collector_oidc.Upstream.Headers.{Header}
use otlp_collector_oidc.Upstream.Exporter.{ExporterConfig}
use otlp_collector_oidc.Upstream.Resolve.Signals.{Configs}
use otlp_collector_oidc.Render.Exporters.{log_fields, redact_all}
use otlp_collector_oidc.Render.Exporters.Withheld.{
  AreAlike, no_configs, also, sending, log_fields-withheld,
}

abbrev upstream : ExporterConfig
upstream = record {
  protocol = http_protobuf;
  endpoint = bytes "https://c:1";
  signal_path = true;
  plaintext = false;
  skip_verify = false;
  ca_file = [];
  client_cert_file = [];
  client_key_file = [];
  headers = [];
  timeout = pos 1;
  compression = gzip;
  queue_size = pos 1;
  retry_max_elapsed = pos 1;
  retry_initial_interval = pos 1;
  retry_max_interval = pos 1;
}

-- The headers of a request that is authorized by this token, under a tenant.
abbrev with_token : Text → List Header
with_token t =
    record { name = bytes "tenant"; value = bytes "a" }
    ∷ record { name = bytes "authorization"; value = t }
    ∷ []

abbrev logs_to : Text → Configs
logs_to t = (signal_logs, sending upstream (with_token t)) ∷ []

logs_to-AreAlike : AreAlike (logs_to (bytes "Bearer secret")) (logs_to (bytes "Bearer other"))
unfolding bytes
logs_to-AreAlike =
    also signal_logs upstream (with_token (bytes "Bearer secret"))
      (with_token (bytes "Bearer other")) (omega arith, omega arith, refl) no_configs

log_fields-withheld_example :
    (log_fields (logs_to (bytes "Bearer secret")) signals
      ≡ log_fields (logs_to (bytes "Bearer other")) signals)
    × (redact_all (logs_to (bytes "Bearer secret")) ≡ redact_all (logs_to (bytes "Bearer other")))
log_fields-withheld_example = log_fields-withheld signals logs_to-AreAlike
