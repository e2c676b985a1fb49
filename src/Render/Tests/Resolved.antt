-- ===== src/Render/Tests/Resolved.antt =====
-- The exporters of a concrete environment.
use otlp_collector_oidc.Prelude.{
  List, ◌∷◌, some, true, false, ◌⊎◌, map, less, [], none, if◌then◌else◌, ◌≡◌, refl, All, contains,
  insert, lookup, ◌==◌, bytes, cut, drop_spaces, equal_fold, join, lower, space_len, space_len_back,
  split, to_lower, trim_space,
}
use otlp_collector_oidc.Render.Settings.{Settings}
use otlp_collector_oidc.Render.Values.{to_upstream}
use otlp_collector_oidc.Render.Exporters.{logs, Exporter, all_exporters, resolve_settings}
use otlp_collector_oidc.Render.Rules.{settings_errors}
use otlp_collector_oidc.Render.SelfTelemetry.{LogProcessor, self_log_processors}
use otlp_collector_oidc.Render.SelfTelemetry.Sent.{IsSent, self_log_processors-IsSent}
use otlp_collector_oidc.Render.Tests.Started.{settings as run_settings}
use otlp_collector_oidc.Upstream.Resolve.Signals.{
  config_of, assign, file_rule, key_rule, protocol_rule, rules, tls_rule, unused_files,
  unused_insecure, across, resolve_signals, resolve_signal, resolve,
}
use otlp_collector_oidc.Prelude.Ordered.Laws.{IsDistinct}
use otlp_collector_oidc.Prelude.Int.{pos, ◌*ℤ◌}
use otlp_collector_oidc.Upstream.Variables.{
  Url, fault_text, prefix, settings, shown, signal_name, base_name,
}
use otlp_collector_oidc.Upstream.Resolve.{
  Lookup, Library, fail, invalid, new_resolver, accept, parse_values, values, value,
}
use otlp_collector_oidc.Render.Exporters.Serves.{IsServed, all_exporters-IsServed}
use otlp_collector_oidc.Prelude.Escape.{
  escaped, is_hex, is_unreserved, plain, query_escape, query_escape_byte, unescape, unhex,
}
use otlp_collector_oidc.Prelude.Ordered.{modify, put}
use otlp_collector_oidc.Prelude.Result.{itoa}
use otlp_collector_oidc.Prelude.Numbers.{parse_int, natural, digits_value}
use otlp_collector_oidc.Upstream.Enums.{
  signals, parse_compression, parse_protocol, signal_string, variable_part,
}
use otlp_collector_oidc.Upstream.Exporter.{
  capped, parse_bool, read_timeout, read_queue_size, read_retry, set_endpoint,
}
use otlp_collector_oidc.Upstream.Headers.{
  add_header, check_pair, encode_pair, is_token, new_headers, pair_error, parse_headers, read_pair,
  read_pairs, sort, valid_header_name, valid_header_value,
}

abbrev collector : Url
collector = record {
  scheme = bytes "http";
  hostname = bytes "c";
  port = bytes "1";
  host = bytes "c:1";
  has_user = false;
  path = [];
  raw_query = [];
  fragment = [];
  redacted = [];
}

-- Packages that read every text as one URL or one duration.
abbrev pub library : Library
library = record {
  parse_url = λ _. some collector;
  parse_duration = λ _. some (pos 60000000000);
  quote = λ s. s;
}

-- The endpoint, and nothing else.
abbrev base : Lookup
base name = if name == bytes "OTEL_EXPORTER_OTLP_ENDPOINT" then some (bytes "http://c:1") else none

resolved_base : (resolve_settings library base).1 ≡ []
unfolding contains insert lookup ◌==◌ bytes escaped is_hex is_unreserved plain query_escape
    query_escape_byte unescape unhex cut drop_spaces equal_fold join lower space_len space_len_back
    split to_lower trim_space ◌*ℤ◌ modify put itoa parse_int natural digits_value signals
    parse_compression parse_protocol signal_string variable_part capped parse_bool read_timeout
    read_queue_size read_retry set_endpoint add_header check_pair encode_pair is_token less
    new_headers pair_error parse_headers read_pair read_pairs sort valid_header_name
    valid_header_value assign file_rule key_rule protocol_rule rules tls_rule unused_files
    unused_insecure across resolve_signals resolve_signal resolve fail invalid new_resolver accept
    parse_values values value fault_text prefix settings shown signal_name base_name
    resolve_settings
resolved_base = refl

all_exporters-IsServed_example :
    (es : List Exporter) × (all_exporters (resolve_settings library base).0 ≡ some es)
    × All (IsServed (resolve_settings library base).0 es) signals
    × IsDistinct (map (λ e. e.id) es)
all_exporters-IsServed_example = all_exporters-IsServed library base resolved_base

-- The settings of that environment.
abbrev from_base : Settings
from_base = record run_settings { upstream = (resolve_settings library base).0 }

output_base : settings_errors from_base.own.output (logs from_base.upstream) ≡ []
unfolding contains insert lookup ◌==◌ bytes escaped is_hex is_unreserved plain query_escape
    query_escape_byte unescape unhex cut drop_spaces equal_fold join lower space_len space_len_back
    split to_lower trim_space ◌*ℤ◌ modify put itoa parse_int natural digits_value signals
    parse_compression parse_protocol signal_string variable_part capped parse_bool read_timeout
    read_queue_size read_retry set_endpoint add_header check_pair encode_pair is_token less
    new_headers pair_error parse_headers read_pair read_pairs sort valid_header_name
    valid_header_value assign file_rule key_rule protocol_rule rules tls_rule unused_files
    unused_insecure across resolve_signals resolve_signal resolve fail invalid new_resolver accept
    parse_values values value fault_text prefix settings shown signal_name base_name
    resolve_settings settings_errors logs config_of to_upstream
output_base = refl

self_log_processors-IsSent_example :
    (to_upstream from_base.own.output ≡ false) × (self_log_processors from_base ≡ [])
    ⊎ (to_upstream from_base.own.output ≡ true)
      × ((p : LogProcessor) × (self_log_processors from_base ≡ p ∷ [])
          × IsSent library base from_base p.otlp)
self_log_processors-IsSent_example =
    self_log_processors-IsSent library base from_base resolved_base refl output_base
