-- ===== src/Render/Tests/Valid.antt =====
-- What is written in a concrete environment.
use otlp_collector_oidc.Render.Tests.Started.{settings, host}
use otlp_collector_oidc.Render.Tests.Resolved.{library}
use otlp_collector_oidc.Prelude.{
  true, any, Bool, false, less, [], none, some, if◌then◌else◌, ◌≡◌, refl, All, contains, insert,
  lookup, ◌==◌, bytes, cut, drop_spaces, equal_fold, join, lower, space_len, space_len_back, split,
  to_lower, trim_space,
}
use otlp_collector_oidc.Render.Run.{
  Effect, wrote, unset_variable, logged, started, flushed, warned_on_stderr, sdk_variables,
  unset_all, own_sinks, new_logger, write_rendered, run_collector_on, with_stop, run_rendered,
  shown_settings, run,
}
use otlp_collector_oidc.Render.Table.{
  source_groups, logs_groups, parse_field, variable, own_variables, logs_variables, self_variables,
  resources_variables, metrics_variables, bounds_variables, listener_variables, identity_variables,
  Packages, settings_groups, across,
}
use otlp_collector_oidc.Upstream.Variables.{
  names, Url, fault_text, prefix, shown, signal_name, base_name,
}
use otlp_collector_oidc.Render.Values.{
  to_stdout, has, read_list, read_key_values, add_key_value, read_key_value, list_error,
  to_upstream, read_log_output, read_log_format, read_log_level, read_addr,
}
use otlp_collector_oidc.Upstream.Resolve.{
  nonempty, Lookup, Library, fail, invalid, new_resolver, accept, parse_values, values, value,
}
use otlp_collector_oidc.Render.Exporters.{logs, resolve_settings}
use otlp_collector_oidc.Upstream.Resolve.Signals.{
  config_of, assign, file_rule, key_rule, protocol_rule, rules, tls_rule, unused_files,
  unused_insecure, resolve_signals, resolve_signal, resolve,
}
use otlp_collector_oidc.Render.Rules.{
  settings_errors, memory_errors, listener_errors, metric_errors, bounds_errors, identity_errors,
  resources_errors, resource_errors, claims_errors, claim_errors, client_owned,
}
use otlp_collector_oidc.Prelude.Numbers.{parse_uint, parse_int, natural, digits_value}
use otlp_collector_oidc.Render.Load.{
  parse_uint32_field, parse_int_field, parse_duration_field, split_list, nonblank, load_variable,
  load_variables, load_group, load_groups, load,
}
use otlp_collector_oidc.Render.Metrics.{read_metric_pattern}
use otlp_collector_oidc.Render.Bounds.{anchored, check_compiled, read_pattern, Compiled}
use otlp_collector_oidc.Render.Table.Required.{shipped_tables}
use otlp_collector_oidc.Render.Table.Valid.{IsRendering, run-IsRendering}
use otlp_collector_oidc.Render.Run.Written.{Writes}
use otlp_collector_oidc.Prelude.Result.{itoa}
use otlp_collector_oidc.Prelude.Int.{◌*ℤ◌}
use otlp_collector_oidc.Prelude.Escape.{
  escaped, is_hex, is_unreserved, plain, query_escape, query_escape_byte, unescape, unhex,
}
use otlp_collector_oidc.Prelude.Ordered.{modify, put}
use otlp_collector_oidc.Upstream.Enums.{
  signals, parse_compression, parse_protocol, signal_string, variable_part,
}
use otlp_collector_oidc.Upstream.Exporter.{
  capped, parse_bool, read_timeout, read_queue_size, read_retry, set_endpoint,
}
use otlp_collector_oidc.Upstream.Headers.{
  add_header, check_pair, encode_pair, is_token, new_headers, pair_error, parse_headers, read_pair,
  read_pairs, sort, valid_header_name, valid_header_value,
}

abbrev packages : Packages
packages = record {
  library = library;
  compile = λ pattern. Compiled.compiled;
  split_host_port = λ s. some (bytes "0.0.0.0", bytes "4318");
  show_duration = λ d. [];
  show_int = λ n. [];
}

-- The required variables, and nothing else.
abbrev environment : Lookup
environment name =
    if name == bytes "OTEL_EXPORTER_OTLP_ENDPOINT"
    then some (bytes "http://c:1")
    else if name == bytes "OIDC_ISSUER_URL"
    then some (bytes "https://id")
    else if name == bytes "OIDC_AUDIENCE"
    then some (bytes "app")
    else if name == bytes "ALLOWED_SERVICE_NAMES"
    then some (bytes "web")
    else none

-- A file is written.
abbrev is_wrote : Effect → Bool
is_wrote (wrote path yaml) = true
is_wrote (unset_variable name) = false
is_wrote (logged sinks level message about) = false
is_wrote (started uri) = false
is_wrote (flushed sinks) = false
is_wrote (warned_on_stderr message failure) = false

writes :
    any is_wrote
      (run host (λ u. none) (shipped_tables packages settings.logs settings) environment).0
    ≡ true
unfolding contains insert lookup ◌==◌ bytes escaped is_hex is_unreserved plain query_escape
    query_escape_byte unescape unhex cut drop_spaces equal_fold join lower space_len space_len_back
    split to_lower trim_space ◌*ℤ◌ modify put itoa parse_int natural digits_value signals
    parse_compression parse_protocol signal_string variable_part capped parse_bool read_timeout
    read_queue_size read_retry set_endpoint add_header check_pair encode_pair is_token less
    new_headers pair_error parse_headers read_pair read_pairs sort valid_header_name
    valid_header_value assign file_rule key_rule protocol_rule rules tls_rule unused_files
    unused_insecure resolve_signals resolve_signal resolve fail invalid new_resolver accept
    parse_values values value fault_text prefix shown signal_name base_name resolve_settings load
    load_groups load_group load_variables load_variable settings_groups identity_variables
    listener_variables bounds_variables metrics_variables resources_variables self_variables
    logs_variables own_variables variable parse_field read_addr read_log_level read_log_format
    read_log_output to_upstream list_error read_key_value add_key_value read_key_values read_list
    read_pattern check_compiled anchored read_metric_pattern nonblank split_list
    parse_duration_field parse_int_field parse_uint32_field parse_uint client_owned claim_errors
    claims_errors resource_errors resources_errors identity_errors bounds_errors metric_errors
    listener_errors memory_errors settings_errors config_of logs across run shipped_tables
    source_groups logs_groups names sdk_variables unset_all own_sinks to_stdout has new_logger
    write_rendered run_collector_on with_stop run_rendered shown_settings
    otlp_collector_oidc.Upstream.Resolve.Signals.across
    otlp_collector_oidc.Upstream.Variables.settings
writes = refl

run-IsRendering_example :
    All
      (Writes host (IsRendering packages environment host))
      (run host (λ u. none) (shipped_tables packages settings.logs settings) environment).0
run-IsRendering_example =
    run-IsRendering packages environment host (λ u. none) settings.logs settings
