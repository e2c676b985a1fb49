-- ===== src/Upstream/Tests.antt =====
-- The theorems about internal/upstream at concrete inputs.
use otlp_collector_oidc.Prelude.{
  bytes, ◌==◌, List, [], ◌∷◌, none, some, if◌then◌else◌, false, ◌≡◌, refl, split, cut, trim_space,
  join, lookup, arith,
}
use mathlib.Core.List.{Perm}
use otlp_collector_oidc.Prelude.Int.{pos}
use otlp_collector_oidc.Prelude.Result.{ok, err, itoa}
use otlp_collector_oidc.Prelude.Escape.{unescape, query_escape, query_escape_byte, is_unreserved}
use otlp_collector_oidc.Prelude.Ordered.{put}
use otlp_collector_oidc.Upstream.Enums.{signal_traces, variable_part}
use otlp_collector_oidc.Upstream.Headers.{
  check_pair, pair_error, Header, new_headers, pairs, parse_headers, read_pairs, read_pair,
  valid_header_name, is_token, valid_header_value, add_header, encode_pair,
}
use otlp_collector_oidc.Upstream.Headers.Encoding.{IsSorted, pairs-new_headers}
use otlp_collector_oidc.Upstream.Headers.Refused.{Parsed, parse_headers-Parsed}
use otlp_collector_oidc.Upstream.Variables.{Url, base_name, signal_name, settings, prefix}
use otlp_collector_oidc.Upstream.Resolve.{Lookup, Library}
use otlp_collector_oidc.Upstream.Resolve.Signals.{resolve}
use otlp_collector_oidc.Upstream.Resolve.Signals.Complete.{Outcome, resolve-IsOutcome}
use otlp_collector_oidc.Upstream.Resolve.Signals.Reads.{resolve-alike}

abbrev two_headers : List Header
two_headers =
    record { name = bytes "x"; value = bytes "1=2" } ∷ record { name = bytes "a"; value = [] } ∷ []

pairs-new_headers_example :
    Perm (pairs (new_headers two_headers)) two_headers × IsSorted (pairs (new_headers two_headers))
unfolding bytes
pairs-new_headers_example = pairs-new_headers two_headers (omega arith)

read_headers : parse_headers (bytes "a=1") ≡ ok (bytes "a=1")
unfolding parse_headers read_pairs split bytes trim_space read_pair cut unescape valid_header_name
    is_token valid_header_value new_headers join add_header put lookup encode_pair query_escape
    query_escape_byte is_unreserved
read_headers = refl

refused_headers : parse_headers (bytes "a=1,token") ≡ err (bytes "pair 2 is not key=value")
unfolding parse_headers read_pairs split bytes trim_space read_pair cut unescape valid_header_name
    is_token valid_header_value add_header put lookup check_pair pair_error itoa
refused_headers = refl

parse_headers-Parsed_example :
    Parsed (split b',' (bytes "a=1,token")) (parse_headers (bytes "a=1,token"))
parse_headers-Parsed_example = parse_headers-Parsed (bytes "a=1,token")

abbrev collector : Url
collector = record {
  scheme = bytes "http";
  hostname = bytes "collector";
  port = bytes "4317";
  host = bytes "collector:4317";
  has_user = false;
  path = [];
  raw_query = [];
  fragment = [];
  redacted = bytes "http://collector:4317";
}

-- Packages that know one URL and one duration.
abbrev packages : Library
packages = record {
  parse_url = λ raw. if raw == bytes "http://collector:4317" then some collector else none;
  parse_duration = λ raw. if raw == bytes "60s" then some (pos 60000000000) else none;
  quote = λ s. s;
}

abbrev base : Lookup
base name =
    if name == bytes "OTEL_EXPORTER_OTLP_ENDPOINT"
    then some (bytes "http://collector:4317")
    else none

-- The same, with a variable of another signal and an empty one.
abbrev base_and_more : Lookup
base_and_more name =
    if name == bytes "OTEL_EXPORTER_OTLP_LOGS_TIMEOUT"
    then some (bytes "never")
    else if name == bytes "OTEL_EXPORTER_OTLP_HEADERS"
    then some []
    else base name

resolve-IsOutcome_example :
    Outcome packages base (signal_traces ∷ []) (resolve packages base (signal_traces ∷ []))
resolve-IsOutcome_example = resolve-IsOutcome packages base (signal_traces ∷ [])

resolve-alike_example :
    resolve packages base (signal_traces ∷ []) ≡ resolve packages base_and_more (signal_traces ∷ [])
unfolding settings base_name signal_name prefix bytes ◌==◌ variable_part
resolve-alike_example =
    resolve-alike packages base base_and_more (signal_traces ∷ [])
      (
        refl,
        (refl, (refl, (refl, (refl, (refl, (refl, (refl, (refl, (refl, (refl, (refl, tt))))))))))),
      )
      (
        (
          refl,
          (
            refl,
            (refl, (refl, (refl, (refl, (refl, (refl, (refl, (refl, (refl, (refl, tt)))))))))),
          ),
        ),
        tt,
      )
