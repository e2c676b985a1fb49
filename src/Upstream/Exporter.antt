-- ===== src/Upstream/Exporter.antt =====
-- internal/upstream/config.go and resolve.go: an exporter's configuration and the readers of its
-- parts, which change no resolver.
pub mod Bounds
pub mod Shown
use otlp_collector_oidc.Prelude.{
  Text, bytes, ◌==◌, equal_fold, to_lower, Option, none, some, if◌then◌else◌, Bool, true, false,
  not, ◌&&◌, ◌||◌, is_empty, [],
}
use otlp_collector_oidc.Prelude.Int.{ℤ, pos, ltb_ℤ, ◌*ℤ◌}
use otlp_collector_oidc.Prelude.Time.{Duration, second}
use otlp_collector_oidc.Prelude.Numbers.{parse_int}
use otlp_collector_oidc.Prelude.Result.{Result, ok, err}
use otlp_collector_oidc.Upstream.Enums.{Protocol, unset, grpc, http_protobuf, Compression, gzip}
use otlp_collector_oidc.Upstream.Variables.{Url}

pub record ExporterConfig : Type 0 where
  pub protocol : Protocol
  pub endpoint : Text
  pub signal_path : Bool
  pub plaintext : Bool
  pub skip_verify : Bool
  pub ca_file : Text
  pub client_cert_file : Text
  pub client_key_file : Text
  pub headers : Text
  pub timeout : Duration
  pub compression : Compression
  pub queue_size : ℤ
  pub retry_max_elapsed : Duration
  pub retry_initial_interval : Duration
  pub retry_max_interval : Duration

abbrev pub default_retry_initial_interval : Duration
default_retry_initial_interval = pos 5000000000

abbrev pub default_retry_max_interval : Duration
default_retry_max_interval = pos 30000000000

-- What `setEndpoint` sets.
pub record Endpoint : Type 0 where
  pub plaintext : Bool
  pub endpoint : Text
  pub signal_path : Bool

is_web : Url → Bool
is_web u = (u.scheme == bytes "http" || u.scheme == bytes "https") && not (is_empty u.hostname)

-- The switch over the protocol, once the URL is one of the web. Of a protocol that is unset it
-- leaves the fields alone.
web_endpoint : Protocol → Url → Text → Bool → Result Endpoint
web_endpoint unset u raw per_signal =
    ok (record { plaintext = u.scheme == bytes "http"; endpoint = []; signal_path = false })
web_endpoint grpc u raw per_signal =
    if is_empty u.port
    then err (bytes "must name a port, such as http://collector:4317")
    else if u.has_user
        || (not (is_empty u.path) && not (u.path == bytes "/"))
        || not (is_empty u.raw_query)
        || not (is_empty u.fragment)
    then err (bytes "must be scheme://host:port only, with no credentials, path or query")
    else ok
        (record { plaintext = u.scheme == bytes "http"; endpoint = u.host; signal_path = false })
web_endpoint http_protobuf u raw per_signal =
    if u.has_user || not (is_empty u.raw_query) || not (is_empty u.fragment)
    then err (bytes "must be a URL with no credentials, query or fragment")
    else ok (record {
      plaintext = u.scheme == bytes "http";
      endpoint = raw;
      signal_path = not per_signal;
    })

not_web : Result Endpoint
not_web = err (bytes "must be an http:// or https:// URL, such as http://collector:4317")

-- `ExporterConfig.setEndpoint`, of a configuration whose other fields it neither reads nor sets.
unfoldable pub set_endpoint : (Text → Option Url) → Protocol → Text → Bool → Result Endpoint
unfolding is_web web_endpoint not_web
set_endpoint parse_url protocol raw per_signal = elim (parse_url raw) [
  | none ↦ not_web
  | some u ↦ if is_web u then web_endpoint protocol u raw per_signal else not_web
]

unfoldable pub capped : Duration → Duration → Duration
capped d limit = if ltb_ℤ (pos 0) limit && ltb_ℤ limit d then limit else d

unfoldable pub parse_bool : Text → Result Bool
parse_bool raw =
    let s = to_lower raw in
    if s == bytes "true"
    then ok true
    else if s == bytes "false"
    then ok false
    else err (bytes "must be true or false")

timeout_of : Option ℤ → Result Duration
timeout_of none = err (bytes "must be a whole number of milliseconds, 1 to 3600000")
timeout_of (some ms) =
    if ltb_ℤ ms (pos 1) || ltb_ℤ (pos 3600000) ms
    then err (bytes "must be a whole number of milliseconds, 1 to 3600000")
    else ok (ms *ℤ pos 1000000)

-- OTEL_EXPORTER_OTLP_TIMEOUT.
unfoldable pub read_timeout : Text → Result Duration
unfolding timeout_of
read_timeout raw = timeout_of (parse_int raw)

queue_size_of : Option ℤ → Result ℤ
queue_size_of none = err (bytes "must be a whole number, at least 1")
queue_size_of (some n) =
    if ltb_ℤ n (pos 1) then err (bytes "must be a whole number, at least 1") else ok n

-- UPSTREAM_QUEUE_SIZE.
unfoldable pub read_queue_size : Text → Result ℤ
unfolding queue_size_of
read_queue_size raw = queue_size_of (parse_int raw)

retry_of : Option Duration → Result Duration
retry_of none = err (bytes "must be a duration such as 60s, or 0s for no limit")
retry_of (some d) =
    if ltb_ℤ d (pos 0)
    then err (bytes "must be a duration such as 60s, or 0s for no limit")
    else ok d

-- UPSTREAM_RETRY_MAX_ELAPSED; `parse_duration` is time.ParseDuration.
unfoldable pub read_retry : (Text → Option Duration) → Text → Result Duration
unfolding retry_of
read_retry parse_duration raw = retry_of (parse_duration raw)
