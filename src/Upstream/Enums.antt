-- ===== src/Upstream/Enums.antt =====
-- internal/upstream/enums.go: the closed sets of the exporters' settings.
use otlp_collector_oidc.Prelude.{Text, bytes, ◌==◌, List, [], ◌∷◌, ◌++◌, if◌then◌else◌}
use otlp_collector_oidc.Prelude.Result.{Result, ok, err}

pub data Signal : Type 0 where
  signal_traces signal_logs signal_metrics : Signal

unfoldable pub signals : List Signal
signals = signal_traces ∷ signal_logs ∷ signal_metrics ∷ []

unfoldable pub signal_string : Signal → Text
signal_string signal_traces = bytes "traces"
signal_string signal_logs = bytes "logs"
signal_string signal_metrics = bytes "metrics"

unfoldable pub variable_part : Signal → Text
variable_part signal_traces = bytes "TRACES_"
variable_part signal_logs = bytes "LOGS_"
variable_part signal_metrics = bytes "METRICS_"

-- The loop of `ParseSignal`.
unfoldable pub find_signal : List Signal → Text → Result Signal
find_signal [] s = err (bytes "unknown signal " ++ s)
find_signal (sig ∷ sigs) s = if signal_string sig == s then ok sig else find_signal sigs s

unfoldable pub parse_signal : Text → Result Signal
unfolding find_signal
parse_signal s = find_signal signals s

-- `unset` is the empty string that a Protocol starts as.
pub data Protocol : Type 0 where
  unset grpc http_protobuf : Protocol

-- The text of a Protocol.
abbrev pub protocol_string : Protocol → Text
protocol_string unset = []
protocol_string grpc = bytes "grpc"
protocol_string http_protobuf = bytes "http/protobuf"

unfoldable pub parse_protocol : Text → Result Protocol
parse_protocol raw =
    if raw == bytes "grpc"
    then ok grpc
    else if raw == bytes "http/protobuf"
    then ok http_protobuf
    else err (bytes "must be grpc or http/protobuf")

pub data Compression : Type 0 where
  gzip no_compression : Compression

unfoldable pub parse_compression : Text → Result Compression
parse_compression raw =
    if raw == bytes "gzip"
    then ok gzip
    else if raw == bytes "none"
    then ok no_compression
    else err (bytes "must be gzip or none")
