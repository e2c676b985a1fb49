-- ===== src/Render/Values.antt =====
-- internal/render/values.go: the types that a variable's text is read into.
pub mod Pairs
use otlp_collector_oidc.Prelude.{
  ℕ, ◌+◌, Text, bytes, ◌==◌, contains, List, [], ◌∷◌, ◌++◌, map, any, Option, none, some,
  if◌then◌else◌, Bool, true, false, not, ◌||◌, split, cut, join, trim_space, is_empty, Entries,
}
use otlp_collector_oidc.Prelude.Int.{ℤ, pos, ltb_ℤ}
use otlp_collector_oidc.Prelude.Numbers.{parse_int}
use otlp_collector_oidc.Prelude.Escape.{path_escape, unescape}
use otlp_collector_oidc.Prelude.Ordered.{put}
use otlp_collector_oidc.Prelude.Result.{Result, ok, err, ◌>>=◌, itoa}

pub record Addr : Type 0 where
  pub host : Text
  pub port : Text

is_port : Option ℤ → Bool
is_port none = false
is_port (some n) = not (ltb_ℤ n (pos 1) || ltb_ℤ (pos 65535) n)

addr_of : Option (Text × Text) → Result Addr
unfolding is_port
addr_of none = err (bytes "must be host:port, such as 0.0.0.0:4318")
addr_of (some (host, port)) =
    if is_empty host
    then err (bytes "must be host:port, such as 0.0.0.0:4318")
    else if is_port (parse_int port)
    then ok (record { host = host; port = port })
    else err (bytes "port must be a number from 1 to 65535")

-- `Addr.UnmarshalText`; `split_host_port` is net.SplitHostPort.
unfoldable pub read_addr : (Text → Option (Text × Text)) → Text → Result Addr
unfolding addr_of
read_addr split_host_port text = addr_of (split_host_port text)

pub data LogLevel : Type 0 where
  level_debug level_info level_warn level_error : LogLevel

unfoldable pub read_log_level : Text → Result LogLevel
read_log_level text =
    if text == bytes "debug"
    then ok level_debug
    else if text == bytes "info"
    then ok level_info
    else if text == bytes "warn"
    then ok level_warn
    else if text == bytes "error"
    then ok level_error
    else err (bytes "must be debug, info, warn or error")

pub data LogFormat : Type 0 where
  format_json format_console : LogFormat

unfoldable pub read_log_format : Text → Result LogFormat
read_log_format text =
    if text == bytes "json"
    then ok format_json
    else if text == bytes "console"
    then ok format_console
    else err (bytes "must be json or console")

pub data LogOutput : Type 0 where
  output_both output_otlp output_stdout : LogOutput

unfoldable pub read_log_output : Text → Result LogOutput
read_log_output text =
    if text == bytes "both"
    then ok output_both
    else if text == bytes "otlp"
    then ok output_otlp
    else if text == bytes "stdout"
    then ok output_stdout
    else err (bytes "must be both, otlp or stdout")

-- `LogOutput.Upstream`.
unfoldable pub to_upstream : LogOutput → Bool
to_upstream output_both = true
to_upstream output_otlp = true
to_upstream output_stdout = false

-- `LogOutput.Stdout`.
unfoldable pub to_stdout : LogOutput → Bool
to_stdout output_both = true
to_stdout output_otlp = false
to_stdout output_stdout = true

pub record KeyValue : Type 0 where
  pub key : Text
  pub value : Text

unfoldable pub list_error : ℕ → Text → Text
list_error n what = bytes "pair " ++ (itoa n ++ (bytes " " ++ what))

-- The switch over a pair's parts.
check_key_value : ℕ → Bool → Text → Option Text → Result KeyValue
check_key_value n found key none =
    if not found || is_empty key
    then err (list_error n (bytes "is not key=value"))
    else err (list_error n (bytes "has a malformed percent-encoding"))
check_key_value n found key (some value) =
    if not found || is_empty key
    then err (list_error n (bytes "is not key=value"))
    else ok (record { key = key; value = value })

unfoldable pub read_key_value : ℕ → Text → Result KeyValue
unfolding check_key_value
read_key_value n item =
    let (k, v, found) = cut b'=' item in
    check_key_value n found (trim_space k) (unescape false (trim_space v))

-- `out[i].Value = value`, or the pair at the end.
unfoldable pub add_key_value : Entries ℕ × List KeyValue → KeyValue → Entries ℕ × List KeyValue
add_key_value state kv = put kv.key kv (λ old. record old { value = kv.value }) state

-- The loop over the items, the next of which is the n-th.
unfoldable pub read_key_values :
    ℕ → Entries ℕ × List KeyValue → List Text → Result (Entries ℕ × List KeyValue)
read_key_values n state [] = ok state
read_key_values n state (item ∷ items) =
    let skipped = read_key_values (n + 1) state items in
    if is_empty (trim_space item)
    then skipped
    else read_key_value n item >>= λ kv. read_key_values (n + 1) (add_key_value state kv) items

-- `KeyValueList.UnmarshalText`.
unfoldable pub read_list : Text → Result (List KeyValue)
read_list text = read_key_values 1 ([], []) (split b',' text) >>= λ (index, out). ok out

unfoldable pub key_value_text : KeyValue → Text
key_value_text kv = kv.key ++ b'=' ∷ path_escape kv.value

-- `KeyValueList.String`.
unfoldable pub list_text : List KeyValue → Text
list_text l = join (map key_value_text l) (b',' ∷ [])

-- `KeyValueList.Has`.
unfoldable pub has : List KeyValue → Text → Bool
has l key = any (λ kv. kv.key == key) l

-- `KeyValueList.Without`.
unfoldable pub without : List KeyValue → List Text → List KeyValue
without [] keys = []
without (kv ∷ l) keys = if contains keys kv.key then without l keys else kv ∷ without l keys
