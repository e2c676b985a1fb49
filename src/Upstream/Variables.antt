-- ===== src/Upstream/Variables.antt =====
-- internal/upstream/variables.go: the table of the variables, their names and their errors.
use otlp_collector_oidc.Prelude.{
  Text, String, bytes, List, [], ◌∷◌, ◌++◌, map, Option, none, some, if◌then◌else◌, Bool, true,
  false,
}
use otlp_collector_oidc.Upstream.Enums.{Signal, signals, variable_part}

unfoldable pub prefix : Text
prefix = bytes "OTEL_EXPORTER_OTLP_"

-- A row of the table, less its text for the reference.
pub record Setting : Type 0 where
  pub suffix : Text
  pub per_signal : Bool
  pub required : Bool
  pub secret : Bool
  pub tls_file : Bool
  pub def : Text

-- A setting that signals may have of their own, and one that all share.
abbrev per_signal_row : String → String → Setting
per_signal_row suffix def = record {
  suffix = bytes suffix;
  per_signal = true;
  required = false;
  secret = false;
  tls_file = false;
  def = bytes def;
}

abbrev global_row : String → String → Setting
global_row name def = record (per_signal_row name def) { per_signal = false }

abbrev pub endpoint_row : Setting
endpoint_row = record (per_signal_row "ENDPOINT" "") { required = true }

abbrev pub protocol_row : Setting
protocol_row = per_signal_row "PROTOCOL" "grpc"

abbrev pub headers_row : Setting
headers_row = record (per_signal_row "HEADERS" "") { secret = true }

abbrev pub timeout_row : Setting
timeout_row = per_signal_row "TIMEOUT" "10000"

abbrev pub compression_row : Setting
compression_row = per_signal_row "COMPRESSION" "gzip"

abbrev pub certificate_row : Setting
certificate_row = record (per_signal_row "CERTIFICATE" "") { tls_file = true }

abbrev pub client_certificate_row : Setting
client_certificate_row = record (per_signal_row "CLIENT_CERTIFICATE" "") { tls_file = true }

abbrev pub client_key_row : Setting
client_key_row = record (per_signal_row "CLIENT_KEY" "") { tls_file = true }

abbrev pub insecure_row : Setting
insecure_row = per_signal_row "INSECURE" "false"

abbrev pub skip_verify_row : Setting
skip_verify_row = global_row "UPSTREAM_TLS_INSECURE_SKIP_VERIFY" "false"

abbrev pub queue_size_row : Setting
queue_size_row = global_row "UPSTREAM_QUEUE_SIZE" "1000"

abbrev pub retry_max_elapsed_row : Setting
retry_max_elapsed_row = global_row "UPSTREAM_RETRY_MAX_ELAPSED" "60s"

unfoldable pub settings : List Setting
settings =
    endpoint_row ∷ protocol_row ∷ headers_row ∷ timeout_row ∷ compression_row ∷ certificate_row
    ∷ client_certificate_row ∷ client_key_row ∷ insecure_row ∷ skip_verify_row ∷ queue_size_row
    ∷ retry_max_elapsed_row ∷ []

unfoldable pub base_name : Setting → Text
base_name s = if s.per_signal then prefix ++ s.suffix else s.suffix

unfoldable pub signal_name : Setting → Signal → Text
signal_name s sig = if s.per_signal then prefix ++ (variable_part sig ++ s.suffix) else s.suffix

-- The names that one row adds to `Names`.
names_of : Setting → List Text
names_of s = base_name s ∷ (if s.per_signal then map (signal_name s) signals else [])

-- The loop of `Names`.
names_of_all : List Setting → List Text
unfolding names_of
names_of_all [] = []
names_of_all (s ∷ ss) = names_of s ++ names_of_all ss

unfoldable pub names : List Text
unfolding names_of_all names_of
names = names_of_all settings

-- What is wrong with a variable: `required` is `ErrRequired`.
pub data Cause : Type 0 where
  required : Cause
  cause : Text → Cause

-- An error of `Resolve`: a VariableError, or the text of one that names several variables.
pub data Fault : Type 0 where
  variable_error : (name value : Text) → Cause → Fault
  rule_error : Text → Fault

-- `quote` is strconv.Quote, which `%q` writes.
module _ (quote : Text → Text) where
  -- `VariableError.Error`.
  variable_error_text : Text → Text → Cause → Text
  variable_error_text name value required = name ++ bytes " is required"
  variable_error_text name [] (cause e) = bytes "invalid " ++ (name ++ (bytes ": " ++ e))
  variable_error_text name (b ∷ value) (cause e) =
      bytes "invalid " ++ (name ++ (bytes " " ++ (quote (b ∷ value) ++ (bytes ": " ++ e))))

  unfoldable pub fault_text : Fault → Text
  unfolding variable_error_text
  fault_text (variable_error name value why) = variable_error_text name value why
  fault_text (rule_error text) = text

-- What `url.Parse` returns of a text, as far as it is read. `redacted` is its `Redacted()`.
pub record Url : Type 0 where
  pub scheme : Text
  pub hostname : Text
  pub port : Text
  pub host : Text
  pub has_user : Bool
  pub path : Text
  pub raw_query : Text
  pub fragment : Text
  pub redacted : Text

masked : Option Url → Text → Text
masked none raw = raw
masked (some u) raw = if u.has_user then u.redacted else raw

unfoldable pub shown : (Text → Option Url) → Setting → Text → Text
unfolding masked
shown parse_url s raw = if s.secret then [] else masked (parse_url raw) raw
