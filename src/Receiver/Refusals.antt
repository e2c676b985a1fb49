-- ===== src/Receiver/Refusals.antt =====
-- receiver/otlpsingleport/refusals.go: the requests that are refused before the pipeline, counted.
use otlp_collector_oidc.Prelude.{Text, bytes, List, ◌∷◌}

pub data Transport : Type 0 where
  transport_http transport_grpc : Transport

pub data RefusalReason : Type 0 where
  refusal_method refusal_media_type refusal_body_too_large : RefusalReason
  refusal_decode refusal_unknown_path refusal_decompress : RefusalReason

unfoldable pub transport_string : Transport → Text
transport_string transport_http = bytes "http"
transport_string transport_grpc = bytes "grpc"

unfoldable pub refusal_string : RefusalReason → Text
refusal_string refusal_method = bytes "method"
refusal_string refusal_media_type = bytes "media_type"
refusal_string refusal_body_too_large = bytes "body_too_large"
refusal_string refusal_decode = bytes "decode"
refusal_string refusal_unknown_path = bytes "unknown_path"
refusal_string refusal_decompress = bytes "decompress"

-- The counter, as the labels that it was given, the latest first.
pub record Refusals : Type 0 where
  pub receiver : Text
  pub counter : List (Text × Text × Text)

unfoldable pub count : Refusals → Transport → RefusalReason → Refusals
count r t why = record r {
  counter = (r.receiver, transport_string t, refusal_string why) ∷ r.counter;
}
