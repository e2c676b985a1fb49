-- ===== src/Receiver/Tests.antt =====
-- The theorems about receiver/otlpsingleport at concrete inputs.
mod Responses
mod Pipelines
use otlp_collector_oidc.Prelude.{◌≢◌, ◌↔◌, ◌++◌, none, some, bytes, ◌≡◌, refl, [], ◌∷◌, All, arith}
use otlp_collector_oidc.Prelude.Int.{pos, ◌≤ℤ◌}
use otlp_collector_oidc.Receiver.Message.{encode_byte, encode_grpc_message}
use otlp_collector_oidc.Receiver.Message.Laws.{decode, decode-encode_grpc_message, IsPlain}
use otlp_collector_oidc.Receiver.Codes.{Code, http_status_from_status, status_from_http}
use otlp_collector_oidc.Receiver.Codes.Laws.{status_from_http-http_status_from_status}
use otlp_collector_oidc.Receiver.Refusals.{Refusals}
use otlp_collector_oidc.Receiver.Rpc.{other_stats, ended, tag_rpc, handle_all}
use otlp_collector_oidc.Receiver.Rpc.Laws.{
  no_service, outcome_events, counted_once, handle_all-counted_once,
}
use otlp_collector_oidc.Receiver.Config.{Config, validate, max_recv_msg_size}
use otlp_collector_oidc.Receiver.Config.Laws.{validate-none_iff}

encoded : encode_grpc_message (bytes "50% ok") ≡ bytes "50%25 ok"
unfolding encode_grpc_message encode_byte bytes
encoded = refl

-- A percent sign, a letter and a line break.
decode-encode_grpc_message_example :
    (decode (encode_grpc_message (37 ∷ 65 ∷ 10 ∷ [])) ≡ 37 ∷ 65 ∷ 10 ∷ [])
    × All IsPlain (encode_grpc_message (37 ∷ 65 ∷ 10 ∷ []))
decode-encode_grpc_message_example =
    decode-encode_grpc_message (37 ∷ 65 ∷ 10 ∷ []) (omega arith, (omega arith, (omega arith, tt)))

abbrev refusals : Refusals
refusals = record { receiver = bytes "otlp"; counter = [] }

-- A service that is not there, then the end of the RPC with its code.
handle_all-counted_once_example :
    (handle_all (tag_rpc refusals) (
      (other_stats ∷ [])
      ++ (outcome_events no_service ++ ([] ++ (ended (some Code.unimplemented) ∷ []))))).refusals
    ≡ counted_once refusals no_service (some Code.unimplemented)
handle_all-counted_once_example =
    handle_all-counted_once refusals no_service (other_stats ∷ []) [] (some Code.unimplemented)
      (refl, tt) tt
