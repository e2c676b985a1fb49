-- ===== src/Receiver/Rpc.antt =====
-- receiver/otlpsingleport/grpc.go: the refusals of gRPC requests. grpc-go calls the interceptor, the
-- handler of unknown services and the stats handler; each call is an event here.
pub mod Laws
use otlp_collector_oidc.Prelude.{
  Option, none, some, List, [], ◌∷◌, if◌then◌else◌, Bool, true, false,
}
use otlp_collector_oidc.Receiver.Codes.{
  Code, ok, canceled, deadline_exceeded, resource_exhausted, unimplemented,
}
use otlp_collector_oidc.Receiver.Refusals.{
  RefusalReason, refusal_body_too_large, refusal_decode, refusal_unknown_path, transport_grpc,
  Refusals, count,
}

-- `none` is the result `0, false`.
unfoldable pub grpc_refusal_reason : Code → Option RefusalReason
grpc_refusal_reason unimplemented = some refusal_unknown_path
grpc_refusal_reason resource_exhausted = some refusal_body_too_large
grpc_refusal_reason canceled = none
grpc_refusal_reason deadline_exceeded = none
grpc_refusal_reason ok = none
grpc_refusal_reason _ = some refusal_decode

-- An RPC: the flag that its context carries, and the refusals that it shares with the others.
pub record Rpc : Type 0 where
  pub handled : Bool
  pub refusals : Refusals

-- What grpc-go calls for an RPC. An `ended` carries the code of `end.Error`, if there is one.
pub data Event : Type 0 where
  decoded unrouted other_stats : Event
  ended : Option Code → Event

-- `TagRPC`.
unfoldable pub tag_rpc : Refusals → Rpc
tag_rpc r = record { handled = false; refusals = r }

unfoldable pub mark_handled : Rpc → Rpc
mark_handled c = record c { handled = true }

unfoldable pub unknown_service : Rpc → Rpc
unknown_service c = record {
  handled = true;
  refusals = count c.refusals transport_grpc refusal_unknown_path;
}

count_reason : Rpc → Option RefusalReason → Rpc
count_reason c none = c
count_reason c (some why) = record c { refusals = count c.refusals transport_grpc why }

-- `HandleRPC` of a `stats.End`.
unfoldable pub handle_end : Rpc → Option Code → Rpc
unfolding count_reason
handle_end c none = c
handle_end c (some code) = if c.handled then c else count_reason c (grpc_refusal_reason code)

unfoldable pub handle : Rpc → Event → Rpc
unfolding mark_handled unknown_service handle_end
handle c decoded = mark_handled c
handle c unrouted = unknown_service c
handle c other_stats = c
handle c (ended code) = handle_end c code

unfoldable pub handle_all : Rpc → List Event → Rpc
handle_all c [] = c
handle_all c (e ∷ es) = handle_all (handle c e) es
