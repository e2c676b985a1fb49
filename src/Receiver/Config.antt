-- ===== src/Receiver/Config.antt =====
-- receiver/otlpsingleport/config.go and newGRPCServer of grpc.go: the listener's settings, and the
-- bound of a gRPC message that follows from them.
pub mod Laws
use otlp_collector_oidc.Prelude.{Text, Option, none, some, if◌then◌else◌, ◌||◌, not, is_empty}
use otlp_collector_oidc.Prelude.Int.{ℤ, pos, ltb_ℤ, ◌-ℤ◌}

-- The two settings of confighttp's that the receiver reads; the size is an int64.
pub record Config : Type 0 where
  pub endpoint : Text
  pub max_request_body_size : ℤ

pub data ListenerError : Type 0 where
  err_no_endpoint err_body_size_out_of_range : ListenerError

abbrev pub grpc_frame_header : ℤ
grpc_frame_header = pos 5

-- `math.MaxInt32`.
abbrev pub max_int32 : ℤ
max_int32 = pos 2147483647

-- `none` is nil.
unfoldable pub validate : Config → Option ListenerError
validate c =
    if is_empty c.endpoint
    then some err_no_endpoint
    else if not (ltb_ℤ grpc_frame_header c.max_request_body_size)
        || ltb_ℤ max_int32 c.max_request_body_size
    then some err_body_size_out_of_range
    else none

-- The argument of `grpc.MaxRecvMsgSize`.
unfoldable pub max_recv_msg_size : ℤ → ℤ
max_recv_msg_size body_cap = body_cap -ℤ grpc_frame_header
