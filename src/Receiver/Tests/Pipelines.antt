-- ===== src/Receiver/Tests/Pipelines.antt =====
-- The pipelines of one configuration, at concrete calls.
use otlp_collector_oidc.Prelude.{ℕ, ◌≡◌, ◌≤◌, refl, List, [], ◌∷◌, none, bytes, arith}
use otlp_collector_oidc.Receiver.Registry.{
  listening, new_registry, new_shared, find, assign, load, create, register_path, Call, creates,
  starts, shuts_down, call, calls,
}
use otlp_collector_oidc.Receiver.Registry.Once.{calls-once}
use otlp_collector_oidc.Receiver.Registry.Shared.Calls.{calls-shared}

abbrev pipelines : List Call
pipelines = creates (bytes "/v1/traces") none 0 ∷ creates (bytes "/v1/logs") none 0 ∷ []

abbrev life : List Call
life =
    creates (bytes "/v1/traces") none 0
    ∷ creates (bytes "/v1/logs") none 0
    ∷ starts 0 listening
    ∷ starts 0 listening
    ∷ shuts_down 0 none
    ∷ shuts_down 0 none
    ∷ []

calls-once_example :
    let port = ((calls new_registry life).made 0).port in
    (port.opened ≤ 1) × (port.closed ≤ 1) × (port.grpc_stopped ≤ 1) × (port.metrics_closed ≤ 1)
calls-once_example = calls-once life 0

calls-shared_example : ◌≡◌ {A = ℕ} 0 0
unfolding calls call create load find new_registry assign register_path new_shared
calls-shared_example = calls-shared pipelines 0 0 (omega arith) (omega arith) refl refl refl
