-- ===== src/Receiver/Registry.antt =====
-- receiver/otlpsingleport/factory.go and server.go: the receiver that pipelines share, its start and
-- its shutdown.
pub mod Once
pub mod Shared
use otlp_collector_oidc.Prelude.{
  ℕ, ◌+◌, Text, bytes, List, [], ◌∷◌, ◌++◌, Option, none, some, if◌then◌else◌, Bool, true, false,
  ltb, eqb,
}
use otlp_collector_oidc.Prelude.Result.{Result, ok, err}

-- What the listener's settings come to when they are asked for a server and a listener.
pub data Opening : Type 0 where
  no_server no_listener : Text → Opening
  listening : Opening

-- `singlePort`: the signals' paths that are registered on the gRPC server and in `routes`, whether
-- `httpServer` is set, how many listeners were opened, and how often its server was shut down, the
-- gRPC server stopped and the telemetry closed.
pub record SinglePort : Type 0 where
  pub services : List Text
  pub routes : List Text
  pub server : Bool
  pub opened : ℕ
  pub closed : ℕ
  pub grpc_stopped : ℕ
  pub metrics_closed : ℕ

-- `sharedReceiver`, of a configuration: the results of the two functions that are called once.
pub record SharedReceiver : Type 0 where
  pub config : ℕ
  pub port : SinglePort
  pub started : Option (Option Text)
  pub stopped : Option (Option Text)

-- `registry`, with the receivers that were made: configurations and receivers are pointers.
pub record Registry : Type 0 where
  pub receivers : List (ℕ × ℕ)
  pub made : ℕ → SharedReceiver
  pub next : ℕ

-- `Start` of a singlePort.
unfoldable pub start_port : Opening → SinglePort → SinglePort × Option Text
start_port (no_server e) p = (p, some (bytes "creating the server: " ++ e))
start_port (no_listener e) p = (p, some (bytes "opening the listener: " ++ e))
start_port listening p = (record p { server = true; opened = p.opened + 1 }, none)

shutdown_server : Option Text → SinglePort → SinglePort × Option Text
shutdown_server result p =
    if p.server then (record p { closed = p.closed + 1 }, result) else (p, none)

-- `Shutdown` of a singlePort; `result` is the server's.
unfoldable pub shutdown_port : Option Text → SinglePort → SinglePort × Option Text
unfolding shutdown_server
shutdown_port result p =
    let (q, e) = shutdown_server result p in
    (record q { grpc_stopped = q.grpc_stopped + 1; metrics_closed = q.metrics_closed + 1 }, e)

start_once : Option (Option Text) → Opening → SharedReceiver → SharedReceiver × Option Text
unfolding start_port
start_once (some e) o s = (s, e)
start_once none o s =
    let (p, e) = start_port o s.port in (record s { port = p; started = some e }, e)

-- `Start` of a sharedReceiver.
unfoldable pub start_shared : Opening → SharedReceiver → SharedReceiver × Option Text
unfolding start_once
start_shared o s = start_once s.started o s

unfoldable pub new_single_port : SinglePort
new_single_port = record {
  services = [];
  routes = [];
  server = false;
  opened = 0;
  closed = 0;
  grpc_stopped = 0;
  metrics_closed = 0;
}

unfoldable pub new_shared : ℕ → SharedReceiver
unfolding new_single_port
new_shared cfg = record { config = cfg; port = new_single_port; started = none; stopped = none }

-- `NewFactory`'s registry.
unfoldable pub new_registry : Registry
new_registry = record { receivers = []; made = new_shared; next = 0 }

-- `r.receivers[cfg]`.
unfoldable pub find : ℕ → List (ℕ × ℕ) → Option ℕ
find cfg [] = none
find cfg ((c, ref) ∷ more) = if eqb c cfg then some ref else find cfg more

-- `delete(r.receivers, cfg)`.
unfoldable pub delete : ℕ → List (ℕ × ℕ) → List (ℕ × ℕ)
delete cfg [] = []
delete cfg ((c, ref) ∷ more) =
    let rest = delete cfg more in if eqb c cfg then rest else (c, ref) ∷ rest

unfoldable pub assign : (ℕ → SharedReceiver) → ℕ → SharedReceiver → ℕ → SharedReceiver
assign made ref s k = if eqb k ref then s else made k

-- The error of `newReceiver`, of those of its telemetry and its two reports.
unfoldable pub new_receiver_error : Option Text → Option Text → Option Text → Option Text
new_receiver_error (some e) grpc http = some (bytes "creating the receiver's telemetry: " ++ e)
new_receiver_error none (some e) http = some (bytes "creating the grpc obsreport: " ++ e)
new_receiver_error none none (some e) = some (bytes "creating the http obsreport: " ++ e)
new_receiver_error none none none = none

load_found : Option Text → Registry → ℕ → Option ℕ → Registry × Result ℕ
unfolding assign new_shared
load_found build r cfg (some ref) = (r, ok ref)
load_found (some e) r cfg none = (r, err e)
load_found none r cfg none = (
  record {
    receivers = (cfg, r.next) ∷ r.receivers;
    made = assign r.made r.next (new_shared cfg);
    next = r.next + 1;
  },
  ok r.next,
)

-- `load`; `build` is the error of newReceiver, which `new_receiver_error` gives.
unfoldable pub load : Option Text → Registry → ℕ → Registry × Result ℕ
unfolding load_found find
load build r cfg = load_found build r cfg (find cfg r.receivers)

-- `registerTraces` and the others, of the path of the signal.
unfoldable pub register_path : Text → SharedReceiver → SharedReceiver
register_path path s = record s {
  port = record s.port { services = path ∷ s.port.services; routes = path ∷ s.port.routes };
}

route_registered : Text → Registry × Result ℕ → Registry × Result ℕ
unfolding register_path assign
route_registered path (r, err e) = (r, err e)
route_registered path (r, ok ref) =
    (record r { made = assign r.made ref (register_path path (r.made ref)) }, ok ref)

-- `createTraces`, `createLogs` and `createMetrics`.
unfoldable pub create : Text → Option Text → Registry → ℕ → Registry × Result ℕ
unfolding route_registered
create path build r cfg = route_registered path (load build r cfg)

unfoldable pub start : ℕ → Opening → Registry → Registry × Option Text
unfolding assign
start ref o r =
    let (s, e) = start_shared o (r.made ref) in (record r { made = assign r.made ref s }, e)

shutdown_once : Option (Option Text) → ℕ → Option Text → Registry → Registry × Option Text
unfolding assign delete
shutdown_once (some e) ref result r = (r, e)
shutdown_once none ref result r =
    let s = r.made ref in
    let (p, e) = shutdown_port result s.port in
    (
      record r {
        made = assign r.made ref (record s { port = p; stopped = some e });
        receivers = delete s.config r.receivers;
      },
      e,
    )

-- `Shutdown` of a sharedReceiver, which releases it.
unfoldable pub shutdown : ℕ → Option Text → Registry → Registry × Option Text
unfolding shutdown_once
shutdown ref result r = shutdown_once (r.made ref).stopped ref result r

-- What the collector does with its pipelines.
pub data Call : Type 0 where
  creates : (path : Text) → (build : Option Text) → (cfg : ℕ) → Call
  starts : (ref : ℕ) → Opening → Call
  shuts_down : (ref : ℕ) → (result : Option Text) → Call

-- One call; a receiver that was not made is none of the pipelines'.
unfoldable pub call : Registry → Call → Registry
unfolding create start shutdown
call r (creates path build cfg) = (create path build r cfg).0
call r (starts ref o) = if ltb ref r.next then (start ref o r).0 else r
call r (shuts_down ref result) = if ltb ref r.next then (shutdown ref result r).0 else r

unfoldable pub calls : Registry → List Call → Registry
unfolding call
calls r [] = r
calls r (c ∷ cs) = calls (call r c) cs
