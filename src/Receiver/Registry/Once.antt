-- ===== src/Receiver/Registry/Once.antt =====
-- A receiver opens one listener at most, and shuts it down once at most.
use otlp_collector_oidc.Prelude.{
  ◌≡◌, ◌≤◌, refl, ap, ◌∙◌, ℕ, ◌+◌, Text, List, [], ◌∷◌, Option, none, some, ltb, eqb, Bool-cases,
  inl, inr, arith,
}
use otlp_collector_oidc.Prelude.Result.{Result, ok, err}
use otlp_collector_oidc.Receiver.Registry.{
  Opening, no_server, no_listener, listening, SinglePort, SharedReceiver, Registry, start_port,
  shutdown_server, shutdown_port, start_once, start_shared, new_single_port, new_shared,
  new_registry, find, assign, load_found, load, register_path, route_registered, create, start,
  shutdown_once, shutdown, Call, creates, starts, shuts_down, call, calls,
}

most : Option (Option Text) → ℕ
most none = 0
most (some e) = 1

-- What was done is done once where it was done at all.
unfoldable pub IsOnce : SharedReceiver → Type 0
unfolding most
IsOnce s =
    (s.port.opened ≤ most s.started)
    × (s.port.closed ≤ most s.stopped)
    × (s.port.grpc_stopped ≡ most s.stopped)
    × (s.port.metrics_closed ≡ most s.stopped)

most_le : (o : Option (Option Text)) → most o ≤ 1
unfolding most
most_le none = omega arith
most_le (some e) = omega arith

start_port-IsOnce :
    (o : Opening) (p : SinglePort)
    → ((start_port o p).0.opened ≤ p.opened + 1)
      × ((start_port o p).0.closed ≡ p.closed)
      × ((start_port o p).0.grpc_stopped ≡ p.grpc_stopped)
      × ((start_port o p).0.metrics_closed ≡ p.metrics_closed)
unfolding start_port
start_port-IsOnce (no_server e) p = (omega arith, refl, refl, refl)
start_port-IsOnce (no_listener e) p = (omega arith, refl, refl, refl)
start_port-IsOnce listening p = (omega arith, refl, refl, refl)

start_once-IsOnce :
    (d : Option (Option Text)) (o : Opening) (s : SharedReceiver)
    → d ≡ s.started
    → IsOnce s
    → IsOnce (start_once d o s).0
unfolding start_once IsOnce most
start_once-IsOnce (some e) o s h i = i
start_once-IsOnce none o s h (a, b, c, d) =
    let (w, x, y, z) = start_port-IsOnce o s.port in
    let never = ap most h in (omega (arith, w, a, never), omega (arith, x, b), y ∙ c, z ∙ d)

shutdown_port-closed :
    (result : Option Text) (p : SinglePort)
    → ((shutdown_port result p).0.closed ≤ p.closed + 1)
      × ((shutdown_port result p).0.opened ≡ p.opened)
      × ((shutdown_port result p).0.grpc_stopped ≡ p.grpc_stopped + 1)
      × ((shutdown_port result p).0.metrics_closed ≡ p.metrics_closed + 1)
unfolding shutdown_port
shutdown_port-closed result p = elim (Bool-cases p.server) [
  | inl e ↦ rw (e, shutdown_server) (omega arith, refl, refl, refl)
  | inr e ↦ rw (e, shutdown_server) (omega arith, refl, refl, refl)
]

-- Every receiver is as it should be.
unfoldable AllOnce : (ℕ → SharedReceiver) → Type 0
AllOnce made = (k : ℕ) → IsOnce (made k)

assign-AllOnce :
    (made : ℕ → SharedReceiver) (ref : ℕ) (s : SharedReceiver)
    → AllOnce made
    → IsOnce s
    → AllOnce (assign made ref s)
unfolding AllOnce assign
assign-AllOnce made ref s a i =
    λ k. elim (Bool-cases (eqb k ref)) [ inl e ↦ rw e i | inr e ↦ rw e (a k) ]

new_shared-IsOnce : (cfg : ℕ) → IsOnce (new_shared cfg)
unfolding IsOnce new_shared new_single_port
new_shared-IsOnce cfg = (omega arith, omega arith, refl, refl)

load_found-AllOnce :
    (build : Option Text) (r : Registry) (cfg : ℕ) (o : Option ℕ)
    → AllOnce r.made
    → AllOnce (load_found build r cfg o).0.made
unfolding load_found
load_found-AllOnce build r cfg (some ref) a = a
load_found-AllOnce (some e) r cfg none a = a
load_found-AllOnce none r cfg none a =
    assign-AllOnce r.made r.next (new_shared cfg) a (new_shared-IsOnce cfg)

register_path-IsOnce : (path : Text) (s : SharedReceiver) → IsOnce s → IsOnce (register_path path s)
unfolding register_path IsOnce
register_path-IsOnce path s i = i

at_ref : (made : ℕ → SharedReceiver) (ref : ℕ) → AllOnce made → IsOnce (made ref)
unfolding AllOnce
at_ref made ref a = a ref

route_registered-AllOnce :
    (path : Text) (x : Registry × Result ℕ)
    → AllOnce x.0.made
    → AllOnce (route_registered path x).0.made
unfolding route_registered
route_registered-AllOnce path (r, err e) a = a
route_registered-AllOnce path (r, ok ref) a =
    assign-AllOnce r.made ref (register_path path (r.made ref)) a
      (register_path-IsOnce path (r.made ref) (at_ref r.made ref a))

shut_down :
    (s : SharedReceiver) (result : Option Text)
    → none ≡ s.stopped
    → IsOnce s
    → IsOnce (record s {
      port = (shutdown_port result s.port).0;
      stopped = some (shutdown_port result s.port).1;
    })
unfolding IsOnce most
shut_down s result h (a, b, c, d) =
    let (w, x, y, z) = shutdown_port-closed result s.port in
    let never = ap most h in
    (
      omega (arith, x, a),
      omega (arith, w, b, never),
      omega (arith, y, c, never),
      omega (arith, z, d, never),
    )

shutdown_once-AllOnce :
    (d : Option (Option Text)) (ref : ℕ) (result : Option Text) (r : Registry)
    → d ≡ (r.made ref).stopped
    → AllOnce r.made
    → AllOnce (shutdown_once d ref result r).0.made
unfolding shutdown_once
shutdown_once-AllOnce (some e) ref result r h a = a
shutdown_once-AllOnce none ref result r h a =
    assign-AllOnce r.made ref _ a (shut_down (r.made ref) result h (at_ref r.made ref a))

call-AllOnce : (r : Registry) (c : Call) → AllOnce r.made → AllOnce (call r c).made
unfolding call create load start start_shared shutdown
call-AllOnce r (creates path build cfg) a =
    route_registered-AllOnce path (load_found build r cfg (find cfg r.receivers))
      (load_found-AllOnce build r cfg (find cfg r.receivers) a)
call-AllOnce r (starts ref o) a = elim (Bool-cases (ltb ref r.next)) [
  | inr e ↦ rw e a
  | inl e ↦ rw e (
      assign-AllOnce r.made ref _ a
        (start_once-IsOnce (r.made ref).started o (r.made ref) refl (at_ref r.made ref a)))
]
call-AllOnce r (shuts_down ref result) a = elim (Bool-cases (ltb ref r.next)) [
  | inr e ↦ rw e a
  | inl e ↦ rw e (shutdown_once-AllOnce (r.made ref).stopped ref result r refl a)
]

calls-AllOnce : (r : Registry) (cs : List Call) → AllOnce r.made → AllOnce (calls r cs).made
unfolding calls
calls-AllOnce r [] a = a
calls-AllOnce r (c ∷ cs) a = calls-AllOnce (call r c) cs (call-AllOnce r c a)

new_registry-AllOnce : AllOnce new_registry.made
unfolding AllOnce new_registry
new_registry-AllOnce = λ k. new_shared-IsOnce k

-- However often, and in whatever order, pipelines are created, started and shut down, each receiver
-- opens at most one listener, and shuts its server down, stops its gRPC server and closes its
-- telemetry at most once.
pub calls-once :
    (cs : List Call) (ref : ℕ)
    → let port = ((calls new_registry cs).made ref).port in
      (port.opened ≤ 1) × (port.closed ≤ 1) × (port.grpc_stopped ≤ 1) × (port.metrics_closed ≤ 1)
unfolding IsOnce
calls-once cs ref =
    let s = (calls new_registry cs).made ref in
    let (a, b, c, d) =
      at_ref (calls new_registry cs).made ref
        (calls-AllOnce new_registry cs new_registry-AllOnce) in
    let stopped = most_le s.stopped in
    (
      omega (arith, a, most_le s.started),
      omega (arith, b, stopped),
      omega (arith, c, stopped),
      omega (arith, d, stopped),
    )
