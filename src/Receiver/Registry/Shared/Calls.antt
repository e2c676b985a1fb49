-- ===== src/Receiver/Registry/Shared/Calls.antt =====
-- However pipelines are created, started and shut down, those of one configuration share a receiver.
use otlp_collector_oidc.Prelude.{
  ◌≡◌, ◌<◌, refl, sym, ap, ◌∙◌, ℕ, Text, List, [], ◌∷◌, Option, none, some, ltb, ltb→lt, Bool-cases,
  inl, inr, arith,
}
use otlp_collector_oidc.Prelude.Result.{Result, ok, err}
use otlp_collector_oidc.Receiver.Registry.{
  Opening, SharedReceiver, Registry, shutdown_port, start_once, start_shared, new_registry, find,
  load_found, load, register_path, route_registered, create, start, shutdown_once, shutdown, Call,
  creates, starts, shuts_down, call, calls,
}
use otlp_collector_oidc.Receiver.Registry.Shared.{
  IsKept, assign-IsKept, add-IsKept, remove-IsKept, some_number, no_number,
}

unfoldable Kept : Registry → Type 0
Kept r = IsKept r.receivers r.made r.next

load_found-Kept :
    (build : Option Text) (r : Registry) (cfg : ℕ) (o : Option ℕ)
    → find cfg r.receivers ≡ o
    → Kept r
    → Kept (load_found build r cfg o).0
unfolding load_found Kept
load_found-Kept build r cfg (some ref) f w = w
load_found-Kept (some e) r cfg none f w = w
load_found-Kept none r cfg none f w = add-IsKept r.receivers r.made r.next cfg f w

route_registered-Kept :
    (path : Text) (x : Registry × Result ℕ) → Kept x.0 → Kept (route_registered path x).0
unfolding route_registered register_path Kept
route_registered-Kept path (r, err e) w = w
route_registered-Kept path (r, ok ref) w =
    assign-IsKept r.receivers r.made r.next ref (register_path path (r.made ref)) refl refl w

start_once-same :
    (d : Option (Option Text)) (o : Opening) (s : SharedReceiver)
    → ((start_once d o s).0.config ≡ s.config) × ((start_once d o s).0.stopped ≡ s.stopped)
unfolding start_once
start_once-same (some e) o s = (refl, refl)
start_once-same none o s = (refl, refl)

shutdown_once-Kept :
    (d : Option (Option Text)) (ref : ℕ) (result : Option Text) (r : Registry)
    → d ≡ (r.made ref).stopped
    → ref < r.next
    → Kept r
    → Kept (shutdown_once d ref result r).0
unfolding shutdown_once Kept
shutdown_once-Kept (some e) ref result r h l w = w
shutdown_once-Kept none ref result r h l w =
    remove-IsKept r.receivers r.made r.next ref _ (shutdown_port result (r.made ref).port).1 l
      (sym h) refl w

call-Kept : (r : Registry) (c : Call) → Kept r → Kept (call r c)
unfolding call create load start start_shared shutdown Kept
call-Kept r (creates path build cfg) w =
    route_registered-Kept path (load_found build r cfg (find cfg r.receivers))
      (load_found-Kept build r cfg (find cfg r.receivers) refl w)
call-Kept r (starts ref o) w = elim (Bool-cases (ltb ref r.next)) [
  | inr e ↦ rw e w
  | inl e ↦
      let (c, d) = start_once-same (r.made ref).started o (r.made ref) in
      rw e (assign-IsKept r.receivers r.made r.next ref _ c d w)
]
call-Kept r (shuts_down ref result) w = elim (Bool-cases (ltb ref r.next)) [
  | inr e ↦ rw e w
  | inl e ↦ rw e (shutdown_once-Kept (r.made ref).stopped ref result r refl (ltb→lt ref r.next e) w)
]

calls-Kept : (r : Registry) (cs : List Call) → Kept r → Kept (calls r cs)
unfolding calls
calls-Kept r [] w = w
calls-Kept r (c ∷ cs) w = calls-Kept (call r c) cs (call-Kept r c w)

new_registry-Kept : Kept new_registry
unfolding Kept new_registry find
new_registry-Kept = record {
  live = λ cfg ref f. absurd (no_number f);
  kept = λ ref h d. absurd (omega (arith, h));
}

-- However often, and in whatever order, pipelines are created, started and shut down, two receivers
-- of one configuration that were made and are not shut down are the same: the pipelines share its
-- one listener.
pub calls-shared :
    (cs : List Call) (a b : ℕ)
    → let r = calls new_registry cs in
      a < r.next
      → b < r.next
      → (r.made a).stopped ≡ none
      → (r.made b).stopped ≡ none
      → (r.made a).config ≡ (r.made b).config
      → a ≡ b
unfolding Kept
calls-shared cs a b la lb sa sb same =
    let r = calls new_registry cs in
    let w = calls-Kept new_registry cs new_registry-Kept in
    some_number (sym (w.kept a la sa) ∙ ap (λ c. find c r.receivers) same ∙ w.kept b lb sb)
