-- ===== src/Receiver/Rpc/Laws.antt =====
-- receiver/otlpsingleport/grpc.go: what one RPC adds to the counter.
use otlp_collector_oidc.Prelude.{◌≡◌, refl, true, Option, none, some, List, [], ◌∷◌, ◌++◌, All}
use otlp_collector_oidc.Receiver.Codes.{Code}
use otlp_collector_oidc.Receiver.Refusals.{refusal_unknown_path, transport_grpc, Refusals, count}
use otlp_collector_oidc.Receiver.Rpc.{
  grpc_refusal_reason, Rpc, Event, decoded, unrouted, other_stats, ended, tag_rpc, mark_handled,
  unknown_service, count_reason, handle_end, handle, handle_all,
}

-- How far an RPC comes: to its handler, to no service, or to neither.
pub data Outcome : Type 0 where
  reached_handler no_service failed_before : Outcome

abbrev pub outcome_events : Outcome → List Event
outcome_events reached_handler = decoded ∷ []
outcome_events no_service = unrouted ∷ []
outcome_events failed_before = []

-- The refusals after an RPC that ends so: at most one more than before it.
abbrev pub counted_once : Refusals → Outcome → Option Code → Refusals
counted_once r reached_handler code = r
counted_once r no_service code = count r transport_grpc refusal_unknown_path
counted_once r failed_before none = r
counted_once r failed_before (some code) = elim (grpc_refusal_reason code) [
  | none ↦ r
  | some why ↦ count r transport_grpc why
]

abbrev IsOther : Event → Type 0
IsOther e = e ≡ other_stats

handle_all-other :
    (c : Rpc) (es rest : List Event)
    → All IsOther es
    → handle_all c (es ++ rest) ≡ handle_all c rest
unfolding handle_all handle
handle_all-other c [] rest h = refl
handle_all-other c (e ∷ es) rest (o, h) = rw (o, handle, handle_all-other c es rest h)

ended_once :
    (r : Refusals) (code : Option Code)
    → (handle_end (tag_rpc r) code).refusals ≡ counted_once r failed_before code
unfolding handle_end tag_rpc count_reason
ended_once r none = refl
ended_once r (some code) = go (grpc_refusal_reason code)
  where
    go :
        (o : Option _)
        → (count_reason (tag_rpc r) o).refusals
          ≡ elim o [ none ↦ r | some why ↦ count r transport_grpc why ]
    go none = refl
    go (some why) = refl

handled_end : (c : Rpc) (code : Option Code) → c.handled ≡ true → handle_end c code ≡ c
unfolding handle_end
handled_end c none h = refl
handled_end c (some code) h = rw h

-- An RPC whose events are grpc-go's, one way or another of coming to an end among any others, is
-- counted at most once: never where it reached its handler, as an unknown path where no service has
-- it, and else by the code that it failed with, if that is a refusal.
pub handle_all-counted_once :
    (r : Refusals) (outcome : Outcome) (earlier later : List Event) (code : Option Code)
    → All IsOther earlier
    → All IsOther later
    → (handle_all
        (tag_rpc r)
        (earlier ++ (outcome_events outcome ++ (later ++ (ended code ∷ []))))).refusals
      ≡ counted_once r outcome code
unfolding handle_all handle mark_handled unknown_service tag_rpc
handle_all-counted_once r reached_handler earlier later code he hl = rw (
  handle_all-other (tag_rpc r) earlier (decoded ∷ (later ++ (ended code ∷ []))) he,
  handle_all-other (mark_handled (tag_rpc r)) later (ended code ∷ []) hl,
  handled_end (mark_handled (tag_rpc r)) code refl,
)
handle_all-counted_once r no_service earlier later code he hl = rw (
  handle_all-other (tag_rpc r) earlier (unrouted ∷ (later ++ (ended code ∷ []))) he,
  handle_all-other (unknown_service (tag_rpc r)) later (ended code ∷ []) hl,
  handled_end (unknown_service (tag_rpc r)) code refl,
)
handle_all-counted_once r failed_before earlier later code he hl =
    rw
      (
        handle_all-other (tag_rpc r) earlier (later ++ (ended code ∷ [])) he,
        handle_all-other (tag_rpc r) later (ended code ∷ []) hl,
      )
      (ended_once r code)
