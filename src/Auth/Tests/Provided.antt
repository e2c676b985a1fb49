-- ===== src/Auth/Tests/Provided.antt =====
-- The issuer's life cycle at concrete moves.
use otlp_collector_oidc.Prelude.{
  ◌≡◌, ◌≢◌, ◌≤◌, ◌+◌, ◌*◌, ◌↔◌, ◌⊎◌, refl, ℕ, Text, List, [], ◌∷◌, none, some, true, false, bytes,
  ◌==◌, arith,
}
use otlp_collector_oidc.Prelude.Int.{pos}
use otlp_collector_oidc.Prelude.Time.{zero_time}
use otlp_collector_oidc.Auth.Reason.{err_not_ready}
use otlp_collector_oidc.Auth.KeySet.{KeySet, new_key_set, refresh}
use otlp_collector_oidc.Auth.KeySet.Keys.{Response, fetch, parse_jwks, signing_keys}
use otlp_collector_oidc.Auth.KeySet.Source.{key_set_source}
use otlp_collector_oidc.Auth.Authenticator.{Authenticator, answer_error, authenticate}
use otlp_collector_oidc.Auth.Rejections.{new_rejections}
use otlp_collector_oidc.Auth.Provider.{
  Attempt, Discovered, Phase, Move, System, load, start, next, moves,
}
use otlp_collector_oidc.Auth.Provider.Ready.Live.{is_running}
use otlp_collector_oidc.Auth.Provider.Ready.Always.{moves-handed, moves-never_not_ready}
use otlp_collector_oidc.Auth.Provider.Ends.{steps, timers, loads, CanEnd, moves-ended}
use otlp_collector_oidc.Auth.Tests.{
  floats, decoders, verifier, authorizer, headers, claim_attributes, resource_attributes,
}
use otlp_collector_oidc.Auth.Tests.Traced.{jose, world}

abbrev idle : Authenticator (KeySet Text × ℕ)
idle = record {
  keys = none;
  verifier = verifier;
  authorizer = authorizer;
  rejections = new_rejections (pos 10);
  claim_attributes = claim_attributes;
  resource_attributes = resource_attributes;
}

abbrev answered : Attempt
answered = record {
  discovered = Discovered.document (bytes "https://id/keys");
  jwks = Response.answered 200 (some (bytes "k1"));
}

abbrev refused : Attempt
refused = record {
  discovered = Discovered.no_provider (bytes "refused");
  jwks = Response.no_response;
}

-- A failed discovery, the wait, and the first load.
abbrev loading : List Move
loading = Move.attempt refused ∷ Move.timer ∷ Move.attempt answered ∷ []

abbrev serving : System (KeySet Text × ℕ)
serving = record {
  phase = Phase.fresh_sleep;
  live = true;
  handed = 1;
  auth = record idle {
    keys = some (record { keys = bytes "k1" ∷ []; generation = 1; miss_fetched = zero_time }, 0);
  };
}

served :
    moves jose floats decoders
      (λ jws. jws)
      world
      (start jose floats decoders (λ jws. jws) world idle)
      loading
    ≡ some serving
unfolding moves next start load refresh new_key_set fetch parse_jwks signing_keys bytes ◌==◌
served = refl

moves-handed_example :
    (serving.handed ≤ 1)
    × ((serving.auth.keys ≡ none) ↔ (serving.handed ≡ 0))
    × ((is_running serving.phase ≡ true) ⊎ (serving.live ≡ false))
moves-handed_example =
    moves-handed jose floats decoders (λ jws. jws) world idle loading serving served

-- A refresh that fails, after which the wait goes on.
abbrev outage : List Move
outage = Move.timer ∷ Move.refreshed Response.no_response ∷ []

kept : moves jose floats decoders (λ jws. jws) world serving outage ≡ some serving
unfolding moves next refresh fetch
kept = refl

moves-never_not_ready_example :
    answer_error
      (authenticate floats decoders
        (key_set_source jose (λ jws. jws) world)
        serving.auth
        (pos 0)
        (pos 0)
        headers).1
    ≢ some err_not_ready
moves-never_not_ready_example =
    moves-never_not_ready jose floats decoders (λ jws. jws) world serving serving outage (pos 0)
      (pos 0) headers (λ e. ground arith) kept

abbrev cancelled : System (KeySet Text × ℕ)
cancelled = record serving { live = false }

abbrev last_steps : List Move
last_steps = Move.timer ∷ Move.refreshed Response.no_response ∷ Move.done ∷ []

abbrev over : System (KeySet Text × ℕ)
over = record cancelled { phase = Phase.ended }

stopped : moves jose floats decoders (λ jws. jws) world cancelled last_steps ≡ some over
unfolding moves next refresh fetch
stopped = refl

moves-ended_example :
    (loads last_steps ≤ 1)
    × (steps last_steps ≤ 2 + 2 * timers last_steps)
    × CanEnd jose floats decoders (λ jws. jws) world 2 answered Response.no_response over
moves-ended_example =
    moves-ended jose floats decoders (λ jws. jws) world cancelled over last_steps answered
      Response.no_response refl stopped
