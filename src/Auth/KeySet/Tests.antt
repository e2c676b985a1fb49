-- ===== src/Auth/KeySet/Tests.antt =====
-- The theorems about extension/oidcclientauth/keyset.go at concrete inputs.
use otlp_collector_oidc.Prelude.{
  bytes, Text, ◌==◌, ◌≡◌, refl, List, [], ◌∷◌, none, some, true, arith,
}
use otlp_collector_oidc.Prelude.Int.{pos, ◌-ℤ◌}
use otlp_collector_oidc.Prelude.Time.{IsSpaced, sub, zero_time}
use otlp_collector_oidc.Auth.KeySet.{
  min_refresh_interval, KeySet, new_key_set, lookup_key, is_stale, mark_miss, Checked,
  verify_signature,
}
use otlp_collector_oidc.Auth.KeySet.Keys.{
  Jose, Response, Fetched, fetch, find_key, find_in, signing_keys, parse_jwks,
}
use otlp_collector_oidc.Auth.KeySet.Laws.{
  IsSound, Rests, verify_signature-Rests, verify_signature-rotated,
}
use otlp_collector_oidc.Auth.KeySet.Concurrent.{Phase, System, Move, Step, Reach, update}
use native.Mathlib.Decide.{ℕ_discrete}
use otlp_collector_oidc.Auth.KeySet.Concurrent.Spacing.{IsQuiet, Reach-IsSpaced}

-- Keys that are their kid and their use, and signatures that name the kid.
abbrev jose : Jose
jose = record {
  Key = Text × Text;
  Jws = Text;
  key_id = λ k. k.0;
  key_algorithm = λ k. [];
  key_use = λ k. k.1;
  is_public = λ k. true;
  unmarshal_key = λ raw. some (raw, bytes "sig");
  unmarshal_keys = λ body. some (body ∷ []);
  signatures = λ jws. (jws, bytes "RS256") ∷ [];
  verify = λ jws key. some jws;
}

abbrev fetched : List (Text × Text)
fetched = (bytes "k2", bytes "sig") ∷ []

answer_keys : fetch jose (Response.answered 200 (some (bytes "k2"))) ≡ Fetched.keys fetched
unfolding fetch parse_jwks signing_keys bytes ◌==◌
answer_keys = refl

-- The cache before the provider's keys are rotated.
abbrev cache : KeySet (Text × Text)
cache = record { keys = (bytes "k1", bytes "sig") ∷ []; generation = 1; miss_fetched = zero_time }

abbrev rotated : KeySet (Text × Text)
rotated = record { keys = fetched; generation = 2; miss_fetched = pos 0 }

verify_signature-rotated_example :
    verify_signature jose cache (bytes "k2") (pos 0) (Response.answered 200 (some (bytes "k2")))
    ≡ (rotated, Checked.payload (bytes "k2"))
unfolding find_key find_in bytes ◌==◌ sub ◌-ℤ◌
verify_signature-rotated_example =
    verify_signature-rotated jose cache (bytes "k2") (pos 0)
      (Response.answered 200 (some (bytes "k2"))) (bytes "k2") (bytes "RS256") (bytes "k2")
      (bytes "k2", bytes "sig") fetched refl refl (omega arith) answer_keys refl refl

verify_signature-Rests_example : IsSound jose rotated × Rests jose rotated (bytes "k2") (bytes "k2")
unfolding bytes
verify_signature-Rests_example =
    verify_signature-Rests jose cache rotated (bytes "k2") (pos 0)
      (Response.answered 200 (some (bytes "k2"))) (bytes "k2")
      (record { public = refl; use_ne = λ e. ground arith }, tt) verify_signature-rotated_example

-- Every request asks for one kid of an empty cache.
abbrev start : System jose
start = record {
  shared = record { set = new_key_set jose; refreshing = none; starts = [] };
  phase = λ i. Phase.arriving (bytes "k2") (bytes "RS256");
}

start-IsQuiet : IsQuiet jose start
start-IsQuiet = record { arriving_all = λ i. (bytes "k2", bytes "RS256", refl); none_begun = refl }

-- Request 0 misses, takes the mutex, finds that a fetch is due and begins it.
abbrev missing : System jose
missing = record {
  shared = start.shared;
  phase = update jose start.phase 0 (Phase.missed (bytes "k2") (bytes "RS256") 0);
}

abbrev waiting : System jose
waiting = record {
  shared = record start.shared { refreshing = some 0 };
  phase = update jose missing.phase 0 (Phase.locked (bytes "k2") (bytes "RS256") 0);
}

abbrev due : System jose
due = record {
  shared = waiting.shared;
  phase = update jose waiting.phase 0 (Phase.tested (bytes "k2") (bytes "RS256") (pos 0) true);
}

abbrev fetching : System jose
fetching = record {
  shared = record waiting.shared {
    set = mark_miss jose waiting.shared.set (pos 0);
    starts = pos 0 ∷ [];
  };
  phase = update jose due.phase 0 (Phase.fetching (bytes "k2") (bytes "RS256"));
}

fetching-Reach : Reach jose start fetching
unfolding new_key_set lookup_key find_key find_in bytes is_stale sub ◌-ℤ◌ ℕ_discrete
fetching-Reach =
    Reach.next
      (Reach.next
        (Reach.next (Reach.next Reach.here (Step.request 0 (Move.miss refl)))
          (Step.request 0 (Move.lock refl)))
        (Step.request 0 (Move.test (pos 0))))
      (Step.request 0 (Move.mark refl))

Reach-IsSpaced_example : IsSpaced min_refresh_interval fetching.shared.starts
Reach-IsSpaced_example = Reach-IsSpaced jose start fetching start-IsQuiet fetching-Reach
