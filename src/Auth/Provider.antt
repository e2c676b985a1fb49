-- ===== src/Auth/Provider.antt =====
-- extension/oidcclientauth/discovery.go and extension.go: the issuer's life cycle, beside the
-- requests that it makes ready. A wait ends with its timer or with the context; where both have
-- come, either may end it.
pub mod Ready
pub mod Ends
use otlp_collector_oidc.Prelude.{
  ℕ, ◌+◌, Text, bytes, List, [], ◌∷◌, ◌++◌, Option, none, some, if◌then◌else◌, Bool, true, false,
}
use otlp_collector_oidc.Prelude.Time.{Time}
use otlp_collector_oidc.Auth.Bearer.{Headers}
use otlp_collector_oidc.Auth.Float.{Float64}
use otlp_collector_oidc.Auth.Verify.{KeySource}
use otlp_collector_oidc.Auth.Verify.Header.{Decoders}
use otlp_collector_oidc.Auth.KeySet.{KeySet, new_key_set, refresh}
use otlp_collector_oidc.Auth.KeySet.Keys.{Jose, Response}
use otlp_collector_oidc.Auth.KeySet.Source.{key_set_source}
use otlp_collector_oidc.Auth.Authenticator.{Authenticator, authenticate}

-- What go-oidc's discovery comes to: the error of oidc.NewProvider, that of the document's claims,
-- or the document's jwks_uri.
pub data Discovered : Type 0 where
  no_provider bad_document : Text → Discovered
  document : (jwks_uri : Text) → Discovered

-- What the provider answers to one call of `load`.
pub record Attempt : Type 0 where
  pub discovered : Discovered
  pub jwks : Response

-- What `load` returns: the keys, or an error.
pub data Loaded (Key : Type 0) : Type 0 where
  loaded : KeySet Key → Loaded Key
  no_discovery : Text → Loaded Key
  no_keys : Loaded Key

-- Where `run` is: in `discover`, at `load` or asleep, or in `keepFresh`, asleep or at `refresh`, or
-- returned.
pub data Phase : Type 0 where
  discovering retry_sleep fresh_sleep refreshing ended : Phase

-- One step of the provider's goroutine, one request, or the end of the context, which Shutdown
-- cancels.
pub data Move : Type 0 where
  attempt : Attempt → Move
  timer done cancel : Move
  refreshed : Response → Move
  request : (now later : Time) → Headers → Move

-- The authenticator with its provider: `live` says that the context has not ended, `handed` how
-- often `ready` was called.
pub record System (State : Type 0) : Type 0 where
  pub phase : Phase
  pub live : Bool
  pub handed : ℕ
  pub auth : Authenticator State

module _ (j : Jose) where
  open j use {Key}

  first_keys : KeySet Key × Bool → Loaded Key
  first_keys (k, true) = loaded k
  first_keys (k, false) = no_keys

  fetch_keys : Text → Response → Loaded Key
  unfolding first_keys
  fetch_keys [] jwks = no_discovery (bytes "discovery document has no jwks_uri")
  fetch_keys (c ∷ uri) jwks = first_keys (refresh j (new_key_set j) jwks)

  load_with : Discovered → Response → Loaded Key
  unfolding fetch_keys
  load_with (no_provider e) jwks = no_discovery (bytes "discovery: " ++ e)
  load_with (bad_document e) jwks = no_discovery (bytes "discovery document: " ++ e)
  load_with (document uri) jwks = fetch_keys uri jwks

  -- `load`.
  unfoldable pub load : Attempt → Loaded Key
  unfolding load_with
  load a = load_with a.discovered a.jwks

  module _ (fl : Float64) (d : Decoders fl.F) (view : d.Jws → j.Jws)
      (world : ℕ → Time × Response) where
    abbrev pub Keys : Type 0
    Keys = KeySet Key × ℕ

    -- `Start`, of an authenticator that has no keys yet.
    unfoldable pub start : Authenticator Keys → System Keys
    start a = record {
      phase = discovering;
      live = true;
      handed = 0;
      auth = record a { keys = none };
    }

    -- The body of the loop of `discover`, and `ready` where it returns keys.
    attempted : System Keys → Loaded Key → System Keys
    attempted s (loaded k) = record s {
      phase = fresh_sleep;
      handed = s.handed + 1;
      auth = record s.auth { keys = some (k, 0) };
    }
    attempted s (no_discovery e) = record s { phase = if s.live then retry_sleep else ended }
    attempted s no_keys = record s { phase = if s.live then retry_sleep else ended }

    keep_fresh : Option Keys → Response → Option Keys
    keep_fresh none resp = none
    keep_fresh (some (k, n)) resp = some ((refresh j k resp).0, n)

    -- The moves that a phase makes; `none` where it does not make them.
    on_attempt : Phase → System Keys → Attempt → Option (System Keys)
    unfolding attempted
    on_attempt discovering s a = some (attempted s (load a))
    on_attempt refreshing s a = none
    on_attempt ended s a = none
    on_attempt retry_sleep s a = none
    on_attempt fresh_sleep s a = none

    on_timer : Phase → System Keys → Option (System Keys)
    on_timer discovering s = none
    on_timer refreshing s = none
    on_timer ended s = none
    on_timer retry_sleep s = some (record s { phase = discovering })
    on_timer fresh_sleep s = some (record s { phase = refreshing })

    on_done : Phase → System Keys → Option (System Keys)
    on_done discovering s = none
    on_done refreshing s = none
    on_done ended s = none
    on_done retry_sleep s = if s.live then none else some (record s { phase = ended })
    on_done fresh_sleep s = if s.live then none else some (record s { phase = ended })

    on_refreshed : Phase → System Keys → Response → Option (System Keys)
    unfolding keep_fresh
    on_refreshed refreshing s resp = some (record s {
      phase = fresh_sleep;
      auth = record s.auth { keys = keep_fresh s.auth.keys resp };
    })
    on_refreshed discovering s resp = none
    on_refreshed ended s resp = none
    on_refreshed retry_sleep s resp = none
    on_refreshed fresh_sleep s resp = none

    -- One move, of the provider's `run`, of `Authenticate` or of the context.
    unfoldable pub next : System Keys → Move → Option (System Keys)
    unfolding on_attempt on_timer on_done on_refreshed
    next s (attempt a) = on_attempt s.phase s a
    next s timer = on_timer s.phase s
    next s done = on_done s.phase s
    next s (refreshed resp) = on_refreshed s.phase s resp
    next s (request now later sources) = some (record s {
      auth = (authenticate fl d (key_set_source j view world) s.auth now later sources).0;
    })
    next s cancel = some (record s { live = false })

    continue : Option (System Keys) → (System Keys → Option (System Keys)) → Option (System Keys)
    continue none more = none
    continue (some s) more = more s

    -- A sequence of moves, each of which can be made.
    unfoldable pub moves : System Keys → List Move → Option (System Keys)
    unfolding next continue
    moves s [] = some s
    moves s (m ∷ ms) = continue (next s m) (λ t. moves t ms)
