-- ===== src/Auth/KeySet.antt =====
-- extension/oidcclientauth/keyset.go: the provider's keys, cached.
pub mod Keys
pub mod Laws
pub mod Concurrent
pub mod Source
mod Tests
use otlp_collector_oidc.Prelude.{
  ℕ, ◌+◌, ◌%◌, ◌^◌, Text, List, [], ◌∷◌, Option, none, some, if◌then◌else◌, Bool, true, false, not,
  ◌&&◌, eqb, leb, ltb, length,
}
use otlp_collector_oidc.Prelude.Int.{ℤ, pos, ltb_ℤ}
use otlp_collector_oidc.Prelude.Time.{Time, Duration, second, zero_time, sub}
use Keys.{Jose, find_key, Response, Fetched, fetch}

-- `minRefreshInterval`.
abbrev pub min_refresh_interval : Duration
min_refresh_interval = pos 10000000000

-- The fields that a mutex guards. `generation` is a uint64.
pub record KeySet (Key : Type 0) : Type 0 where
  pub keys : List Key
  pub generation : ℕ
  pub miss_fetched : Time

-- What `VerifySignature` returns: a payload, errUnknownKey or errBadSignature.
pub data Checked : Type 0 where
  payload : Text → Checked
  unknown_key bad_signature : Checked

module _ (j : Jose) where
  open j use {Key}

  -- `newKeySet`.
  unfoldable pub new_key_set : KeySet Key
  new_key_set = record { keys = []; generation = 0; miss_fetched = zero_time }

  unfoldable pub lookup_key : KeySet Key → Text → Text → Option Key × ℕ
  lookup_key k kid alg = (find_key j k.keys kid alg, k.generation)

  -- The cache after a fetch, and whether the fetch succeeded.
  unfoldable pub refresh : KeySet Key → Response → KeySet Key × Bool
  refresh k resp = elim (fetch j resp) [
    | Fetched.failed ↦ (k, false)
    | Fetched.keys ks ↦ (record k { keys = ks; generation = (k.generation + 1) % 2 ^ 64 }, true)
  ]

  -- The test of `refreshFor` that a fetch may be made.
  unfoldable pub is_stale : KeySet Key → Time → ℕ → Bool
  is_stale k now generation =
      eqb k.generation generation && not (ltb_ℤ (sub now k.miss_fetched) min_refresh_interval)

  unfoldable pub mark_miss : KeySet Key → Time → KeySet Key
  mark_miss k now = record k { miss_fetched = now }

  unfoldable pub look_again : Text → Text → KeySet Key × Bool → KeySet Key × Option Key
  look_again kid alg (k, true) = (k, (lookup_key k kid alg).0)
  look_again kid alg (k, false) = (k, none)

  -- `resp` is what the provider answers if the fetch is made.
  unfoldable pub refresh_for :
      KeySet Key → Text → Text → ℕ → Time → Response → KeySet Key × Option Key
  unfolding look_again
  refresh_for k kid alg generation now resp =
      if is_stale k now generation
      then look_again kid alg (refresh (mark_miss k now) resp)
      else look_again kid alg (k, true)

  found : Text × Text → KeySet Key → Time → Response → Option Key → KeySet Key × Option Key
  found (kid, alg) k now resp (some key) = (k, some key)
  found (kid, alg) k now resp none = refresh_for k kid alg k.generation now resp

  checked : j.Jws → Option Key → Checked
  checked jws none = unknown_key
  checked jws (some key) = elim (j.verify jws key) [
    | none ↦ bad_signature
    | some body ↦ payload body
  ]

  verified_by : j.Jws → KeySet Key × Option Key → KeySet Key × Checked
  unfolding checked
  verified_by jws (k, key) = (k, checked jws key)

  signed_with : KeySet Key → j.Jws → List (Text × Text) → Time → Response → KeySet Key × Checked
  unfolding found verified_by
  signed_with k jws ((kid, alg) ∷ []) now resp =
      verified_by jws (found (kid, alg) k now resp (lookup_key k kid alg).0)
  signed_with k jws _ now resp = (k, bad_signature)

  -- The call from start to end with no other between; `now` is what the clock reads in it.
  unfoldable pub verify_signature : KeySet Key → j.Jws → Time → Response → KeySet Key × Checked
  unfolding signed_with
  verify_signature k jws now resp = signed_with k jws (j.signatures jws) now resp
