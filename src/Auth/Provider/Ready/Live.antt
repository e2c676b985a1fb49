-- ===== src/Auth/Provider/Ready/Live.antt =====
-- The provider's goroutine runs as long as the context is live.
use otlp_collector_oidc.Prelude.{
  ◌≡◌, ◌⊎◌, inl, inr, refl, ℕ, none, some, if◌then◌else◌, Bool, true, false,
}
use otlp_collector_oidc.Prelude.Time.{Time}
use otlp_collector_oidc.Auth.Float.{Float64}
use otlp_collector_oidc.Auth.Verify.Header.{Decoders}
use otlp_collector_oidc.Auth.KeySet.Keys.{Jose, Response}
use otlp_collector_oidc.Auth.Provider.{
  Loaded, loaded, no_discovery, no_keys, Phase, discovering, refreshing, ended, retry_sleep,
  fresh_sleep, Move, attempt, timer, done, cancel, refreshed, request, System, load, Keys,
  attempted, on_attempt, on_timer, on_done, on_refreshed, next,
}
use otlp_collector_oidc.Auth.Provider.Ready.{Holds}

-- `run` has not returned.
unfoldable pub is_running : Phase → Bool
is_running discovering = true
is_running refreshing = true
is_running ended = false
is_running retry_sleep = true
is_running fresh_sleep = true

module _ (j : Jose) (fl : Float64) (d : Decoders fl.F) (view : d.Jws → j.Jws)
    (world : ℕ → Time × Response) where
  unfoldable pub IsLive : System (Keys j fl d view world) → Type 0
  IsLive s = (is_running s.phase ≡ true) ⊎ (s.live ≡ false)

  attempted-IsLive :
      (live : Bool) (s : System (Keys j fl d view world)) (l : Loaded j.Key)
      → s.live ≡ live
      → IsLive (attempted j fl d view world s l)
  unfolding attempted IsLive is_running
  attempted-IsLive live s (loaded k) e = inl refl
  attempted-IsLive true s (no_discovery m) e = inl (rw e refl)
  attempted-IsLive false s (no_discovery m) e = inr e
  attempted-IsLive true s no_keys e = inl (rw e refl)
  attempted-IsLive false s no_keys e = inr e

  ended-IsLive :
      (b : Bool) (s : System (Keys j fl d view world))
      → s.live ≡ b
      → Holds IsLive (if b then none else some (record s { phase = ended }))
  unfolding IsLive
  ended-IsLive true s e = tt
  ended-IsLive false s e = inr e

  pub next-IsLive :
      (p : Phase) (s : System (Keys j fl d view world)) (m : Move)
      → (is_running p ≡ true) ⊎ (s.live ≡ false)
      → Holds IsLive (next j fl d view world (record s { phase = p }) m)
  unfolding next on_attempt on_timer on_done on_refreshed IsLive is_running
  next-IsLive discovering s (attempt a) r =
      attempted-IsLive s.live (record s { phase = discovering }) (load j a) refl
  next-IsLive refreshing s (attempt a) r = tt
  next-IsLive ended s (attempt a) r = tt
  next-IsLive retry_sleep s (attempt a) r = tt
  next-IsLive fresh_sleep s (attempt a) r = tt
  next-IsLive discovering s timer r = tt
  next-IsLive refreshing s timer r = tt
  next-IsLive ended s timer r = tt
  next-IsLive retry_sleep s timer r = inl refl
  next-IsLive fresh_sleep s timer r = inl refl
  next-IsLive discovering s done r = tt
  next-IsLive refreshing s done r = tt
  next-IsLive ended s done r = tt
  next-IsLive retry_sleep s done r = ended-IsLive s.live (record s { phase = retry_sleep }) refl
  next-IsLive fresh_sleep s done r = ended-IsLive s.live (record s { phase = fresh_sleep }) refl
  next-IsLive refreshing s (refreshed resp) r = inl refl
  next-IsLive discovering s (refreshed resp) r = tt
  next-IsLive ended s (refreshed resp) r = tt
  next-IsLive retry_sleep s (refreshed resp) r = tt
  next-IsLive fresh_sleep s (refreshed resp) r = tt
  next-IsLive p s (request now later sources) r = r
  next-IsLive p s cancel r = inr refl
