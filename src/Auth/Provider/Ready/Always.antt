-- ===== src/Auth/Provider/Ready/Always.antt =====
-- The keys are handed over once, and from then on no request is told that the provider is not ready.
use otlp_collector_oidc.Prelude.{
  ◌≡◌, ◌≢◌, ◌↔◌, ◌⊎◌, ◌≤◌, inl, inr, refl, ◌∙◌, subst, ℕ, List, [], ◌∷◌, Option, none, some,
  if◌then◌else◌, Bool, true, false, arith,
}
use otlp_collector_oidc.Prelude.Time.{Time}
use otlp_collector_oidc.Auth.Reason.{err_not_ready}
use otlp_collector_oidc.Auth.Bearer.{Headers}
use otlp_collector_oidc.Auth.Float.{Float64}
use otlp_collector_oidc.Auth.Verify.Header.{Decoders}
use otlp_collector_oidc.Auth.KeySet.Keys.{Jose, Response}
use otlp_collector_oidc.Auth.KeySet.Source.{key_set_source}
use otlp_collector_oidc.Auth.Authenticator.{Authenticator, answer_error, authenticate}
use otlp_collector_oidc.Auth.Authenticator.Laws.{authenticate-not_ready_iff}
use otlp_collector_oidc.Auth.Authenticator.Loaded.{is_loaded, authenticate-loaded}
use otlp_collector_oidc.Auth.Provider.{
  Loaded, loaded, no_discovery, no_keys, Phase, discovering, refreshing, ended, retry_sleep,
  fresh_sleep, Move, attempt, timer, done, cancel, refreshed, request, System, load, Keys, start,
  attempted, on_attempt, on_timer, on_done, on_refreshed, next, continue, moves,
}
use otlp_collector_oidc.Auth.Provider.Ready.{
  Holds, serving, IsHanded, Good, next-Good, keep_fresh-loaded,
}
use otlp_collector_oidc.Auth.Provider.Ready.Live.{is_running, IsLive, next-IsLive}

not_loaded_iff : {A : Type 0} (o : Option A) → (is_loaded o ≡ false) ↔ (o ≡ none)
not_loaded_iff none = (λ h. refl, λ h. refl)
not_loaded_iff (some a) = (λ h. absurd cc, λ h. absurd (ground arith))

loaded_of : {A : Type 0} (o : Option A) → o ≢ none → is_loaded o ≡ true
loaded_of none n = absurd (n refl)
loaded_of (some a) n = refl

module _ (j : Jose) (fl : Float64) (d : Decoders fl.F) (view : d.Jws → j.Jws)
    (world : ℕ → Time × Response) where
  -- A property that every move keeps is kept by a sequence of them.
  kept :
      (P : System (Keys j fl d view world) → Type 0)
      → ((s : System (Keys j fl d view world)) (m : Move)
          → P s
          → Holds P (next j fl d view world s m))
      → (ms : List Move) (o : Option (System (Keys j fl d view world))) → Holds P o
      → Holds P (continue j fl d view world o (λ t. moves j fl d view world t ms))
  unfolding continue moves
  kept P step ms none h = tt
  kept P step [] (some s) h = h
  kept P step (m ∷ ms) (some s) h = kept P step ms (next j fl d view world s m) (step s m h)

  pub kept_by_moves :
      (P : System (Keys j fl d view world) → Type 0)
      → ((s : System (Keys j fl d view world)) (m : Move)
          → P s
          → Holds P (next j fl d view world s m))
      → (ms : List Move) (s t : System (Keys j fl d view world))
      → moves j fl d view world s ms ≡ some t
      → P s
      → P t
  unfolding continue
  kept_by_moves P step ms s t e h = subst (Holds P) e (kept P step ms (some s) h)

  start-Good :
      (a : Authenticator (Keys j fl d view world))
      → Good j fl d view world (start j fl d view world a)
  unfolding start Good IsHanded serving
  start-Good a = inl (refl, refl, refl)

  start-IsLive :
      (a : Authenticator (Keys j fl d view world))
      → IsLive j fl d view world (start j fl d view world a)
  unfolding start IsLive is_running
  start-IsLive a = inl refl

  moves-IsLive :
      (a : Authenticator (Keys j fl d view world)) (ms : List Move)
      (t : System (Keys j fl d view world))
      → moves j fl d view world (start j fl d view world a) ms ≡ some t
      → IsLive j fl d view world t
  unfolding IsLive
  moves-IsLive a ms t e =
      kept_by_moves (IsLive j fl d view world)
        (λ s m h. next-IsLive j fl d view world s.phase s m h) ms _ t e (start-IsLive a)

  -- From the authenticator's start, whatever the provider answers, whenever a wait or the context
  -- ends, and whatever requests come between, the keys are handed over at most once, there are none
  -- to answer a request with exactly until then, and the goroutine has not returned unless the
  -- context has ended.
  pub moves-handed :
      (a : Authenticator (Keys j fl d view world)) (ms : List Move)
      (t : System (Keys j fl d view world))
      → moves j fl d view world (start j fl d view world a) ms ≡ some t
      → (t.handed ≤ 1)
        × ((t.auth.keys ≡ none) ↔ (t.handed ≡ 0))
        × ((is_running t.phase ≡ true) ⊎ (t.live ≡ false))
  unfolding Good IsHanded IsLive
  moves-handed a ms t e =
      elim (kept_by_moves (Good j fl d view world) (next-Good j fl d view world) ms _ t e
        (start-Good a)) [
          | inl (k, h, x) ↦ (
            omega (arith, h),
            (λ n. h, λ z. (not_loaded_iff t.auth.keys).0 k),
            moves-IsLive a ms t e,
          )
          | inr (k, h, x) ↦ (
            omega (arith, h),
            (
              λ n. absurd (let f = (not_loaded_iff t.auth.keys).1 n in cc),
              λ z. absurd (omega (arith, h, z)),
            ),
            moves-IsLive a ms t e,
          )
        ]

  unfoldable IsReady : System (Keys j fl d view world) → Type 0
  IsReady s = is_loaded s.auth.keys ≡ true

  attempted-IsReady :
      (s : System (Keys j fl d view world)) (l : Loaded j.Key)
      → IsReady s
      → IsReady (attempted j fl d view world s l)
  unfolding attempted IsReady
  attempted-IsReady s (loaded k) r = refl
  attempted-IsReady s (no_discovery e) r = r
  attempted-IsReady s no_keys r = r

  phase-IsReady :
      (p : Phase) (s : System (Keys j fl d view world))
      → IsReady s
      → Holds IsReady (on_timer j fl d view world p s)
  unfolding on_timer IsReady
  phase-IsReady discovering s r = tt
  phase-IsReady refreshing s r = tt
  phase-IsReady ended s r = tt
  phase-IsReady retry_sleep s r = r
  phase-IsReady fresh_sleep s r = r

  ended-IsReady :
      (b : Bool) (s : System (Keys j fl d view world))
      → IsReady s
      → Holds IsReady (if b then none else some (record s { phase = ended }))
  unfolding IsReady
  ended-IsReady true s r = tt
  ended-IsReady false s r = r

  next-IsReady :
      (p : Phase) (s : System (Keys j fl d view world)) (m : Move)
      → IsReady s
      → Holds IsReady (next j fl d view world (record s { phase = p }) m)
  unfolding next on_attempt on_done on_refreshed IsReady
  next-IsReady discovering s (attempt a) r =
      attempted-IsReady (record s { phase = discovering }) (load j a) r
  next-IsReady refreshing s (attempt a) r = tt
  next-IsReady ended s (attempt a) r = tt
  next-IsReady retry_sleep s (attempt a) r = tt
  next-IsReady fresh_sleep s (attempt a) r = tt
  next-IsReady p s timer r = phase-IsReady p (record s { phase = p }) r
  next-IsReady discovering s done r = tt
  next-IsReady refreshing s done r = tt
  next-IsReady ended s done r = tt
  next-IsReady retry_sleep s done r = ended-IsReady s.live (record s { phase = retry_sleep }) r
  next-IsReady fresh_sleep s done r = ended-IsReady s.live (record s { phase = fresh_sleep }) r
  next-IsReady refreshing s (refreshed resp) r =
      keep_fresh-loaded j fl d view world s.auth.keys resp ∙ r
  next-IsReady discovering s (refreshed resp) r = tt
  next-IsReady ended s (refreshed resp) r = tt
  next-IsReady retry_sleep s (refreshed resp) r = tt
  next-IsReady fresh_sleep s (refreshed resp) r = tt
  next-IsReady p s (request now later sources) r =
      authenticate-loaded fl d (key_set_source j view world) s.auth now later sources ∙ r
  next-IsReady p s cancel r = r

  -- Once the keys are handed over, no request is answered with the not-ready error, whatever moves
  -- come before it: failed refreshes, the end of the context and other requests among them.
  pub moves-never_not_ready :
      (s t : System (Keys j fl d view world)) (ms : List Move) (now later : Time)
      (sources : Headers)
      → s.auth.keys ≢ none
      → moves j fl d view world s ms ≡ some t
      → answer_error (authenticate fl d (key_set_source j view world) t.auth now later sources).1
        ≢ some err_not_ready
  unfolding IsReady
  moves-never_not_ready s t ms now later sources r e = λ h.
      let (token, missing) =
        (authenticate-not_ready_iff fl d (key_set_source j view world) t.auth now later sources).0
          h in
      let still =
        kept_by_moves IsReady (λ u m. next-IsReady u.phase u m) ms s t e
          (loaded_of s.auth.keys r) in
      let gone = (not_loaded_iff t.auth.keys).1 missing in absurd cc
