-- ===== src/Auth/Provider/Ready.antt =====
-- What the provider has handed over in each phase.
pub mod Always
pub mod Live
use otlp_collector_oidc.Prelude.{
  ◌≡◌, ◌≢◌, ◌↔◌, ◌⊎◌, ◌≤◌, inl, inr, refl, sym, ap, ◌∙◌, ℕ, Text, List, [], ◌∷◌, Option, none, some,
  Option-cases, if◌then◌else◌, Bool, true, false, Bool-cases, arith,
}
use otlp_collector_oidc.Prelude.Time.{Time}
use otlp_collector_oidc.Auth.Reason.{err_not_ready}
use otlp_collector_oidc.Auth.Bearer.{Headers, bearer_token}
use otlp_collector_oidc.Auth.Float.{Float64}
use otlp_collector_oidc.Auth.Verify.Header.{Decoders}
use otlp_collector_oidc.Auth.KeySet.{KeySet, refresh}
use otlp_collector_oidc.Auth.KeySet.Keys.{Jose, Response}
use otlp_collector_oidc.Auth.KeySet.Source.{key_set_source}
use otlp_collector_oidc.Auth.Authenticator.{Authenticator, answer_error, authenticate}
use otlp_collector_oidc.Auth.Authenticator.Loaded.{is_loaded, authenticate-loaded}
use otlp_collector_oidc.Auth.Authenticator.Laws.{authenticate-not_ready_iff}
use otlp_collector_oidc.Auth.Provider.{
  Attempt, Loaded, loaded, no_discovery, no_keys, Phase, discovering, refreshing, ended,
  retry_sleep, fresh_sleep, Move, attempt, timer, done, cancel, refreshed, request, System, load,
  Keys, start, attempted, keep_fresh, on_attempt, on_timer, on_done, on_refreshed, next, continue,
  moves,
}

-- What holds of the state after a move, if the move can be made.
abbrev Holds : {A : Type 0} → (A → Type 0) → Option A → Type 0
Holds P none = Unit
Holds P (some a) = P a

serving : Phase → Bool
serving discovering = false
serving refreshing = true
serving ended = false
serving retry_sleep = false
serving fresh_sleep = true

loading : Phase → Bool
loading discovering = true
loading refreshing = false
loading ended = false
loading retry_sleep = true
loading fresh_sleep = false

module _ {State : Type 0} where
  -- Nothing is handed over while the provider loads, and one key set once it serves.
  unfoldable IsHanded : Phase → ℕ → Option State → Type 0
  unfolding serving loading
  IsHanded p handed keys =
      ((is_loaded keys ≡ false) × (handed ≡ 0) × (serving p ≡ false))
      ⊎ ((is_loaded keys ≡ true) × (handed ≡ 1) × (loading p ≡ false))

  same_part :
      (p q : Phase) (handed : ℕ) (keys : Option State)
      → serving q ≡ serving p
      → loading q ≡ loading p
      → IsHanded p handed keys
      → IsHanded q handed keys
  unfolding IsHanded
  same_part p q handed keys s l (inl (k, h, x)) = inl (k, h, s ∙ x)
  same_part p q handed keys s l (inr (k, h, x)) = inr (k, h, l ∙ x)

  same_loaded :
      (p : Phase) (handed : ℕ) (keys keys' : Option State)
      → is_loaded keys' ≡ is_loaded keys
      → IsHanded p handed keys
      → IsHanded p handed keys'
  unfolding IsHanded
  same_loaded p handed keys keys' e (inl (k, h, x)) = inl (e ∙ k, h, x)
  same_loaded p handed keys keys' e (inr (k, h, x)) = inr (e ∙ k, h, x)

  to_end :
      (p : Phase) (handed : ℕ) (keys : Option State)
      → IsHanded p handed keys
      → IsHanded ended handed keys
  unfolding IsHanded
  to_end p handed keys (inl (k, h, x)) = inl (k, h, refl)
  to_end p handed keys (inr (k, h, x)) = inr (k, h, refl)

  unloaded :
      (p : Phase) (handed : ℕ) (keys : Option State)
      → loading p ≡ true
      → IsHanded p handed keys
      → (is_loaded keys ≡ false) × (handed ≡ 0)
  unfolding IsHanded
  unloaded p handed keys l (inl (k, h, x)) = (k, h)
  unloaded p handed keys l (inr (k, h, x)) = absurd cc

module _ (j : Jose) (fl : Float64) (d : Decoders fl.F) (view : d.Jws → j.Jws)
    (world : ℕ → Time × Response) where
  unfoldable Good : System (Keys j fl d view world) → Type 0
  Good s = IsHanded s.phase s.handed s.auth.keys

  after_failure : (live : Bool) → serving (if live then retry_sleep else ended) ≡ false
  unfolding serving
  after_failure true = refl
  after_failure false = refl

  attempted-Good :
      (s : System (Keys j fl d view world)) (l : Loaded j.Key)
      → is_loaded s.auth.keys ≡ false
      → s.handed ≡ 0
      → Good (attempted j fl d view world s l)
  unfolding attempted Good IsHanded
  attempted-Good s (loaded k) n z = inr (refl, omega (arith, z), refl)
  attempted-Good s (no_discovery e) n z = inl (n, z, after_failure s.live)
  attempted-Good s no_keys n z = inl (n, z, after_failure s.live)

  on_attempt-Good :
      (p : Phase) (s : System (Keys j fl d view world)) (a : Attempt)
      → p ≡ s.phase
      → Good s
      → Holds Good (on_attempt j fl d view world p s a)
  unfolding on_attempt Good loading
  on_attempt-Good discovering s a e g =
      let (n, z) = unloaded s.phase s.handed s.auth.keys (ap loading (sym e)) g in
      attempted-Good s (load j a) n z
  on_attempt-Good refreshing s a e g = tt
  on_attempt-Good ended s a e g = tt
  on_attempt-Good retry_sleep s a e g = tt
  on_attempt-Good fresh_sleep s a e g = tt

  on_timer-Good :
      (p : Phase) (s : System (Keys j fl d view world))
      → p ≡ s.phase
      → Good s
      → Holds Good (on_timer j fl d view world p s)
  unfolding on_timer Good serving loading
  on_timer-Good discovering s e g = tt
  on_timer-Good refreshing s e g = tt
  on_timer-Good ended s e g = tt
  on_timer-Good retry_sleep s e g =
      same_part s.phase discovering s.handed s.auth.keys (ap serving e) (ap loading e) g
  on_timer-Good fresh_sleep s e g =
      same_part s.phase refreshing s.handed s.auth.keys (ap serving e) (ap loading e) g

  ended-Good :
      (s : System (Keys j fl d view world))
      → Good s
      → Holds Good (if s.live then none else some (record s { phase = ended }))
  unfolding Good
  ended-Good s g = elim (Bool-cases s.live) [
    | inl e ↦ rw e tt
    | inr e ↦ rw e (to_end s.phase s.handed s.auth.keys g)
  ]

  on_done-Good :
      (p : Phase) (s : System (Keys j fl d view world))
      → Good s
      → Holds Good (on_done j fl d view world p s)
  unfolding on_done
  on_done-Good discovering s g = tt
  on_done-Good refreshing s g = tt
  on_done-Good ended s g = tt
  on_done-Good retry_sleep s g = ended-Good s g
  on_done-Good fresh_sleep s g = ended-Good s g

  keep_fresh-loaded :
      (o : Option (Keys j fl d view world)) (resp : Response)
      → is_loaded (keep_fresh j fl d view world o resp) ≡ is_loaded o
  unfolding keep_fresh
  keep_fresh-loaded none resp = refl
  keep_fresh-loaded (some (k, n)) resp = refl

  on_refreshed-Good :
      (p : Phase) (s : System (Keys j fl d view world)) (resp : Response)
      → p ≡ s.phase
      → Good s
      → Holds Good (on_refreshed j fl d view world p s resp)
  unfolding on_refreshed Good serving loading
  on_refreshed-Good refreshing s resp e g =
      same_loaded _ _ _ _ (keep_fresh-loaded s.auth.keys resp)
        (same_part s.phase fresh_sleep s.handed s.auth.keys (ap serving e) (ap loading e) g)
  on_refreshed-Good discovering s resp e g = tt
  on_refreshed-Good ended s resp e g = tt
  on_refreshed-Good retry_sleep s resp e g = tt
  on_refreshed-Good fresh_sleep s resp e g = tt

  next-Good :
      (s : System (Keys j fl d view world)) (m : Move)
      → Good s
      → Holds Good (next j fl d view world s m)
  unfolding next Good
  next-Good s (attempt a) g = on_attempt-Good s.phase s a refl g
  next-Good s timer g = on_timer-Good s.phase s refl g
  next-Good s done g = on_done-Good s.phase s g
  next-Good s (refreshed resp) g = on_refreshed-Good s.phase s resp refl g
  next-Good s (request now later sources) g =
      same_loaded _ _ _ _
        (authenticate-loaded fl d (key_set_source j view world) s.auth now later sources) g
  next-Good s cancel g = g
