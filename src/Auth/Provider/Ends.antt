-- ===== src/Auth/Provider/Ends.antt =====
-- When the provider's goroutine returns.
use otlp_collector_oidc.Prelude.{
  ◌≡◌, ◌≤◌, ◌+◌, ◌*◌, All, refl, sym, ap, ◌∙◌, subst, ℕ, List, [], ◌∷◌, Option, none, some, Bool,
  true, false, if◌then◌else◌, arith,
}
use otlp_collector_oidc.Prelude.Time.{Time}
use otlp_collector_oidc.Auth.Float.{Float64}
use otlp_collector_oidc.Auth.Verify.Header.{Decoders}
use otlp_collector_oidc.Auth.KeySet.Keys.{Jose, Response}
use otlp_collector_oidc.Auth.Provider.{
  Attempt, Loaded, loaded, no_discovery, no_keys, Phase, discovering, refreshing, ended,
  retry_sleep, fresh_sleep, Move, attempt, timer, done, cancel, refreshed, request, System, load,
  Keys, attempted, keep_fresh, on_attempt, on_timer, on_done, on_refreshed, next, continue, moves,
}

-- A step of the provider's goroutine.
unfoldable pub is_step : Move → Bool
is_step (attempt a) = true
is_step timer = true
is_step done = true
is_step (refreshed resp) = true
is_step (request now later sources) = false
is_step cancel = false

unfoldable pub steps : List Move → ℕ
steps [] = 0
steps (m ∷ ms) = (if is_step m then 1 else 0) + steps ms

is_timer : Move → Bool
is_timer timer = true
is_timer (attempt a) = false
is_timer done = false
is_timer (refreshed resp) = false
is_timer (request now later sources) = false
is_timer cancel = false

-- The waits that end with their timer.
unfoldable pub timers : List Move → ℕ
unfolding is_timer
timers [] = 0
timers (m ∷ ms) = (if is_timer m then 1 else 0) + timers ms

is_load : Move → Bool
is_load (attempt a) = true
is_load timer = false
is_load done = false
is_load (refreshed resp) = false
is_load (request now later sources) = false
is_load cancel = false

-- The calls of `load`.
unfoldable pub loads : List Move → ℕ
unfolding is_load
loads [] = 0
loads (m ∷ ms) = (if is_load m then 1 else 0) + loads ms

-- How many steps are left once the context has ended, where no timer ends a wait.
left : Phase → ℕ
left ended = 0
left retry_sleep = 1
left fresh_sleep = 1
left discovering = 2
left refreshing = 2

-- How many calls of `load` are left then, whatever ends a wait.
loads_left : Phase → ℕ
loads_left ended = 0
loads_left retry_sleep = 1
loads_left fresh_sleep = 0
loads_left discovering = 1
loads_left refreshing = 0

left_le : (p : Phase) → (left p ≤ 2) × (loads_left p ≤ 1)
unfolding left loads_left
left_le ended = (omega arith, omega arith)
left_le retry_sleep = (omega arith, omega arith)
left_le fresh_sleep = (omega arith, omega arith)
left_le discovering = (omega arith, omega arith)
left_le refreshing = (omega arith, omega arith)

-- The steps of a goroutine whose waits the context ends, and that is answered so.
unfoldable pub IsAnswered : Attempt → Response → Move → Type 0
IsAnswered a resp (attempt b) = b ≡ a
IsAnswered a resp (refreshed r) = r ≡ resp
IsAnswered a resp done = Unit
IsAnswered a resp timer = ⊥
IsAnswered a resp (request now later sources) = ⊥
IsAnswered a resp cancel = ⊥

module _ (j : Jose) (fl : Float64) (d : Decoders fl.F) (view : d.Jws → j.Jws)
    (world : ℕ → Time × Response) where
  -- What is left after moves that made so many steps, ended so many waits by the timer, and called
  -- `load` so often.
  abbrev WithinBounds : Phase → ℕ → ℕ → ℕ → System (Keys j fl d view world) → Type 0
  WithinBounds p made waited loaded_times t =
      (t.live ≡ false)
      × (made + left t.phase ≤ left p + 2 * waited)
      × (loaded_times + loads_left t.phase ≤ loads_left p)

  unfoldable Spent : Phase → Move → Option (System (Keys j fl d view world)) → Type 0
  Spent p m none = Unit
  Spent p m (some t) =
      WithinBounds p (if is_step m then 1 else 0) (if is_timer m then 1 else 0)
        (if is_load m then 1 else 0) t

  attempted-Spent :
      (s : System (Keys j fl d view world)) (a : Attempt) (l : Loaded j.Key)
      → s.live ≡ false
      → Spent discovering (attempt a) (some (attempted j fl d view world s l))
  unfolding Spent attempted left loads_left is_step is_timer is_load
  attempted-Spent s a (loaded k) e = (e, omega arith, omega arith)
  attempted-Spent s a (no_discovery m) e = (e, rw e (omega arith), rw e (omega arith))
  attempted-Spent s a no_keys e = (e, rw e (omega arith), rw e (omega arith))

  next-Spent :
      (p : Phase) (s : System (Keys j fl d view world)) (m : Move)
      → s.live ≡ false
      → Spent p m (next j fl d view world (record s { phase = p }) m)
  unfolding Spent next on_attempt on_timer on_done on_refreshed left loads_left is_step is_timer
      is_load
  next-Spent discovering s (attempt a) e =
      attempted-Spent (record s { phase = discovering }) a (load j a) e
  next-Spent refreshing s (attempt a) e = tt
  next-Spent ended s (attempt a) e = tt
  next-Spent retry_sleep s (attempt a) e = tt
  next-Spent fresh_sleep s (attempt a) e = tt
  next-Spent discovering s timer e = tt
  next-Spent refreshing s timer e = tt
  next-Spent ended s timer e = tt
  next-Spent retry_sleep s timer e = (e, omega arith, omega arith)
  next-Spent fresh_sleep s timer e = (e, omega arith, omega arith)
  next-Spent discovering s done e = tt
  next-Spent refreshing s done e = tt
  next-Spent ended s done e = tt
  next-Spent retry_sleep s done e = rw e (refl, omega arith, omega arith)
  next-Spent fresh_sleep s done e = rw e (refl, omega arith, omega arith)
  next-Spent refreshing s (refreshed resp) e = (e, omega arith, omega arith)
  next-Spent discovering s (refreshed resp) e = tt
  next-Spent ended s (refreshed resp) e = tt
  next-Spent retry_sleep s (refreshed resp) e = tt
  next-Spent fresh_sleep s (refreshed resp) e = tt
  next-Spent p s (request now later sources) e = (e, omega arith, omega arith)
  next-Spent p s cancel e = (refl, omega arith, omega arith)

  -- What a sequence of moves spends.
  IsSpent : Phase → List Move → Option (System (Keys j fl d view world)) → Type 0
  IsSpent p ms none = Unit
  IsSpent p ms (some t) = WithinBounds p (steps ms) (timers ms) (loads ms) t

  then_moves :
      (p : Phase) (m : Move) (ms : List Move) (t : System (Keys j fl d view world))
      (o : Option (System (Keys j fl d view world)))
      → Spent p m (some t)
      → IsSpent t.phase ms o
      → IsSpent p (m ∷ ms) o
  unfolding IsSpent Spent steps timers loads
  then_moves p m ms t none h g = tt
  then_moves p m ms t (some u) (l, h, k) (l', h', k') =
      (l', omega (arith, h, h'), omega (arith, k, k'))

  moves-IsSpent :
      (ms : List Move) (p : Phase) (m : Move) (o : Option (System (Keys j fl d view world)))
      → Spent p m o
      → IsSpent p (m ∷ ms) (continue j fl d view world o (λ t. moves j fl d view world t ms))
  unfolding IsSpent Spent continue moves steps timers loads
  moves-IsSpent ms p m none h = tt
  moves-IsSpent [] p m (some t) (l, h, k) = (l, omega (arith, h), omega (arith, k))
  moves-IsSpent (n ∷ ms) p m (some t) h =
      then_moves p m (n ∷ ms) t (moves j fl d view world t (n ∷ ms)) h
        (moves-IsSpent ms t.phase n (next j fl d view world t n) (next-Spent t.phase t n h.0))

  spent_of :
      (p : Phase) (ms : List Move) (t : System (Keys j fl d view world))
      → IsSpent p ms (some t)
      → WithinBounds p (steps ms) (timers ms) (loads ms) t
  unfolding IsSpent
  spent_of p ms t h = h

  -- A way to return, in at most so many steps.
  abbrev pub CanEnd : ℕ → Attempt → Response → System (Keys j fl d view world) → Type 0
  CanEnd n a resp s =
      (ms : List Move) × All (IsAnswered a resp) ms
      × (steps ms ≤ n)
      × (u : System (Keys j fl d view world)) × (moves j fl d view world s ms ≡ some u)
      × (u.phase ≡ ended)

  asleep :
      (s : System (Keys j fl d view world)) (a : Attempt) (resp : Response)
      → s.phase ≡ fresh_sleep
      → s.live ≡ false
      → CanEnd 1 a resp s
  unfolding moves next continue on_done steps is_step IsAnswered
  asleep s a resp at e =
      (done ∷ [], (tt, tt), omega arith, record s { phase = ended }, rw (at, e) refl, refl)

  after_attempt :
      (s : System (Keys j fl d view world)) (a : Attempt) (resp : Response) (l : Loaded j.Key)
      → s.live ≡ false
      → CanEnd 1 a resp (attempted j fl d view world s l)
  unfolding attempted moves next continue on_done steps is_step IsAnswered
  after_attempt s a resp (loaded k) e =
      asleep (attempted j fl d view world s (loaded k)) a resp refl e
  after_attempt s a resp (no_discovery m) e = ([], tt, omega arith, _, refl, rw e refl)
  after_attempt s a resp no_keys e = ([], tt, omega arith, _, refl, rw e refl)

  can_end :
      (p : Phase) (s : System (Keys j fl d view world)) (a : Attempt) (resp : Response)
      → s.live ≡ false
      → CanEnd 2 a resp (record s { phase = p })
  unfolding moves next continue on_attempt on_done on_refreshed steps is_step IsAnswered
  can_end ended s a resp e = ([], tt, omega arith, _, refl, refl)
  can_end retry_sleep s a resp e =
      (done ∷ [], (tt, tt), omega arith, record s { phase = ended }, rw e refl, refl)
  can_end fresh_sleep s a resp e =
      (done ∷ [], (tt, tt), omega arith, record s { phase = ended }, rw e refl, refl)
  can_end refreshing s a resp e =
      let keys = keep_fresh j fl d view world s.auth.keys resp in
      let t = record s { phase = ended; auth = record s.auth { keys = keys } } in
      (refreshed resp ∷ done ∷ [], (refl, (tt, tt)), omega arith, t, rw e refl, refl)
  can_end discovering s a resp e =
      let (ms, answered, few, u, to, over) =
        after_attempt (record s { phase = discovering }) a resp (load j a) e in
      (attempt a ∷ ms, (refl, answered), omega (arith, few), u, to, over)

  -- Once the context has ended, whatever the provider answers and whatever requests come between,
  -- its goroutine calls `load` at most once more, and makes at most two steps and two more for each
  -- wait that ends with its timer although the context has ended; and wherever it is then, for each
  -- answer of the provider, it returns within two steps if the context ends the wait that comes
  -- among them.
  pub moves-ended :
      (s t : System (Keys j fl d view world)) (ms : List Move) (a : Attempt) (resp : Response)
      → s.live ≡ false
      → moves j fl d view world s ms ≡ some t
      → (loads ms ≤ 1) × (steps ms ≤ 2 + 2 * timers ms) × CanEnd 2 a resp t
  unfolding moves steps loads timers
  moves-ended s t [] a resp l e =
      let same : s ≡ t = ground arith in
      (omega arith, omega arith, can_end t.phase t a resp (ap (λ x. x.live) (sym same) ∙ l))
  moves-ended s t (m ∷ ms) a resp l e =
      let (over, spent, loaded_once) = spent_of s.phase (m ∷ ms) t (
        subst (IsSpent s.phase (m ∷ ms)) e
          (moves-IsSpent ms s.phase m (next j fl d view world s m) (next-Spent s.phase s m l))) in
      let (few, once) = left_le s.phase in
      (omega (arith, once, loaded_once), omega (arith, few, spent), can_end t.phase t a resp over)
