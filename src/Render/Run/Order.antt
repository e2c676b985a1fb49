-- ===== src/Render/Run/Order.antt =====
-- Nothing is acted on before every variable is read, and nothing runs before it is prepared.
use otlp_collector_oidc.Prelude.{
  ◌≡◌, ◌≢◌, ◌⊎◌, inl, inr, refl, Text, List, [], ◌∷◌, ◌++◌, Option, if◌then◌else◌, true, false,
  Bool-cases, arith, is_empty,
}
use otlp_collector_oidc.Prelude.Result.{Result, ok, err}
use otlp_collector_oidc.Upstream.Variables.{Url, Fault}
use otlp_collector_oidc.Upstream.Resolve.{Lookup}
use otlp_collector_oidc.Render.Load.{load}
use otlp_collector_oidc.Render.Settings.{Settings, LogSettings}
use otlp_collector_oidc.Render.Run.{
  Tables, Effect, Returned, faults, Host, Ran, run_mounted, run_rendered, returned, shipped, decide,
  run,
}
use otlp_collector_oidc.Render.Run.Laws.{starts, IsMounted, run_mounted-IsMounted}
use otlp_collector_oidc.Render.Run.Laws.Shipped.{IsShipped, IsShippedOf, run_rendered-IsShipped}

module _ (h : Host) where
  -- What the command does and returns, of the path of a mounted configuration, the settings and the
  -- errors of the variables.
  unfoldable pub IsCourse : Text → Settings → List Fault → List Effect × Returned → Type 0
  IsCourse mounted s errs (es, r) =
      ((errs ≢ []) × (es ≡ []) × (r ≡ faults errs))
      ⊎ ((errs ≡ []) × (mounted ≢ []) × IsMounted mounted es)
      ⊎ ((errs ≡ []) × (mounted ≡ []) × IsShippedOf h s es)

  returned-effects : (r : Ran Unit) → (returned h r).0 ≡ r.0
  unfolding returned
  returned-effects (es, ok u) = refl
  returned-effects (es, err e) = refl

  shipped-IsShipped : (s : Settings) (id : Result Text) → IsShippedOf h s (shipped h s id).0
  unfolding shipped IsShippedOf IsShipped starts
  shipped-IsShipped s (err e) = ([], inl refl)
  shipped-IsShipped s (ok id) = (
    id,
    rw (returned-effects (run_rendered h (record s { instance_id = id })))
        (run_rendered-IsShipped h (record s { instance_id = id })),
  )

  is_empty-nil : (t : Text) → is_empty t ≡ true → t ≡ []
  is_empty-nil [] e = refl
  is_empty-nil (c ∷ t) e = absurd cc

  is_empty-some : (t : Text) → is_empty t ≡ false → t ≢ []
  is_empty-some [] e = absurd cc
  is_empty-some (c ∷ t) e = λ h. ground arith

  decide-IsCourse :
      (mounted : Text) (logs : LogSettings) (s : Settings) (errs : List Fault)
      → IsCourse mounted s errs (decide h mounted logs s errs)
  unfolding decide IsCourse
  decide-IsCourse mounted logs s (e ∷ errs) = inl (λ n. ground arith, refl, refl)
  decide-IsCourse mounted logs s [] = elim (Bool-cases (is_empty mounted)) [
    | inl e ↦ rw e (inr (inr (refl, is_empty-nil mounted e, shipped-IsShipped s h.uuid)))
    | inr e ↦ rw e (
        inr (
          inl (
            refl,
            is_empty-some mounted e,
            rw (returned-effects (run_mounted h mounted logs))
                (run_mounted-IsMounted h mounted logs),
          )))
  ]

  -- With any error of a variable, of those that are read for a mounted configuration or for the
  -- shipped one, the command does nothing and returns all of them. Else, a mounted configuration
  -- changes no variable and no file, and the collector starts at most once, on the mounted file. For
  -- the shipped one the collector starts at most once, after every variable that the SDK reads is
  -- unset, on the file that was written before it with the rendered settings, which have an instance
  -- id.
  pub run-IsCourse :
      (parse_url : Text → Option Url) (t : Tables) (lookup : Lookup)
      → let (mounted, errs) = load parse_url lookup t.source (λ _. []) [] in
        let (logs, log_errs) = load parse_url lookup t.logs_only (λ _. []) t.zero_logs in
        let (s, all_errs) = load parse_url lookup t.settings t.across t.zero in
        IsCourse mounted s
          (errs ++ (if is_empty mounted then all_errs else log_errs))
          (run h parse_url t lookup)
  unfolding run
  run-IsCourse parse_url t lookup =
      let (mounted, errs) = load parse_url lookup t.source (λ _. []) [] in
      let (logs, log_errs) = load parse_url lookup t.logs_only (λ _. []) t.zero_logs in
      let (s, all_errs) = load parse_url lookup t.settings t.across t.zero in
      elim (Bool-cases (is_empty mounted)) [
        | inl e ↦ rw e (decide-IsCourse mounted s.logs s (errs ++ all_errs))
        | inr e ↦ rw e (decide-IsCourse mounted logs s (errs ++ log_errs))
      ]

  decide-faults :
      (mounted : Text) (logs : LogSettings) (s : Settings) (errs : List Fault)
      → errs ≢ []
      → decide h mounted logs s errs ≡ ([], faults errs)
  unfolding decide
  decide-faults mounted logs s [] n = absurd (n refl)
  decide-faults mounted logs s (e ∷ errs) n = refl

  -- Where no configuration is mounted, the faults of the settings are returned, if there are any.
  pub run-faults :
      (parse_url : Text → Option Url) (t : Tables) (lookup : Lookup)
      → load parse_url lookup t.source (λ _. []) [] ≡ ([], [])
      → (load parse_url lookup t.settings t.across t.zero).1 ≢ []
      → run h parse_url t lookup ≡ ([], faults (load parse_url lookup t.settings t.across t.zero).1)
  unfolding run
  run-faults parse_url t lookup e n =
      let (s, errs) = load parse_url lookup t.settings t.across t.zero in
      rw e (decide-faults [] s.logs s errs n)
