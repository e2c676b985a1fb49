-- ===== src/Render/Run/Laws.antt =====
-- In which order the run command does what it does.
pub mod Shipped
use mathlib.Core.List.{append_assoc}
use otlp_collector_oidc.Prelude.{
  ◌≡◌, ◌≢◌, ◌⊎◌, inl, inr, refl, sym, ap, ◌∙◌, Text, bytes, List, [], ◌∷◌, ◌++◌, map, Option, none,
  some, Option-cases, if◌then◌else◌, Bool, true, false, Bool-cases, arith, is_empty,
}
use otlp_collector_oidc.Prelude.Result.{Result, ok, err}
use otlp_collector_oidc.Upstream.Variables.{Url, Fault}
use otlp_collector_oidc.Upstream.Resolve.{Lookup}
use otlp_collector_oidc.Render.Values.{to_upstream}
use otlp_collector_oidc.Render.Load.{load}
use otlp_collector_oidc.Render.Settings.{Settings, LogSettings}
use otlp_collector_oidc.Render.Run.{
  Tables, Effect, unset_variable, logged, wrote, started, flushed, warned_on_stderr, Stopped, clean,
  failed, Returned, done, faults, error, Host, Sinks, Ran, and_then, check, sdk_variables,
  unset_all, new_logger, log_rendered, written, write_rendered, own_logs_undelivered, stopped,
  run_collector_on, with_stop, version_warning, announce, on_mounted, on_rendered, run_mounted,
  run_rendered, returned, shipped, decide, run,
}

-- The configurations that the collector is started on.
unfoldable pub starts : List Effect → List Text
starts [] = []
starts (started uri ∷ es) = uri ∷ starts es
starts (unset_variable name ∷ es) = starts es
starts (logged sinks level msg about ∷ es) = starts es
starts (wrote path yaml ∷ es) = starts es
starts (flushed sinks ∷ es) = starts es
starts (warned_on_stderr msg failure ∷ es) = starts es

-- What changes the environment or the files.
unfoldable pub touched : List Effect → List Effect
touched [] = []
touched (unset_variable name ∷ es) = unset_variable name ∷ touched es
touched (wrote path yaml ∷ es) = wrote path yaml ∷ touched es
touched (started uri ∷ es) = touched es
touched (logged sinks level msg about ∷ es) = touched es
touched (flushed sinks ∷ es) = touched es
touched (warned_on_stderr msg failure ∷ es) = touched es

starts-append : (xs ys : List Effect) → starts (xs ++ ys) ≡ starts xs ++ starts ys
unfolding starts
starts-append [] ys = refl
starts-append (started uri ∷ es) ys = ap (λ us. uri ∷ us) (starts-append es ys)
starts-append (unset_variable name ∷ es) ys = starts-append es ys
starts-append (logged sinks level msg about ∷ es) ys = starts-append es ys
starts-append (wrote path yaml ∷ es) ys = starts-append es ys
starts-append (flushed sinks ∷ es) ys = starts-append es ys
starts-append (warned_on_stderr msg failure ∷ es) ys = starts-append es ys

touched-append : (xs ys : List Effect) → touched (xs ++ ys) ≡ touched xs ++ touched ys
unfolding touched
touched-append [] ys = refl
touched-append (started uri ∷ es) ys = touched-append es ys
touched-append (unset_variable name ∷ es) ys =
    ap (λ us. unset_variable name ∷ us) (touched-append es ys)
touched-append (logged sinks level msg about ∷ es) ys = touched-append es ys
touched-append (wrote path yaml ∷ es) ys = ap (λ us. wrote path yaml ∷ us) (touched-append es ys)
touched-append (flushed sinks ∷ es) ys = touched-append es ys
touched-append (warned_on_stderr msg failure ∷ es) ys = touched-append es ys

-- The collector is not started, or once, on the file at the path.
abbrev pub StartsOn : Text → List Effect → Type 0
StartsOn path es = (starts es ≡ []) ⊎ (starts es ≡ (bytes "file:" ++ path) ∷ [])

-- Nothing is changed before the collector runs on the file at the path, or it does not run.
unfoldable pub IsMounted : Text → List Effect → Type 0
IsMounted path es = (touched es ≡ []) × StartsOn path es

no_starts : (xs ys : List Effect) → starts xs ≡ [] → starts ys ≡ [] → starts (xs ++ ys) ≡ []
no_starts xs ys x y = starts-append xs ys ∙ rw (x, y)

quiet_before :
    (path : Text) (xs ys : List Effect)
    → starts xs ≡ []
    → touched xs ≡ []
    → IsMounted path ys
    → IsMounted path (xs ++ ys)
unfolding IsMounted
quiet_before path xs ys x t (u, inl y) =
    (touched-append xs ys ∙ rw (t, u), inl (no_starts xs ys x y))
quiet_before path xs ys x t (u, inr y) =
    (touched-append xs ys ∙ rw (t, u), inr (starts-append xs ys ∙ rw (x, y)))

and_then-IsMounted :
    {A : Type 0} {B : Type 0} (path : Text) (m : Ran B) (k : B → Ran A)
    → starts m.0 ≡ []
    → touched m.0 ≡ []
    → ((b : B) → IsMounted path (k b).0)
    → IsMounted path (and_then m k).0
unfolding IsMounted
and_then-IsMounted path (es, err e) k x t h = (t, inl x)
and_then-IsMounted path (es, ok b) k x t h = quiet_before path es (k b).0 x t (h b)

and_then-nil :
    {A : Type 0} {B : Type 0} (m : Ran B) (k : B → Ran A)
    → m.0 ≡ []
    → ((b : B) → (k b).0 ≡ [])
    → (and_then m k).0 ≡ []
and_then-nil (es, err e) k m h = m
and_then-nil (es, ok b) k m h = rw (m, h b)

starts_after :
    (path : Text) (xs ys : List Effect)
    → starts ys ≡ []
    → StartsOn path xs
    → StartsOn path (xs ++ ys)
starts_after path xs ys y (inl x) = inl (no_starts xs ys x y)
starts_after path xs ys y (inr x) = inr (starts-append xs ys ∙ rw (x, y))

module _ (h : Host) where
  stopped-quiet : (s : Stopped) → (starts (stopped h s).0 ≡ []) × (touched (stopped h s).0 ≡ [])
  unfolding stopped own_logs_undelivered starts touched
  stopped-quiet clean = (refl, refl)
  stopped-quiet (failed f closed) = elim (Bool-cases (own_logs_undelivered h f closed)) [
    | inl e ↦ rw (e, stopped) (refl, refl)
    | inr e ↦ rw (e, stopped) (refl, refl)
  ]

  pub run_collector_on-IsMounted : (path : Text) → IsMounted path (run_collector_on h path).0
  unfolding run_collector_on IsMounted starts touched
  run_collector_on-IsMounted path =
      elim (Option-cases (h.new_collector_error (bytes "file:" ++ path))) [
        | inr (e, c) ↦ rw c (refl, inl refl)
        | inl c ↦
            let (x, t) = stopped-quiet (h.run_collector (bytes "file:" ++ path)) in
            rw c (t, inr (ap (λ us. (bytes "file:" ++ path) ∷ us) x))
      ]

  check-quiet : (what : Text) (o : Option Text) → (check what o).0 ≡ []
  check-quiet what none = refl
  check-quiet what (some e) = refl

  pub new_logger-quiet :
      (logs : LogSettings) (own : Option Settings) → (new_logger h logs own).0 ≡ []
  unfolding new_logger
  new_logger-quiet logs none = and_then-nil _ _ (check-quiet [] (h.stdout_logger logs)) (λ _. refl)
  new_logger-quiet logs (some s) =
      and_then-nil (check [] (h.stdout_logger logs)) _ (check-quiet [] (h.stdout_logger logs)) (λ _.
        elim (Bool-cases (to_upstream s.own.output)) [
          | inl e ↦ rw e (
              and_then-nil (check [] (h.upstream_logger s)) _ (check-quiet [] (h.upstream_logger s))
                (λ _. refl))
          | inr e ↦ rw e
        ])

  with_stop-IsMounted :
      (path : Text) (sinks : Sinks) (r : Ran Unit)
      → IsMounted path r.0
      → IsMounted path (with_stop h sinks r).0
  unfolding with_stop IsMounted starts touched
  with_stop-IsMounted path sinks (es, r) (t, s) = (
    touched-append es (flushed sinks ∷ []) ∙ rw t refl,
    starts_after path es (flushed sinks ∷ []) refl s,
  )

  on_mounted-IsMounted : (path : Text) (sinks : Sinks) → IsMounted path (on_mounted h path sinks).0
  unfolding on_mounted announce starts touched
  on_mounted-IsMounted path sinks =
      and_then-IsMounted path (announce h sinks path) (λ _. run_collector_on h path) refl refl
        (λ _. run_collector_on-IsMounted path)

  pub run_mounted-IsMounted :
      (path : Text) (logs : LogSettings) → IsMounted path (run_mounted h path logs).0
  unfolding run_mounted starts touched
  run_mounted-IsMounted path logs =
      and_then-IsMounted path (new_logger h logs none)
        (λ sinks. with_stop h sinks (on_mounted h path sinks))
        (rw (new_logger-quiet logs none) refl) (rw (new_logger-quiet logs none) refl)
        (λ sinks.
          with_stop-IsMounted path sinks (on_mounted h path sinks)
            (on_mounted-IsMounted path sinks))
