-- ===== src/Render/Run/Written.antt =====
-- What the run command writes.
use otlp_collector_oidc.Prelude.{
  ◌≡◌, inl, inr, refl, Text, List, [], ◌∷◌, ◌++◌, Option, none, some, Option-cases, Bool-cases, All,
  All-append, is_empty, true, arith,
}
use otlp_collector_oidc.Prelude.Result.{Result, ok, err}
use otlp_collector_oidc.Upstream.Variables.{Url, Fault}
use otlp_collector_oidc.Upstream.Resolve.{Lookup}
use otlp_collector_oidc.Render.Values.{has}
use otlp_collector_oidc.Render.SelfTelemetry.{service_version_key}
use otlp_collector_oidc.Render.Load.{load}
use otlp_collector_oidc.Render.Settings.{Settings, LogSettings}
use otlp_collector_oidc.Render.Run.{
  Tables, Effect, unset_variable, logged, wrote, started, flushed, warned_on_stderr, Host, Sinks,
  Ran, and_then, sdk_variables, unset_all, new_logger, log_rendered, written, rendered_file,
  write_rendered, shown_settings, run_collector_on, with_stop, version_warning, on_rendered,
  run_rendered, returned, shipped, decide, run,
}
use otlp_collector_oidc.Render.Run.Laws.{
  touched, IsMounted, new_logger-quiet, run_collector_on-IsMounted, run_mounted-IsMounted,
}

module _ (h : Host) (W : Text → Text → Type 0) where
  -- What is written at a path is as `W` says.
  abbrev pub Writes : Effect → Type 0
  Writes (wrote path yaml) = W path yaml
  Writes (unset_variable name) = Unit
  Writes (logged sinks level message about) = Unit
  Writes (started uri) = Unit
  Writes (flushed sinks) = Unit
  Writes (warned_on_stderr message failure) = Unit

  and_then-Writes :
      {A : Type 0} {B : Type 0} (m : Ran B) (k : B → Ran A)
      → All Writes m.0
      → ((b : B) → All Writes (k b).0)
      → All Writes (and_then m k).0
  and_then-Writes (es, err e) k m f = m
  and_then-Writes (es, ok b) k m f = All-append Writes es (k b).0 m (f b)

  untouched-Writes : (es : List Effect) → touched es ≡ [] → All Writes es
  unfolding touched
  untouched-Writes [] t = tt
  untouched-Writes (unset_variable name ∷ es) t = absurd cc
  untouched-Writes (wrote path yaml ∷ es) t = absurd cc
  untouched-Writes (started uri ∷ es) t = (tt, untouched-Writes es t)
  untouched-Writes (logged sinks level message about ∷ es) t = (tt, untouched-Writes es t)
  untouched-Writes (flushed sinks ∷ es) t = (tt, untouched-Writes es t)
  untouched-Writes (warned_on_stderr message failure ∷ es) t = (tt, untouched-Writes es t)

  unset_all-Writes : (names : List Text) → All Writes (unset_all h names).0
  unfolding unset_all
  unset_all-Writes [] = tt
  unset_all-Writes (name ∷ names) = elim (Option-cases (h.unset_error name)) [
    | inl e ↦ rw (e, unset_all) (tt, unset_all-Writes names)
    | inr (m, e) ↦ rw (e, unset_all) tt
  ]

  with_stop-Writes :
      (sinks : Sinks) (r : Ran Unit) → All Writes r.0 → All Writes (with_stop h sinks r).0
  unfolding with_stop
  with_stop-Writes sinks (es, r) w = All-append Writes es (flushed sinks ∷ []) w (tt, tt)

  log_rendered-Writes : (sinks : Sinks) (r : Result Text) → All Writes (log_rendered h sinks r)
  unfolding log_rendered
  log_rendered-Writes sinks (err e) = tt
  log_rendered-Writes sinks (ok yaml) = (tt, tt)

  -- The settings' rendering, if it succeeds, is what may be written.
  abbrev pub Renders : Settings → Type 0
  Renders s = (yaml : Text) → h.render s ≡ ok yaml → W h.rendered_path yaml

  written-Writes :
      (sinks : Sinks) (s : Settings) (yaml : Text) (o : Option Text)
      → W h.rendered_path yaml
      → All Writes (written h sinks s yaml o).0
  unfolding written
  written-Writes sinks s yaml (some e) w = tt
  written-Writes sinks s yaml none w =
      (w, (tt, log_rendered-Writes sinks (h.render (shown_settings s))))

  rendered_file-Writes :
      (sinks : Sinks) (s : Settings) (r : Result Text)
      → h.render s ≡ r
      → Renders s
      → All Writes (rendered_file h sinks s r).0
  unfolding rendered_file
  rendered_file-Writes sinks s (err e) same w = tt
  rendered_file-Writes sinks s (ok yaml) same w =
      written-Writes sinks s yaml (h.write_error yaml) (w yaml same)

  version_warning-Writes : (sinks : Sinks) (s : Settings) → All Writes (version_warning h sinks s)
  unfolding version_warning
  version_warning-Writes sinks s =
      elim (Bool-cases (has s.own.resource_attributes service_version_key)) [
        | inl e ↦ rw e (tt, tt)
        | inr e ↦ rw e tt
      ]

  on_rendered-Writes :
      (s : Settings) (sinks : Sinks) → Renders s → All Writes (on_rendered h s sinks).0
  unfolding on_rendered write_rendered IsMounted
  on_rendered-Writes s sinks w =
      All-append Writes (version_warning h sinks s) _ (version_warning-Writes sinks s) (
        and_then-Writes (write_rendered h sinks s) (run_collector_on h)
          (rendered_file-Writes sinks s (h.render s) refl w)
          (λ path. untouched-Writes _ (run_collector_on-IsMounted h path).0))

  run_rendered-Writes : (s : Settings) → Renders s → All Writes (run_rendered h s).0
  unfolding run_rendered
  run_rendered-Writes s w =
      and_then-Writes (unset_all h sdk_variables)
        (λ _.
          and_then (new_logger h s.logs (some s))
            (λ sinks. with_stop h sinks (on_rendered h s sinks)))
        (unset_all-Writes sdk_variables)
        (λ _.
          and_then-Writes (new_logger h s.logs (some s))
            (λ sinks. with_stop h sinks (on_rendered h s sinks))
            (rw (new_logger-quiet h s.logs (some s)) tt)
            (λ sinks.
              with_stop-Writes sinks (on_rendered h s sinks) (on_rendered-Writes s sinks w)))

  returned-Writes : (r : Ran Unit) → All Writes r.0 → All Writes (returned h r).0
  unfolding returned
  returned-Writes (es, ok u) w = w
  returned-Writes (es, err e) w = w

  shipped-Writes :
      (s : Settings) (id : Result Text)
      → ((i : Text) → Renders (record s { instance_id = i }))
      → All Writes (shipped h s id).0
  unfolding shipped
  shipped-Writes s (err e) w = tt
  shipped-Writes s (ok i) w = returned-Writes _ (run_rendered-Writes _ (w i))

  decide-Writes :
      (mounted : Text) (logs : LogSettings) (s : Settings) (errs all_errs : List Fault)
      → (is_empty mounted ≡ true
          → all_errs ≡ []
          → (i : Text) → Renders (record s { instance_id = i }))
      → All Writes (decide h mounted logs s (errs ++ all_errs)).0
  unfolding decide IsMounted
  decide-Writes mounted logs s (e ∷ errs) all_errs w = tt
  decide-Writes mounted logs s [] (e ∷ all_errs) w = tt
  decide-Writes mounted logs s [] [] w = elim (Bool-cases (is_empty mounted)) [
    | inl e ↦ rw e (shipped-Writes s h.uuid (w e refl))
    | inr e ↦ rw e (returned-Writes _ (untouched-Writes _ (run_mounted-IsMounted h mounted logs).0))
  ]

  -- What is written is the rendering of the settings with an instance id, which loaded without a
  -- fault.
  pub run-Writes :
      (parse_url : Text → Option Url) (t : Tables) (lookup : Lookup)
      → ((load parse_url lookup t.settings t.across t.zero).1 ≡ []
          → (i : Text)
          → Renders
              (record (load parse_url lookup t.settings t.across t.zero).0 { instance_id = i }))
      → All Writes (run h parse_url t lookup).0
  unfolding run
  run-Writes parse_url t lookup w =
      let (mounted, errs) = load parse_url lookup t.source (λ _. []) [] in
      let (logs, log_errs) = load parse_url lookup t.logs_only (λ _. []) t.zero_logs in
      let (s, all_errs) = load parse_url lookup t.settings t.across t.zero in
      elim (Bool-cases (is_empty mounted)) [
        | inl e ↦ rw e (decide-Writes mounted s.logs s errs all_errs (λ _ n. w n))
        | inr e ↦
            rw e (decide-Writes mounted logs s errs log_errs (λ f n. absurd (ground (arith, e, f))))
      ]
