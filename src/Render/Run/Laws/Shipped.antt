-- ===== src/Render/Run/Laws/Shipped.antt =====
-- What the run command has done by the time the collector starts.
use mathlib.Core.List.{append_assoc}
use otlp_collector_oidc.Prelude.{
  ◌≡◌, ◌⊎◌, inl, inr, refl, sym, ap, ◌∙◌, Text, bytes, List, [], ◌∷◌, ◌++◌, map, Option, none, some,
  Option-cases, Bool-cases, arith,
}
use otlp_collector_oidc.Prelude.Result.{Result, ok, err}
use otlp_collector_oidc.Render.Values.{has}
use otlp_collector_oidc.Render.Settings.{Settings}
use otlp_collector_oidc.Render.SelfTelemetry.{service_version_key}
use otlp_collector_oidc.Render.Run.{
  Effect, unset_variable, wrote, flushed, Host, Sinks, Ran, and_then, sdk_variables, unset_all,
  new_logger, log_rendered, written, rendered_file, write_rendered, shown_settings,
  run_collector_on, with_stop, version_warning, on_rendered, run_rendered,
}
use otlp_collector_oidc.Render.Run.Laws.{
  starts, starts-append, no_starts, IsMounted, run_collector_on-IsMounted, new_logger-quiet,
}

module _ (h : Host) where
  -- The collector does not start, or once, on the file with the rendered settings, which is written
  -- before.
  unfoldable pub IsStarted : Settings → List Effect → Type 0
  IsStarted s es =
      (starts es ≡ [])
      ⊎ ((yaml : Text) × (before : List Effect) × (after : List Effect) × (es
            ≡ before ++ wrote h.rendered_path yaml ∷ after)
          × (h.render s ≡ ok yaml)
          × (starts before ≡ [])
          × (starts after ≡ (bytes "file:" ++ h.rendered_path) ∷ []))

  IsStarted-before :
      (s : Settings) (xs es : List Effect)
      → starts xs ≡ []
      → IsStarted s es
      → IsStarted s (xs ++ es)
  unfolding IsStarted
  IsStarted-before s xs es x (inl e) = inl (no_starts xs es x e)
  IsStarted-before s xs es x (inr (yaml, before, after, e, r, b, a)) = inr (
    yaml,
    xs ++ before,
    after,
    rw (e, append_assoc xs before (wrote h.rendered_path yaml ∷ after)),
    r,
    no_starts xs before x b,
    a,
  )

  IsStarted-after :
      (s : Settings) (es xs : List Effect)
      → starts xs ≡ []
      → IsStarted s es
      → IsStarted s (es ++ xs)
  unfolding IsStarted
  IsStarted-after s es xs x (inl e) = inl (no_starts es xs e x)
  IsStarted-after s es xs x (inr (yaml, before, after, e, r, b, a)) = inr (
    yaml,
    before,
    after ++ xs,
    rw (e, append_assoc before (wrote h.rendered_path yaml ∷ after) xs),
    r,
    b,
    starts-append after xs ∙ rw (a, x),
  )

  and_then-IsStarted :
      {A : Type 0} {B : Type 0} (s : Settings) (m : Ran B) (k : B → Ran A)
      → starts m.0 ≡ []
      → ((b : B) → IsStarted s (k b).0)
      → IsStarted s (and_then m k).0
  unfolding IsStarted
  and_then-IsStarted s (es, err e) k m f = inl m
  and_then-IsStarted s (es, ok b) k m f = IsStarted-before s es (k b).0 m (f b)

  log_rendered-quiet : (sinks : Sinks) (r : Result Text) → starts (log_rendered h sinks r) ≡ []
  unfolding log_rendered starts
  log_rendered-quiet sinks (err e) = refl
  log_rendered-quiet sinks (ok yaml) = refl

  run_written :
      (sinks : Sinks) (s : Settings) (yaml : Text) (o : Option Text)
      → h.render s ≡ ok yaml
      → IsStarted s (and_then (written h sinks s yaml o) (run_collector_on h)).0
  unfolding written IsStarted starts IsMounted
  run_written sinks s yaml (some e) r = inl refl
  run_written sinks s yaml none r =
      let quiet = log_rendered-quiet sinks (h.render (shown_settings s)) in
      elim (run_collector_on-IsMounted h h.rendered_path).1 [
        | inl x ↦ inl (no_starts (log_rendered h sinks (h.render (shown_settings s))) _ quiet x)
        | inr x ↦ inr (
          yaml,
          [],
          _,
          refl,
          r,
          refl,
          starts-append (log_rendered h sinks (h.render (shown_settings s))) _ ∙ rw (quiet, x),
        )
      ]

  run_file :
      (sinks : Sinks) (s : Settings) (r : Result Text)
      → h.render s ≡ r
      → IsStarted s (and_then (rendered_file h sinks s r) (run_collector_on h)).0
  unfolding rendered_file IsStarted starts
  run_file sinks s (err e) r = inl refl
  run_file sinks s (ok yaml) r = run_written sinks s yaml (h.write_error yaml) r

  on_rendered-IsStarted : (s : Settings) (sinks : Sinks) → IsStarted s (on_rendered h s sinks).0
  unfolding on_rendered version_warning starts write_rendered IsStarted
  on_rendered-IsStarted s sinks =
      IsStarted-before s (version_warning h sinks s) _
        (elim (Bool-cases (has s.own.resource_attributes service_version_key)) [
          | inl e ↦ rw (e, version_warning) refl
          | inr e ↦ rw (e, version_warning) refl
        ])
        (run_file sinks s (h.render s) refl)

  with_stop-IsStarted :
      (s : Settings) (sinks : Sinks) (r : Ran Unit)
      → IsStarted s r.0
      → IsStarted s (with_stop h sinks r).0
  unfolding with_stop starts
  with_stop-IsStarted s sinks (es, r) i = IsStarted-after s es (flushed sinks ∷ []) refl i

  unset_all-quiet : (names : List Text) → starts (unset_all h names).0 ≡ []
  unfolding unset_all starts
  unset_all-quiet [] = refl
  unset_all-quiet (name ∷ names) = elim (Option-cases (h.unset_error name)) [
    | inl e ↦ rw (e, starts, unset_all) (unset_all-quiet names)
    | inr (m, e) ↦ rw (e, starts, unset_all) refl
  ]

  unset_all-ok :
      (names : List Text)
      → (unset_all h names).1 ≡ ok tt
      → (unset_all h names).0 ≡ map unset_variable names
  unfolding unset_all
  unset_all-ok [] o = refl
  unset_all-ok (name ∷ names) o = elim (Option-cases (h.unset_error name)) [
    | inl e ↦
        rw (e, unset_all)
          (ap (λ es. unset_variable name ∷ es) (unset_all-ok names (rw (e, unset_all) at o)))
    | inr (m, e) ↦ absurd (ground (arith, e))
  ]

  -- As `IsStarted`, once every variable in the list is unset.
  unfoldable pub IsShipped : List Text → Settings → List Effect → Type 0
  IsShipped names s es =
      (starts es ≡ [])
      ⊎ ((rest : List Effect) × (es ≡ map unset_variable names ++ rest) × IsStarted s rest)

  after_unset :
      (names : List Text) (s : Settings) (m : Ran Unit) (k : Unit → Ran Unit)
      → m ≡ unset_all h names
      → IsStarted s (k tt).0
      → IsShipped names s (and_then m k).0
  unfolding IsShipped
  after_unset names s (es, err e) k m i = inl (ap (λ x. starts x.0) m ∙ unset_all-quiet names)
  after_unset names s (es, ok tt) k m i = inr (
    (k tt).0,
    ap (λ xs. xs ++ (k tt).0) (ap (λ x. x.0) m ∙ unset_all-ok names (sym (ap (λ x. x.1) m))),
    i,
  )

  pub run_rendered-IsShipped : (s : Settings) → IsShipped sdk_variables s (run_rendered h s).0
  unfolding run_rendered starts
  run_rendered-IsShipped s = after_unset sdk_variables s (unset_all h sdk_variables) _ refl (
      and_then-IsStarted s (new_logger h s.logs (some s))
        (λ sinks. with_stop h sinks (on_rendered h s sinks))
        (ap starts (new_logger-quiet h s.logs (some s)) ∙ refl)
        (λ sinks.
          with_stop-IsStarted s sinks (on_rendered h s sinks) (on_rendered-IsStarted s sinks)))

-- What the command does and returns, of the path of a mounted configuration, the settings and the
-- errors of the variables.
module _ (h : Host) where
  unfoldable pub IsShippedOf : Settings → List Effect → Type 0
  IsShippedOf s es = (id : Text) × IsShipped h sdk_variables (record s { instance_id = id }) es
