-- ===== src/Render/Table/Held.antt =====
-- internal/render/env.go: what one group sets, the groups after it keep.
use otlp_collector_oidc.Render.Table.Rest.{
  from_self, upstream-Keeps, self-kept, resources-kept, metrics-kept, bounds-kept, listener-kept,
}
use otlp_collector_oidc.Prelude.{◌≡◌, ◌≢◌, inl, inr, refl, Text, List, [], ◌∷◌, map, Option, All}
use otlp_collector_oidc.Upstream.Enums.{signals}
use otlp_collector_oidc.Upstream.Variables.{Url, Fault, rule_error}
use otlp_collector_oidc.Upstream.Resolve.{Lookup}
use otlp_collector_oidc.Upstream.Resolve.Signals.{Configs}
use otlp_collector_oidc.Upstream.Resolve.Signals.Complete.{
  IsConfigured, Outcome, resolved, refused, resolve-IsOutcome,
}
use otlp_collector_oidc.Render.Values.Pairs.{read_list-IsPairs}
use otlp_collector_oidc.Render.Exporters.{resolve_settings}
use otlp_collector_oidc.Render.Rules.{
  identity_errors, listener_errors, bounds_errors, metric_errors, memory_errors,
}
use otlp_collector_oidc.Render.Load.Held.{IsHeld, IsPut, plain-sets, plain-valid, filled-sets}
use otlp_collector_oidc.Render.Settings.{Settings}
use otlp_collector_oidc.Render.Table.{
  Packages, identity_variables, with_upstream, upstream_group, group, settings_groups,
}
use otlp_collector_oidc.Render.Table.Kept.{variable-Keeps, variable-Sets}

module _ (p : Packages) (parse_url : Text → Option Url) (lookup : Lookup) where
  -- What the rules of the groups say of the settings.
  abbrev pub identity_texts : Settings → List Text
  identity_texts s = identity_errors s.identity.claim_attributes s.identity.client_resource_attrs

  abbrev pub listener_texts : Settings → List Text
  listener_texts s = listener_errors s.listener.tls_cert_file s.listener.tls_key_file

  abbrev pub bounds_texts : Settings → List Text
  bounds_texts s = bounds_errors p.show_duration s.bounds.max_future_skew s.bounds.max_past_age

  abbrev pub metrics_texts : Settings → List Text
  metrics_texts s =
      metric_errors p.show_int p.show_duration s.metrics.max_streams s.metrics.delta_max_stale

  abbrev pub resources_texts : Settings → List Text
  resources_texts s = memory_errors s.resources.memory_limit_mib s.resources.memory_spike_limit_mib

  abbrev pub IsRule : (Settings → List Text) → Type 0
  IsRule texts = IsHeld (λ s. map rule_error (texts s) ≡ []) parse_url lookup (settings_groups p)

  -- What each group's rule says, once all have loaded.
  pub identity-IsRule : IsRule identity_texts
  unfolding settings_groups group from_self
  identity-IsRule = inl (
    plain-valid parse_url lookup _ _,
    (
      upstream-Keeps p parse_url lookup _ (λ v s h. h),
      listener-kept p parse_url lookup _ _ _ _ _ (
        λ v s h. h,
        (λ v s h. h, (λ v s h. h, (λ v s h. h, (λ v s h. h, λ v s h. h, λ v s h. h)))),
      ),
    ),
  )

  -- A claim has a name.
  abbrev pub AreNamed : Settings → Type 0
  AreNamed s = All (λ c. c.key ≢ []) s.identity.claim_attributes

  claims-AreNamed : IsPut AreNamed parse_url lookup (identity_variables p)
  unfolding identity_variables
  claims-AreNamed = inr (
      inr (
        inr (
          inr (
            inr (
              inr (
                inl (
                  variable-Sets AreNamed _ _ _ _ _
                      (λ raw v s e. (read_list-IsPairs raw v e []).0.named),
                  (
                    variable-Keeps AreNamed _ _ _ _ _ (λ v s h. h),
                    (
                      variable-Keeps AreNamed _ _ _ _ _ (λ v s h. h),
                      (variable-Keeps AreNamed _ _ _ _ _ (λ v s h. h), tt),
                    ),
                  ),
                )))))))

  pub claims_named : IsHeld AreNamed parse_url lookup (settings_groups p)
  unfolding settings_groups group from_self
  claims_named = inl (
    plain-sets AreNamed parse_url lookup _ _ claims-AreNamed,
    (
      upstream-Keeps p parse_url lookup AreNamed (λ v s h. h),
      listener-kept p parse_url lookup AreNamed _ _ _ _ (
        λ v s h. h,
        (λ v s h. h, (λ v s h. h, (λ v s h. h, (λ v s h. h, λ v s h. h, λ v s h. h)))),
      ),
    ),
  )

  -- Each signal has a configuration.
  abbrev pub AreConfigured : Settings → Type 0
  AreConfigured s = All (IsConfigured p.library lookup s.upstream) signals

  upstream_set :
      (s : Settings) (r : Configs × List Fault)
      → Outcome p.library lookup signals r
      → (with_upstream p s r).1 ≡ []
      → AreConfigured (with_upstream p s r).0
  unfolding with_upstream
  upstream_set s (v, []) (resolved e all) n = all
  upstream_set s (v, []) (refused e m) n = absurd (e refl)
  upstream_set s (v, e ∷ errs) o n = absurd cc

  pub signals_configured : IsHeld AreConfigured parse_url lookup (settings_groups p)
  unfolding settings_groups group from_self upstream_group resolve_settings
  signals_configured = inr (
      inl (
        filled-sets AreConfigured parse_url lookup _ _
            (λ s n. upstream_set s _ (resolve-IsOutcome p.library lookup signals) n),
        listener-kept p parse_url lookup AreConfigured _ _ _ _ (
          λ v s h. h,
          (λ v s h. h, (λ v s h. h, (λ v s h. h, (λ v s h. h, λ v s h. h, λ v s h. h)))),
        ),
      ))

  pub listener-IsRule : IsRule listener_texts
  unfolding settings_groups group from_self
  listener-IsRule = inr (
      inr (
        inl (
          plain-valid parse_url lookup _ _,
          bounds-kept p parse_url lookup _ _ _ _
              (λ v s h. h, (λ v s h. h, (λ v s h. h, (λ v s h. h, λ v s h. h, λ v s h. h)))),
        )))

  pub bounds-IsRule : IsRule bounds_texts
  unfolding settings_groups group from_self
  bounds-IsRule = inr (
      inr (
        inr (
          inl (
            plain-valid parse_url lookup _ _,
            metrics-kept p parse_url lookup _ _ _
                (λ v s h. h, (λ v s h. h, (λ v s h. h, λ v s h. h, λ v s h. h))),
          ))))

  pub metrics-IsRule : IsRule metrics_texts
  unfolding settings_groups group from_self
  metrics-IsRule = inr (
      inr (
        inr (
          inr (
            inl (
              plain-valid parse_url lookup _ _,
              resources-kept p parse_url lookup _ _
                  (λ v s h. h, (λ v s h. h, λ v s h. h, λ v s h. h)),
            )))))

  pub resources-IsRule : IsRule resources_texts
  unfolding settings_groups group from_self
  resources-IsRule = inr (
      inr (
        inr (
          inr (
            inr (
              inl (
                plain-valid parse_url lookup _ _,
                self-kept p parse_url lookup _ (λ v s h. h, λ v s h. h, λ v s h. h),
              ))))))
