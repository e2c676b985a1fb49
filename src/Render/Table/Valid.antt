-- ===== src/Render/Table/Valid.antt =====
-- internal/render/env.go: what holds of the settings that load without a fault.
use otlp_collector_oidc.Prelude.{
  ◌≡◌, ◌↔◌, ◌⊎◌, ◌<◌, inl, inr, refl, Text, bytes, ◌==◌, ==_iff, List, [], ◌∷◌, map, Option, some,
  if◌then◌else◌, Bool, true, false, Bool-cases, All, arith, append_nil, ℕ,
}
use otlp_collector_oidc.Prelude.Int.{ℤ, pos, ◌≤ℤ◌, ◌<ℤ◌, ltb_ℤ_iff, ltb_ℤ-false_iff}
use otlp_collector_oidc.Prelude.Time.{Duration}
use otlp_collector_oidc.Upstream.Enums.{signals}
use otlp_collector_oidc.Upstream.Variables.{Url, rule_error}
use otlp_collector_oidc.Upstream.Exporter.{ExporterConfig}
use otlp_collector_oidc.Upstream.Resolve.{Lookup}
use otlp_collector_oidc.Upstream.Resolve.Signals.Complete.{IsConfigured}
use otlp_collector_oidc.Render.Values.{to_upstream}
use otlp_collector_oidc.Render.Exporters.{logs}
use otlp_collector_oidc.Render.Rules.{listener_errors, bounds_errors, metric_errors, memory_errors}
use otlp_collector_oidc.Render.Rules.Identity.{IsIdentity, identity_errors-IsIdentity}
use otlp_collector_oidc.Render.Rules.Output.{settings_errors-nil}
use otlp_collector_oidc.Render.Load.{load}
use otlp_collector_oidc.Render.Load.Complete.{load-valid}
use otlp_collector_oidc.Render.Load.Held.{load-held}
use otlp_collector_oidc.Prelude.Result.{ok}
use otlp_collector_oidc.Render.Settings.{Settings, LogSettings}
use otlp_collector_oidc.Render.Run.{Host, run}
use otlp_collector_oidc.Render.Run.Written.{Writes, run-Writes}
use otlp_collector_oidc.Render.Table.Required.{shipped_tables}
use otlp_collector_oidc.Render.Table.{Packages, settings_groups, across}
use otlp_collector_oidc.Render.Table.Held.{
  IsRule, identity_texts, listener_texts, bounds_texts, metrics_texts, resources_texts,
  identity-IsRule, claims_named, AreNamed, signals_configured, AreConfigured, listener-IsRule,
  bounds-IsRule, metrics-IsRule, resources-IsRule,
}

map_nil : {A : Type 0} {B : Type 0} (f : A → B) (xs : List A) → map f xs ≡ [] → xs ≡ []
map_nil f [] h = refl
map_nil f (x ∷ xs) h = absurd cc

-- The certificate and the key are both where they are by default, or neither is.
listener_errors-nil :
    (cert key : Text)
    → listener_errors cert key ≡ []
    → (cert ≡ bytes "/etc/otlp-collector-oidc/tls/cert.pem")
      ↔ (key ≡ bytes "/etc/otlp-collector-oidc/tls/key.pem")
unfolding listener_errors
listener_errors-nil cert key h =
    elim (Bool-cases (cert == bytes "/etc/otlp-collector-oidc/tls/cert.pem")) [
      | inl e ↦ elim (Bool-cases (key == bytes "/etc/otlp-collector-oidc/tls/key.pem")) [
        | inl f ↦ (λ _. (==_iff _ _).0 f, λ _. (==_iff _ _).0 e)
        | inr f ↦ absurd (ground (arith, rw (e, f) at h))
      ]
      | inr e ↦ elim (Bool-cases (key == bytes "/etc/otlp-collector-oidc/tls/key.pem")) [
        | inl f ↦ absurd (ground (arith, rw (e, f) at h))
        | inr f ↦ (
          λ c. absurd (ground (arith, e, (==_iff _ _).1 c)),
          λ k. absurd (ground (arith, f, (==_iff _ _).1 k)),
        )
      ]
    ]

if_nil : {A : Type 0} (b : Bool) (x : A) → (if b then x ∷ [] else []) ≡ [] → b ≡ false
if_nil true x h = absurd cc
if_nil false x h = refl

unless_nil : {A : Type 0} (b : Bool) (x : A) → (if b then [] else x ∷ []) ≡ [] → b ≡ true
unless_nil true x h = refl
unless_nil false x h = absurd cc

bounds_errors-nil :
    (show : Duration → Text) (future_skew past_age : Duration)
    → bounds_errors show future_skew past_age ≡ []
    → (pos 0 ≤ℤ future_skew) × (pos 0 <ℤ past_age)
unfolding bounds_errors
bounds_errors-nil show future_skew past_age h =
    let (f, q) = append_nil _ _ h in
    (
      (ltb_ℤ-false_iff future_skew (pos 0)).0 (if_nil _ _ f),
      (ltb_ℤ_iff (pos 0) past_age).0 (unless_nil _ _ q),
    )

metric_errors-nil :
    (show_int : ℤ → Text) (show : Duration → Text) (streams : ℤ) (stale : Duration)
    → metric_errors show_int show streams stale ≡ []
    → (pos 1 ≤ℤ streams) × (pos 0 <ℤ stale)
unfolding metric_errors
metric_errors-nil show_int show streams stale h =
    let (f, q) = append_nil _ _ h in
    (
      (ltb_ℤ-false_iff streams (pos 1)).0 (if_nil _ _ f),
      (ltb_ℤ_iff (pos 0) stale).0 (unless_nil _ _ q),
    )

memory_errors-nil : (limit spike : ℕ) → memory_errors limit spike ≡ [] → spike < limit
unfolding memory_errors
memory_errors-nil limit spike h = ground arith

module _ (p : Packages) (lookup : Lookup) where
  -- The process's own logs do not leave it, or go to the logs' upstream, which is plaintext or one
  -- whose certificate is verified.
  abbrev pub OwnLogsAreSafe : Settings → Type 0
  OwnLogsAreSafe s =
      (to_upstream s.own.output ≡ false)
      ⊎ ((c : ExporterConfig) × (logs s.upstream ≡ some c)
          × ((c.plaintext ≡ true) ⊎ (c.skip_verify ≡ false)))

  -- What the pipeline relies on in the settings.
  pub record IsValid (s : Settings) : Type 0 where
    pub identity : IsIdentity s.identity.claim_attributes s.identity.client_resource_attrs
    pub upstream : All (IsConfigured p.library lookup s.upstream) signals
    pub certificate :
        (s.listener.tls_cert_file ≡ bytes "/etc/otlp-collector-oidc/tls/cert.pem")
        ↔ (s.listener.tls_key_file ≡ bytes "/etc/otlp-collector-oidc/tls/key.pem")
    pub future : pos 0 ≤ℤ s.bounds.max_future_skew
    pub past : pos 0 <ℤ s.bounds.max_past_age
    pub streams : pos 1 ≤ℤ s.metrics.max_streams
    pub stale : pos 0 <ℤ s.metrics.delta_max_stale
    pub memory : s.resources.memory_spike_limit_mib < s.resources.memory_limit_mib
    pub own_logs : OwnLogsAreSafe s

  own_logs-safe :
      (s : Settings)
      → All (IsConfigured p.library lookup s.upstream) signals
      → across p s ≡ []
      → OwnLogsAreSafe s
  unfolding signals across logs
  own_logs-safe s (_, ((c, found, _), _)) h = elim (Bool-cases (to_upstream s.own.output)) [
    | inr e ↦ inl e
    | inl e ↦
        inr (c, found, settings_errors-nil s.own.output c e (rw found at (map_nil rule_error _ h)))
  ]

  rule_held :
      (parse_url : Text → Option Url) (zero : Settings) (texts : Settings → List Text)
      → IsRule p parse_url lookup texts
      → (load parse_url lookup (settings_groups p) (across p) zero).1 ≡ []
      → texts (load parse_url lookup (settings_groups p) (across p) zero).0 ≡ []
  rule_held parse_url zero texts r h = map_nil rule_error _ (
      load-held (λ s. map rule_error (texts s) ≡ []) parse_url lookup (settings_groups p) (across p)
        zero r h)

  -- Settings that load without a fault are such as the pipeline relies on.
  pub load-IsValid :
      (parse_url : Text → Option Url) (zero : Settings)
      → (load parse_url lookup (settings_groups p) (across p) zero).1 ≡ []
      → IsValid (load parse_url lookup (settings_groups p) (across p) zero).0
  load-IsValid parse_url zero h =
      let s = (load parse_url lookup (settings_groups p) (across p) zero).0 in
      let bounds =
        bounds_errors-nil p.show_duration s.bounds.max_future_skew s.bounds.max_past_age (
          rule_held parse_url zero (bounds_texts p parse_url lookup)
            (bounds-IsRule p parse_url lookup) h) in
      let metrics =
        metric_errors-nil p.show_int p.show_duration s.metrics.max_streams s.metrics.delta_max_stale
          (rule_held parse_url zero (metrics_texts p parse_url lookup)
            (metrics-IsRule p parse_url lookup) h) in
      let configured =
        load-held (AreConfigured p parse_url lookup) parse_url lookup _ (across p) zero
          (signals_configured p parse_url lookup) h in
      record {
        identity =
            identity_errors-IsIdentity s.identity.claim_attributes s.identity.client_resource_attrs
              (load-held (AreNamed p parse_url lookup) parse_url lookup _ (across p) zero
                (claims_named p parse_url lookup) h)
              (rule_held parse_url zero (identity_texts p parse_url lookup)
                (identity-IsRule p parse_url lookup) h);
        upstream = configured;
        certificate = listener_errors-nil s.listener.tls_cert_file s.listener.tls_key_file (
            rule_held parse_url zero (listener_texts p parse_url lookup)
              (listener-IsRule p parse_url lookup) h);
        future = bounds.0;
        past = bounds.1;
        streams = metrics.0;
        stale = metrics.1;
        memory = memory_errors-nil s.resources.memory_limit_mib s.resources.memory_spike_limit_mib (
            rule_held parse_url zero (resources_texts p parse_url lookup)
              (resources-IsRule p parse_url lookup) h);
        own_logs =
            own_logs-safe s configured
              (load-valid parse_url lookup (settings_groups p) (across p) zero h).1;
      }

  -- The instance id has no part in it.
  with_id-IsValid : (s : Settings) (id : Text) → IsValid s → IsValid (record s { instance_id = id })
  with_id-IsValid s id v = record {
    identity = v.identity;
    upstream = v.upstream;
    certificate = v.certificate;
    future = v.future;
    past = v.past;
    streams = v.streams;
    stale = v.stale;
    memory = v.memory;
    own_logs = v.own_logs;
  }

  -- A file that is the rendering of settings such as the pipeline relies on.
  abbrev pub IsRendering : Host → Text → Text → Type 0
  IsRendering h path yaml =
      (s : Settings) × IsValid s × (h.render s ≡ ok yaml) × (path ≡ h.rendered_path)

  -- Whatever the environment is, a file that the run command has written, without an error of the
  -- write, is the rendering of settings in which there is a claim, each claim has an attribute of
  -- its own, which is neither the client's nor stamped on its resource, and the client's own are not
  -- stamped either; each signal has an upstream that can be used; the certificate and the key are
  -- where they are by default both or neither; the future skew is not negative, and the past age is
  -- positive; at least one metric stream is allowed, and they go stale after a positive time; the
  -- memory's spike is below its limit; and the process's own logs stay, or go to an upstream that is
  -- plaintext or verified.
  pub run-IsRendering :
      (h : Host) (parse_url : Text → Option Url) (zero_logs : LogSettings) (zero : Settings)
      → All (Writes h (IsRendering h)) (run h parse_url (shipped_tables p zero_logs zero) lookup).0
  unfolding shipped_tables
  run-IsRendering h parse_url zero_logs zero =
      run-Writes h (IsRendering h) parse_url (shipped_tables p zero_logs zero) lookup
        (λ none_at_fault id yaml rendered. (
          record (load parse_url lookup (settings_groups p) (across p) zero).0 { instance_id = id },
          with_id-IsValid _ id (load-IsValid parse_url zero none_at_fault),
          rendered,
          refl,
        ))
