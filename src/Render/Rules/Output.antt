-- ===== src/Render/Rules/Output.antt =====
-- internal/render/env.go: the logs' upstream, once the rule of the own logs' output holds.
use otlp_collector_oidc.Prelude.{◌≡◌, ◌⊎◌, inl, inr, [], some, true, false, Bool-cases, arith}
use otlp_collector_oidc.Upstream.Exporter.{ExporterConfig}
use otlp_collector_oidc.Render.Values.{LogOutput, to_upstream}
use otlp_collector_oidc.Render.Rules.{unverified, settings_errors}

pub settings_errors-nil :
    (output : LogOutput) (c : ExporterConfig)
    → to_upstream output ≡ true
    → settings_errors output (some c) ≡ []
    → (c.plaintext ≡ true) ⊎ (c.skip_verify ≡ false)
unfolding settings_errors unverified
settings_errors-nil output c sent h = elim (Bool-cases c.plaintext) [
  | inl e ↦ inl e
  | inr e ↦ elim (Bool-cases c.skip_verify) [ inl f ↦ absurd (ground arith) | inr f ↦ inr f ]
]
