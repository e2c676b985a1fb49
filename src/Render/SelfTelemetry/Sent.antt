-- ===== src/Render/SelfTelemetry/Sent.antt =====
-- internal/render/selftelemetry.go: from the variables of the environment to the SDK's own exporter.
use otlp_collector_oidc.Prelude.{
  ◌≡◌, ◌≢◌, ◌⊎◌, not, inl, inr, refl, sym, ap, subst, Text, bytes, ◌==◌, ==_iff, List, [], ◌∷◌,
  ◌++◌, some, if◌then◌else◌, Bool, true, false, Bool-cases, All, arith, eqb, eqb_iff,
}
use otlp_collector_oidc.Upstream.Enums.{grpc, http_protobuf, signal_logs, signals}
use otlp_collector_oidc.Upstream.Variables.{Url, Fault}
use otlp_collector_oidc.Upstream.Exporter.{ExporterConfig}
use otlp_collector_oidc.Upstream.Resolve.{Lookup, Library, values}
use otlp_collector_oidc.Upstream.Resolve.Signals.{Configs, resolve}
use otlp_collector_oidc.Upstream.Resolve.Signals.Complete.{
  Outcome, resolved, refused, resolve-IsOutcome, IsConfigured,
}
use otlp_collector_oidc.Render.Values.{to_upstream}
use otlp_collector_oidc.Render.Exporters.{logs, resolve_settings}
use otlp_collector_oidc.Render.Rules.{settings_errors}
use otlp_collector_oidc.Render.Rules.Output.{settings_errors-nil}
use otlp_collector_oidc.Render.Settings.{Settings}
use otlp_collector_oidc.Render.SelfTelemetry.{
  OtlpExporter, LogProcessor, own_endpoint, self_logs_exporter, exported, self_log_processors,
  trim_slash,
}

-- How the connection is secured: not at all, where the upstream is plaintext, and else with the
-- upstream's files, by a URL of https, and with the certificate verified.
abbrev pub IsSecure : ExporterConfig → Url → OtlpExporter → Type 0
IsSecure c u e =
    (c.plaintext ≡ true)
      × (e.insecure ≡ true)
      × (e.certificate ≡ [])
      × (e.client_certificate ≡ [])
      × (e.client_key ≡ [])
    ⊎ (c.plaintext ≡ false)
      × (e.insecure ≡ false)
      × (u.scheme ≡ bytes "https")
      × (c.skip_verify ≡ false)
      × (e.certificate ≡ c.ca_file)
      × (e.client_certificate ≡ c.client_cert_file)
      × (e.client_key ≡ c.client_key_file)

-- Where it goes: with gRPC to the URL's host, by a scheme that says whether there is TLS; over HTTP
-- to the signal's own URL, or to the path of the logs below the URL of all signals.
abbrev pub IsAddressed : Bool → Text → Bool → Url → OtlpExporter → Type 0
IsAddressed plaintext raw own u e =
    (e.protocol ≡ bytes "grpc")
      × (e.endpoint ≡ (if plaintext then bytes "http://" else bytes "https://") ++ u.host)
    ⊎ (e.protocol ≡ bytes "http/protobuf") × (own ≡ true) × (e.endpoint ≡ raw)
    ⊎ (e.protocol ≡ bytes "http/protobuf")
      × (own ≡ false)
      × ((base : Text) × ((raw ≡ base) ⊎ (raw ≡ base ++ b'/' ∷ []))
          × (e.endpoint ≡ base ++ bytes "/v1/logs"))

-- The exporter of the process's own logs, by the logs' upstream and the URL of its variable.
abbrev pub IsSent : Library → Lookup → Settings → OtlpExporter → Type 0
IsSent lib lookup s e =
    (c : ExporterConfig) × (u : Url) × (logs s.upstream ≡ some c)
    × (lib.parse_url (values lookup signal_logs).endpoint.raw ≡ some u)
    × IsSecure c u e
    × IsAddressed c.plaintext (values lookup signal_logs).endpoint.raw
        (values lookup signal_logs).endpoint.per_signal u e

trim_slash_cases : (s : Text) → (s ≡ trim_slash s) ⊎ (s ≡ trim_slash s ++ b'/' ∷ [])
unfolding trim_slash
trim_slash_cases [] = inl refl
trim_slash_cases (c ∷ []) = elim (Bool-cases (eqb c b'/')) [
  | inl e ↦ rw e (inr (ap (λ x. x ∷ []) ((eqb_iff c b'/').0 e)))
  | inr e ↦ rw e (inl refl)
]
trim_slash_cases (c ∷ d ∷ s) = elim (trim_slash_cases (d ∷ s)) [
  | inl e ↦ inl (ap (λ x. c ∷ x) e)
  | inr e ↦ inr (ap (λ x. c ∷ x) e)
]

https_of :
    (u : Url)
    → (u.scheme ≡ bytes "http") ⊎ (u.scheme ≡ bytes "https")
    → (u.scheme == bytes "http") ≡ false
    → u.scheme ≡ bytes "https"
https_of u (inl h) n = absurd (ground (arith, (==_iff u.scheme (bytes "http")).1 h, n))
https_of u (inr h) n = h

exporter-IsSecure :
    (c : ExporterConfig) (u : Url) (b : Bool)
    → (u.scheme ≡ bytes "http") ⊎ (u.scheme ≡ bytes "https")
    → b ≡ (u.scheme == bytes "http")
    → (b ≡ false) ⊎ (c.plaintext ≡ true)
    → (c.plaintext ≡ true) ⊎ (c.skip_verify ≡ false)
    → IsSecure c u (self_logs_exporter c)
unfolding self_logs_exporter
exporter-IsSecure c u b scheme plain forced rule = elim (Bool-cases c.plaintext) [
  | inl e ↦ inl (e, e, rw e refl, rw e refl, rw e refl)
  | inr e ↦
      let not_http : (u.scheme == bytes "http") ≡ false = ground (arith, forced, e, plain) in
      inr
        (e, e, https_of u scheme not_http, ground (arith, rule, e), rw e refl, rw e refl, rw e refl)
]

exporter-IsAddressed :
    (c : ExporterConfig) (raw : Text) (own : Bool) (u : Url)
    → (c.protocol ≡ grpc) × (c.endpoint ≡ u.host) × (u.port ≢ []) × (c.signal_path ≡ false)
      ⊎ (c.protocol ≡ http_protobuf) × (c.endpoint ≡ raw) × (c.signal_path ≡ not own)
    → IsAddressed c.plaintext raw own u (self_logs_exporter c)
unfolding self_logs_exporter own_endpoint
exporter-IsAddressed c raw own u (inl (p, e, _, _)) = inl (rw p refl, rw (p, e) refl)
exporter-IsAddressed c raw true u (inr (p, e, g)) =
    inr (inl (rw p refl, refl, rw (p, own_endpoint, g) e))
exporter-IsAddressed c raw false u (inr (p, e, g)) =
    inr (
      inr
        (rw p refl, refl, (trim_slash raw, trim_slash_cases raw, rw (p, own_endpoint, g, e) refl)))

configured-IsSent :
    (lib : Library) (lookup : Lookup) (s : Settings)
    → All (IsConfigured lib lookup s.upstream) signals
    → to_upstream s.own.output ≡ true
    → settings_errors s.own.output (logs s.upstream) ≡ []
    → (p : LogProcessor) × (self_log_processors s ≡ p ∷ []) × IsSent lib lookup s p.otlp
unfolding self_log_processors exported signals logs
configured-IsSent lib lookup s (_, ((c, found, usable), _)) sent valid =
    let (u, b, parsed, target, forced) = usable.target in
    (
      record { otlp = self_logs_exporter c },
      rw (sent, found) refl,
      (
        c,
        u,
        found,
        parsed,
        exporter-IsSecure c u b target.scheme target.plaintext forced
            (settings_errors-nil s.own.output c sent (rw found at valid)),
        exporter-IsAddressed c (values lookup signal_logs).endpoint.raw
            (values lookup signal_logs).endpoint.per_signal u target.place,
      ),
    )

resolved_configs :
    (lib : Library) (lookup : Lookup) (out : Configs × List Fault)
    → out.1 ≡ []
    → Outcome lib lookup signals out
    → All (IsConfigured lib lookup out.0) signals
resolved_configs lib lookup out h (resolved _ all) = all
resolved_configs lib lookup out h (refused ne _) = absurd (ne h)

-- Where the environment resolves without an error, and the rule of the own logs' output holds, the
-- process's own logs stay in the process, or they have one exporter. That exporter is set as the
-- logs' upstream is: either both are plaintext, and it has no files of TLS, or neither is, the
-- variable's URL is of https, the certificate is verified, and the files are the upstream's. It
-- goes to the variable's URL: with gRPC to its host, by the scheme of the connection, and over HTTP
-- to the URL itself where the variable is the signal's own, and else to /v1/logs below it.
pub self_log_processors-IsSent :
    (lib : Library) (lookup : Lookup) (s : Settings)
    → (resolve_settings lib lookup).1 ≡ []
    → s.upstream ≡ (resolve_settings lib lookup).0
    → settings_errors s.own.output (logs s.upstream) ≡ []
    → (to_upstream s.own.output ≡ false) × (self_log_processors s ≡ [])
      ⊎ (to_upstream s.own.output ≡ true)
        × ((p : LogProcessor) × (self_log_processors s ≡ p ∷ []) × IsSent lib lookup s p.otlp)
unfolding resolve_settings self_log_processors exported
self_log_processors-IsSent lib lookup s h same valid =
    let all : All (IsConfigured lib lookup s.upstream) signals =
      subst (λ configs. All (IsConfigured lib lookup configs) signals) (sym same)
        (resolved_configs lib lookup (resolve lib lookup signals) h
          (resolve-IsOutcome lib lookup signals)) in
    elim (Bool-cases (to_upstream s.own.output)) [
      | inl e ↦ inr (e, configured-IsSent lib lookup s all e valid)
      | inr e ↦ inl (e, rw e refl)
    ]
