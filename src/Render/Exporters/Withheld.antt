-- ===== src/Render/Exporters/Withheld.antt =====
-- internal/render/upstream.go: what is logged of the upstreams keeps their headers' values.
use otlp_collector_oidc.Prelude.{◌≡◌, refl, List, [], ◌∷◌, Bool-cases, inl, inr}
use otlp_collector_oidc.Upstream.Enums.{Signal}
use otlp_collector_oidc.Upstream.Headers.{Header, new_headers}
use otlp_collector_oidc.Upstream.Headers.Withheld.{HaveSameNames, redacted-alike, names-alike}
use otlp_collector_oidc.Upstream.Exporter.{ExporterConfig}
use otlp_collector_oidc.Upstream.Exporter.Shown.{config_string}
use otlp_collector_oidc.Upstream.Resolve.Signals.{Configs, config_of, same_signal}
use otlp_collector_oidc.Render.Exporters.{field_of, log_fields, redact_all}

-- A configuration with these headers.
abbrev pub sending : ExporterConfig → List Header → ExporterConfig
sending c ps = record c { headers = new_headers ps }

-- Configurations that differ in the values of headers only.
pub data AreAlike : Configs → Configs → Type 0 where
  no_configs : AreAlike [] []
  also :
      {out other : Configs} (sig : Signal) (c : ExporterConfig) (ps qs : List Header)
      → HaveSameNames ps qs
      → AreAlike out other
      → AreAlike ((sig, sending c ps) ∷ out) ((sig, sending c qs) ∷ other)

config_string-alike :
    (c : ExporterConfig) (ps qs : List Header)
    → HaveSameNames ps qs
    → config_string (sending c ps) ≡ config_string (sending c qs)
unfolding config_string
config_string-alike c ps qs h = rw (names-alike ps qs h) refl

field_of-alike :
    (sig : Signal) {out other : Configs}
    → AreAlike out other
    → field_of sig (config_of sig out) ≡ field_of sig (config_of sig other)
unfolding field_of config_of
field_of-alike sig no_configs = refl
field_of-alike sig (also s c ps qs h more) = elim (Bool-cases (same_signal s sig)) [
  | inl e ↦ rw (e, config_string-alike c ps qs h) refl
  | inr e ↦ rw e (field_of-alike sig more)
]

log_fields-alike :
    {out other : Configs} (sigs : List Signal)
    → AreAlike out other
    → log_fields out sigs ≡ log_fields other sigs
unfolding log_fields
log_fields-alike [] h = refl
log_fields-alike (sig ∷ sigs) h = rw (field_of-alike sig h, log_fields-alike sigs h) refl

redact_all-alike : {out other : Configs} → AreAlike out other → redact_all out ≡ redact_all other
unfolding redact_all
redact_all-alike no_configs = refl
redact_all-alike (also sig c ps qs h more) = rw (redacted-alike ps qs h, redact_all-alike more) refl

-- Configurations that differ in the values of headers only, the headers being of bytes, are the
-- same in the fields that are logged at the start and in the copy that the logged rendering is made
-- of.
pub log_fields-withheld :
    {out other : Configs} (sigs : List Signal)
    → AreAlike out other
    → (log_fields out sigs ≡ log_fields other sigs) × (redact_all out ≡ redact_all other)
log_fields-withheld sigs h = (log_fields-alike sigs h, redact_all-alike h)
