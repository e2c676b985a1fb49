-- ===== src/Render/Table/Required.antt =====
-- A required variable that is missing stops the run command before it acts.
use mathlib.Core.List.{append_assoc}
use otlp_collector_oidc.Prelude.{
  ◌≡◌, ◌≢◌, refl, sym, ap, ◌∙◌, Text, bytes, List, [], ◌∷◌, ◌++◌, Option, none, true, arith,
}
use otlp_collector_oidc.Upstream.Variables.{Url, Fault, variable_error, required}
use otlp_collector_oidc.Upstream.Resolve.{Lookup, nonempty}
use otlp_collector_oidc.Render.Load.{
  Variable, load, load_groups, load_group, load_variables, load_variable,
}
use otlp_collector_oidc.Render.Load.Complete.{
  IsPart, faults_of, faults_of_all, faults_of-missing, load-reports,
}
use otlp_collector_oidc.Render.Settings.{Settings, LogSettings}
use otlp_collector_oidc.Render.Run.{Tables, Host, faults, run}
use otlp_collector_oidc.Render.Run.Order.{run-faults}
use otlp_collector_oidc.Render.Table.{
  Packages, parse_field, variable, identity_variables, bounds_variables, group, settings_groups,
  across, logs_groups, source_groups,
}

-- What `run` loads, from zero values.
unfoldable pub shipped_tables : Packages → LogSettings → Settings → Tables
shipped_tables p zero_logs zero = record {
  source = source_groups p;
  logs_only = logs_groups p;
  settings = settings_groups p;
  across = across p;
  zero_logs = zero_logs;
  zero = zero;
}

-- The required variables.
pub data Needed : Type 0 where
  issuer_url audience allowed_service_names : Needed

unfoldable pub needed_name : Needed → Text
needed_name issuer_url = bytes "OIDC_ISSUER_URL"
needed_name audience = bytes "OIDC_AUDIENCE"
needed_name allowed_service_names = bytes "ALLOWED_SERVICE_NAMES"

-- The fault of a needed variable that is missing.
abbrev missing : Needed → List Fault
missing v = variable_error (needed_name v) [] required ∷ []

middle : {A : Type 0} (before after : List A) (x : A) → before ++ x ∷ after ≢ []
middle [] after x = λ h. ground arith
middle (b ∷ before) after x = λ h. ground arith

IsPart-of_IsPart : {A : Type 0} (xs ys zs : List A) → IsPart xs ys → IsPart ys zs → IsPart xs zs
IsPart-of_IsPart xs ys zs (b, a, e) (c, d, f) = (
  c ++ b,
  a ++ d,
  f
      ∙ ap (λ y. c ++ (y ++ d)) e
      ∙ ap (λ y. c ++ y) (append_assoc b (xs ++ a) d ∙ ap (λ y. b ++ y) (append_assoc xs a d))
      ∙ sym (append_assoc c b (xs ++ (a ++ d))),
)

module _ {S : Type 0} (parse_url : Text → Option Url) (lookup : Lookup) where
  first-IsPart :
      (v : Variable S) (vs : List (Variable S))
      → v.required ≡ true
      → nonempty (lookup v.name) ≡ none
      → IsPart (variable_error v.name [] required ∷ []) (faults_of_all parse_url lookup (v ∷ vs))
  unfolding faults_of_all
  first-IsPart v vs r e = (
    [],
    faults_of_all parse_url lookup vs,
    ap (λ x. x ++ faults_of_all parse_url lookup vs) (faults_of-missing parse_url lookup v r e),
  )

  later-IsPart :
      (v : Variable S) (vs : List (Variable S)) (xs : List Fault)
      → IsPart xs (faults_of_all parse_url lookup vs)
      → IsPart xs (faults_of_all parse_url lookup (v ∷ vs))
  unfolding faults_of_all
  later-IsPart v vs xs (b, a, e) = (
    faults_of parse_url lookup v ++ b,
    a,
    ap (λ x. faults_of parse_url lookup v ++ x) e
        ∙ sym (append_assoc (faults_of parse_url lookup v) b (xs ++ a)),
  )

module _ (p : Packages) (parse_url : Text → Option Url) (lookup : Lookup) where
  source-unset :
      nonempty (lookup (bytes "COLLECTOR_CONFIG")) ≡ none
      → load parse_url lookup (source_groups p) (λ _. []) [] ≡ ([], [])
  unfolding load load_groups load_group load_variables load_variable source_groups variable
      parse_field
  source-unset e = rw e

  -- The group of a needed variable has its fault.
  needed-IsPart :
      (v : Needed) (zero : Settings)
      → nonempty (lookup (needed_name v)) ≡ none
      → IsPart (missing v) (load parse_url lookup (settings_groups p) (across p) zero).1
  unfolding needed_name settings_groups group identity_variables bounds_variables variable
  needed-IsPart issuer_url zero e =
      IsPart-of_IsPart (missing issuer_url) _ _ (first-IsPart parse_url lookup _ _ refl e)
        (load-reports parse_url lookup (settings_groups p) (across p) zero).0
  needed-IsPart audience zero e =
      IsPart-of_IsPart (missing audience) _ _
        (later-IsPart parse_url lookup _ _ (missing audience)
          (first-IsPart parse_url lookup _ _ refl e))
        (load-reports parse_url lookup (settings_groups p) (across p) zero).0
  needed-IsPart allowed_service_names zero e =
      IsPart-of_IsPart (missing allowed_service_names) _ _
        (first-IsPart parse_url lookup _ _ refl e)
        (load-reports parse_url lookup (settings_groups p) (across p) zero).1.1.1.0

  -- Where no configuration is mounted and a required variable is unset or empty, whatever the other
  -- variables are, the run command does nothing, and returns errors of which one says that this
  -- variable is required.
  pub run-required :
      (h : Host) (v : Needed) (zero_logs : LogSettings) (zero : Settings)
      → nonempty (lookup (bytes "COLLECTOR_CONFIG")) ≡ none
      → nonempty (lookup (needed_name v)) ≡ none
      → (before : List Fault) × (after : List Fault) × (run h parse_url
            (shipped_tables p zero_logs zero)
            lookup
          ≡ ([], faults (before ++ variable_error (needed_name v) [] required ∷ after)))
  unfolding shipped_tables
  run-required h v zero_logs zero c e =
      let (before, after, all) = needed-IsPart v zero e in
      (
        before,
        after,
        run-faults h parse_url (shipped_tables p zero_logs zero) lookup (source-unset c)
              (λ z. middle before after _ (sym all ∙ z))
            ∙ ap (λ x. ([], faults x)) all,
      )
