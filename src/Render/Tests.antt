-- ===== src/Render/Tests.antt =====
-- The theorems about internal/render at concrete inputs.
mod Resolved
mod Stamped
mod Quoted
mod Started
mod Disk
mod Withheld
mod Valid
use otlp_collector_oidc.Prelude.{
  Text, bytes, ◌==◌, List, [], ◌∷◌, none, some, if◌then◌else◌, true, ◌≡◌, refl, All, split, arith,
  lookup, insert, cut, trim_space,
}
use otlp_collector_oidc.Prelude.Escape.{unescape}
use otlp_collector_oidc.Prelude.Ordered.{put, modify}
use otlp_collector_oidc.Prelude.Result.{ok}
use otlp_collector_oidc.Upstream.Variables.{Fault}
use otlp_collector_oidc.Upstream.Resolve.{Lookup}
use otlp_collector_oidc.Render.Values.{
  KeyValue, read_list, read_key_values, read_key_value, add_key_value,
}
use otlp_collector_oidc.Render.Values.Pairs.{IsPairs, value_in, last_value, read_list-IsPairs}
use otlp_collector_oidc.Render.Rules.{
  identity_errors, claims_errors, claim_errors, client_owned, resources_errors, resource_errors,
}
use otlp_collector_oidc.Render.Rules.Identity.{IsIdentity, identity_errors-IsIdentity}
use otlp_collector_oidc.Render.Load.{
  Variable, Group, load, load_groups, load_group, load_variables, load_variable,
}
use otlp_collector_oidc.Render.Load.Complete.{IsPart, faults_of_all, load-reports, load-valid}

abbrev claims : List KeyValue
claims = record { key = bytes "sub"; value = bytes "user.id" } ∷ []

read_claims : read_list (bytes "sub=x,sub=user.id") ≡ ok claims
unfolding read_list read_key_values split bytes trim_space read_key_value unescape cut add_key_value
    put lookup insert ◌==◌ modify
read_claims = refl

abbrev stamps : List KeyValue
stamps = record { key = bytes "telemetry_source"; value = bytes "client" } ∷ []

no_errors : identity_errors claims stamps ≡ []
unfolding identity_errors claims_errors claim_errors bytes client_owned ◌==◌ lookup resources_errors
    resource_errors insert
no_errors = refl
