-- ===== src/Render/Rules.antt =====
-- internal/render/env.go: the rules of the groups of settings, which hold across their fields.
pub mod Identity
pub mod Output
use otlp_collector_oidc.Prelude.{
  ℕ, Text, bytes, ◌==◌, contains, List, [], ◌∷◌, ◌++◌, map, Option, none, some, if◌then◌else◌, Bool,
  true, false, not, ◌&&◌, ◌||◌, is_empty, leb, eqb, Entries, lookup, insert,
}
use otlp_collector_oidc.Prelude.Int.{ℤ, pos, ltb_ℤ}
use otlp_collector_oidc.Prelude.Time.{Duration}
use otlp_collector_oidc.Prelude.Result.{itoa}
use otlp_collector_oidc.Render.Values.{KeyValue, LogOutput, to_upstream}
use otlp_collector_oidc.Upstream.Exporter.{ExporterConfig}

unfoldable pub client_owned : Text → Bool
client_owned key = key == bytes "service.name" || key == bytes "service.version"

-- `targets[key]`, which is empty where the key is missing.
abbrev target_of : Option Text → Text
target_of none = []
target_of (some claim) = claim

-- The switch over a claim's attribute.
unfoldable pub claim_errors : Entries Text → KeyValue → List Text
claim_errors targets kv =
    let claim = target_of (lookup kv.value targets) in
    if is_empty kv.value
    then (bytes "CLAIM_ATTRIBUTES: claim " ++ (kv.key ++ bytes " maps to no attribute")) ∷ []
    else if client_owned kv.value
    then (bytes "CLAIM_ATTRIBUTES: " ++ (kv.value ++ bytes " is the client's, not a claim's")) ∷ []
    else if not (is_empty claim)
    then (bytes "CLAIM_ATTRIBUTES: claims "
        ++ (claim ++ (bytes " and " ++ (kv.key ++ (bytes " both map to " ++ kv.value)))))
      ∷ []
    else []

-- The loop over the claims.
unfoldable pub claims_errors : Entries Text → List KeyValue → List Text × Entries Text
claims_errors targets [] = ([], targets)
claims_errors targets (kv ∷ claims) =
    let (errs, final) = claims_errors (insert kv.value kv.key targets) claims in
    (claim_errors targets kv ++ errs, final)

unfoldable pub resource_errors : Entries Text → KeyValue → List Text
resource_errors targets kv =
    let claim = target_of (lookup kv.key targets) in
    if client_owned kv.key
    then (bytes "CLIENT_RESOURCE_ATTRIBUTES: " ++ (kv.key ++ bytes " is the client's")) ∷ []
    else if not (is_empty claim)
    then (bytes "CLIENT_RESOURCE_ATTRIBUTES: "
        ++ (kv.key ++ (bytes " is the attribute of claim " ++ claim)))
      ∷ []
    else []

-- The loop over the resource attributes.
unfoldable pub resources_errors : Entries Text → List KeyValue → List Text
resources_errors targets [] = []
resources_errors targets (kv ∷ attributes) =
    resource_errors targets kv ++ resources_errors targets attributes

no_claims : List KeyValue → List Text
no_claims [] = bytes "CLAIM_ATTRIBUTES must map at least one claim, such as sub=user.id" ∷ []
no_claims (kv ∷ claims) = []

-- `IdentitySettings.Validate`, of the claims' attributes and those of the client's resource.
unfoldable pub identity_errors : List KeyValue → List KeyValue → List Text
unfolding no_claims
identity_errors claims attributes =
    let (errs, targets) = claims_errors [] claims in
    no_claims claims ++ (errs ++ resources_errors targets attributes)

-- `show` is Duration.String.
unfoldable pub bounds_errors : (Duration → Text) → Duration → Duration → List Text
bounds_errors show future_skew past_age =
    (if ltb_ℤ future_skew (pos 0)
      then (bytes "MAX_FUTURE_SKEW (" ++ (show future_skew ++ bytes ") must not be negative")) ∷ []
      else [])
    ++ (if ltb_ℤ (pos 0) past_age
        then []
        else (bytes "MAX_PAST_AGE (" ++ (show past_age ++ bytes ") must be positive")) ∷ [])

-- `show_int` is the decimal that `%d` writes.
unfoldable pub metric_errors : (ℤ → Text) → (Duration → Text) → ℤ → Duration → List Text
metric_errors show_int show streams stale =
    (if ltb_ℤ streams (pos 1)
      then (bytes "MAX_METRIC_STREAMS (" ++ (show_int streams ++ bytes ") must be at least 1")) ∷ []
      else [])
    ++ (if ltb_ℤ (pos 0) stale
        then []
        else (bytes "DELTA_MAX_STALE (" ++ (show stale ++ bytes ") must be positive")) ∷ [])

-- `ListenerSettings.Validate`, of the certificate's and the key's files.
unfoldable pub listener_errors : Text → Text → List Text
listener_errors cert key =
    let cert_default = cert == bytes "/etc/otlp-collector-oidc/tls/cert.pem" in
    let key_default = key == bytes "/etc/otlp-collector-oidc/tls/key.pem" in
    if (cert_default && not key_default) || (not cert_default && key_default)
    then bytes "TLS_CERT_FILE and TLS_KEY_FILE must be set together" ∷ []
    else []

-- `ResourceSettings.Validate`, of the limits in MiB.
unfoldable pub memory_errors : ℕ → ℕ → List Text
memory_errors limit spike =
    if leb limit spike
    then (bytes "MEMORY_SPIKE_LIMIT_MIB ("
        ++ (itoa spike
            ++ (bytes ") must be less than MEMORY_LIMIT_MIB (" ++ (itoa limit ++ bytes ")"))))
      ∷ []
    else []

unverified : Option ExporterConfig → Bool
unverified none = false
unverified (some c) = not c.plaintext && c.skip_verify

-- `Settings.Validate`, of the own logs' output and the logs' upstream.
unfoldable pub settings_errors : LogOutput → Option ExporterConfig → List Text
unfolding unverified
settings_errors output logs =
    if to_upstream output && unverified logs
    then bytes
        "UPSTREAM_TLS_INSECURE_SKIP_VERIFY cannot apply to the process's own logs, whose exporter always verifies: set LOG_OUTPUT=stdout, or trust the upstream with OTEL_EXPORTER_OTLP_LOGS_CERTIFICATE"
      ∷ []
    else []
