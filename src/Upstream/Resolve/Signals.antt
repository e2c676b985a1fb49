-- ===== src/Upstream/Resolve/Signals.antt =====
-- internal/upstream/resolve.go: the rules across a signal's variables, and those across the signals.
pub mod Reports
pub mod Once
pub mod Parsing
pub mod Usable
pub mod Complete
pub mod Reads
use otlp_collector_oidc.Prelude.{
  Text, bytes, ◌==◌, equal_fold, List, [], ◌∷◌, ◌++◌, Option, none, some, if◌then◌else◌, Bool, true,
  false, not, ◌&&◌, ◌||◌, is_empty, eqb, length,
}
use otlp_collector_oidc.Upstream.Enums.{
  Signal, signal_traces, signal_logs, signal_metrics, signal_string, Protocol, unset, grpc,
  http_protobuf,
}
use otlp_collector_oidc.Upstream.Variables.{
  Setting, insecure_row, settings, prefix, base_name, Fault, rule_error,
}
use otlp_collector_oidc.Upstream.Exporter.{ExporterConfig}
use otlp_collector_oidc.Upstream.Resolve.{
  Lookup, Read, Resolver, new_resolver, Library, fail, nonempty, Parsed, Values, values,
  parse_values,
}

abbrev pub same_signal : Signal → Signal → Bool
same_signal signal_traces signal_traces = true
same_signal signal_logs signal_logs = true
same_signal signal_metrics signal_metrics = true
same_signal signal_traces signal_logs = false
same_signal signal_traces signal_metrics = false
same_signal signal_logs signal_traces = false
same_signal signal_logs signal_metrics = false
same_signal signal_metrics signal_traces = false
same_signal signal_metrics signal_logs = false

-- A `map[Signal]ExporterConfig`, by its assignments.
abbrev pub Configs : Type 0
Configs = List (Signal × ExporterConfig)

unfoldable pub config_of : Signal → Configs → Option ExporterConfig
config_of sig [] = none
config_of sig ((s, c) ∷ out) = if same_signal s sig then some c else config_of sig out

-- `out[sig] = c`.
unfoldable pub assign : Signal → ExporterConfig → Configs → Configs
assign sig c [] = (sig, c) ∷ []
assign sig c ((s, d) ∷ out) = if same_signal s sig then (s, c) ∷ out else (s, d) ∷ assign sig c out

module _ (lib : Library) where
  insecure_text : Values → Text
  insecure_text v =
      v.insecure.name
      ++ (bytes "=true applies to grpc only: for plaintext http/protobuf, make "
          ++ (v.endpoint.name ++ bytes " an http:// URL"))

  -- The switch over the protocol: whether the upstream is plaintext is its second part.
  unfoldable pub protocol_rule : Protocol → Resolver → Values → Parsed → Resolver × Bool
  unfolding insecure_text
  protocol_rule unset r v p = (r, p.config.plaintext)
  protocol_rule grpc r v p = (record r { any_grpc = true }, p.config.plaintext || p.force_plaintext)
  protocol_rule http_protobuf r v p = (
    if p.force_plaintext && not p.config.plaintext && v.insecure.per_signal
        then fail lib r (rule_error (insecure_text v))
        else r,
    p.config.plaintext,
  )

  key_text : Values → Text
  key_text v =
      v.client_certificate.name
      ++ (bytes " and " ++ (v.client_key.name ++ bytes " must be set together"))

  -- A certificate and its key.
  unfoldable pub key_rule : Resolver → Values → Resolver
  unfolding key_text
  key_rule r v =
      if is_empty v.client_certificate.raw
      then if is_empty v.client_key.raw then r else fail lib r (rule_error (key_text v))
      else if is_empty v.client_key.raw
      then fail lib r (rule_error (key_text v))
      else r

  -- The loop over the files of a plaintext upstream.
  unfoldable pub file_rule : Resolver → Signal → List Read → Resolver
  file_rule r sig [] = r
  file_rule r sig (v ∷ vs) =
      if not (is_empty v.raw) && v.per_signal
      then file_rule
          (fail lib r (
            rule_error (
              v.name
              ++ (bytes " is set, but the "
                  ++ (signal_string sig ++ bytes " upstream is plaintext")))))
          sig vs
      else file_rule r sig vs

  -- The configuration, once the resolver has no fault of the signal.
  unfaulted : Resolver → ExporterConfig → Resolver × Option ExporterConfig
  unfaulted r c = if r.faulted then (r, none) else (r, some c)

  -- The rest of `signal`, of a plaintext upstream or one of TLS.
  unfoldable pub tls_rule :
      Resolver → Signal → Values → Parsed → Bool → Resolver × Option ExporterConfig
  unfolding unfaulted
  tls_rule r sig v p true =
      unfaulted (file_rule r sig (v.certificate ∷ v.client_certificate ∷ v.client_key ∷ []))
        (record p.config { plaintext = true })
  tls_rule r sig v p false =
      unfaulted (record r { any_tls = true })
        (record p.config {
          plaintext = false;
          skip_verify = p.skip_verify;
          ca_file = v.certificate.raw;
          client_cert_file = v.client_certificate.raw;
          client_key_file = v.client_key.raw;
        })

  unfoldable pub rules : Resolver → Signal → Values → Parsed → Resolver × Option ExporterConfig
  rules r sig v p =
      let (s, plaintext) = protocol_rule p.config.protocol r v p in
      tls_rule (key_rule s v) sig v p plaintext

  -- `resolver.signal`.
  unfoldable pub resolve_signal : Resolver → Lookup → Signal → Resolver × Option ExporterConfig
  unfolding rules
  resolve_signal r lookup sig =
      let v = values lookup sig in
      let (s, p) = parse_values lib (record r { faulted = false }) v in
      if s.faulted then (s, none) else rules s sig v p

  keep : Signal → Option ExporterConfig → Configs → Configs
  keep sig none out = out
  keep sig (some c) out = assign sig c out

  -- The loop of `Resolve` over the signals.
  unfoldable pub resolve_signals : Resolver → Lookup → Configs → List Signal → Resolver × Configs
  unfolding keep
  resolve_signals r lookup out [] = (r, out)
  resolve_signals r lookup out (sig ∷ sigs) =
      let (s, c) = resolve_signal r lookup sig in resolve_signals s lookup (keep sig c out) sigs

  is_true : Option Text → Bool
  is_true none = false
  is_true (some raw) = equal_fold raw (bytes "true")

  -- INSECURE without an upstream of grpc.
  unfoldable pub unused_insecure : Resolver → Lookup → Resolver
  unfolding is_true
  unused_insecure r lookup =
      if not r.any_grpc && is_true (lookup (prefix ++ bytes "INSECURE"))
      then fail lib r (
          rule_error (
            (prefix ++ bytes "INSECURE")
            ++ bytes "=true, but no upstream uses grpc, the only protocol it applies to"))
      else r

  report_file : Resolver → Setting → Option Text → Resolver
  report_file r s none = r
  report_file r s (some raw) =
      fail lib r (rule_error (base_name s ++ bytes " is set, but every upstream is plaintext"))

  unused_files_of : Resolver → Lookup → List Setting → Resolver
  unfolding report_file
  unused_files_of r lookup [] = r
  unused_files_of r lookup (s ∷ ss) =
      if s.tls_file
      then unused_files_of (report_file r s (nonempty (lookup (base_name s)))) lookup ss
      else unused_files_of r lookup ss

  -- TLS files without an upstream of TLS.
  unfoldable pub unused_files : Resolver → Lookup → Resolver
  unfolding unused_files_of
  unused_files r lookup = if r.any_tls then r else unused_files_of r lookup settings

  -- The rules across the signals, which need every one of them resolved.
  unfoldable pub across : Resolver → Lookup → Bool → Resolver
  unfolding unused_insecure unused_files
  across r lookup all = if all then unused_files (unused_insecure r lookup) lookup else r

  pub joined : List Fault → Configs → Configs × List Fault
  joined [] out = (out, [])
  joined (e ∷ errs) out = ([], e ∷ errs)

  -- `Resolve`: the configurations, and the errors that are joined.
  unfoldable pub resolve : Lookup → List Signal → Configs × List Fault
  unfolding joined
  resolve lookup sigs =
      let (r, out) = resolve_signals new_resolver lookup [] sigs in
      joined (across r lookup (eqb (length out) (length sigs))).errs out
