-- ===== src/Upstream/Resolve/Signals/Complete.antt =====
-- internal/upstream/resolve.go: every signal resolves, or the faults are reported.
use otlp_collector_oidc.Prelude.{
  List, [], ◌∷◌, some, if◌then◌else◌, Bool, true, false, ◌≡◌, ◌≢◌, refl, inl, inr, arith,
  Bool-cases, Option-cases, sym, ap, subst, ◌∙◌, All, eqb, length,
}
use otlp_collector_oidc.Upstream.Enums.{Signal, signal_traces, signal_logs, signal_metrics}
use otlp_collector_oidc.Upstream.Variables.{Fault}
use otlp_collector_oidc.Upstream.Exporter.{ExporterConfig}
use otlp_collector_oidc.Upstream.Resolve.{
  Lookup, Resolver, new_resolver, Library, Parsed, Values, values, parse_values,
}
use otlp_collector_oidc.Upstream.Resolve.Signals.{
  tls_rule, rules, unfaulted, resolve_signal, resolve_signals, resolve, joined, keep, config_of,
  assign, same_signal, Configs,
}
use otlp_collector_oidc.Upstream.Resolve.Signals.Reports.{resolve_signal-Reaches, across-Reaches}
use otlp_collector_oidc.Upstream.Resolve.Signals.Once.{
  IsOrderly, Reaches-IsOrderly, Reaches-nil, start-IsOrderly, new_resolver-IsOrderly,
  resolve_signals-IsOrderly,
}
use otlp_collector_oidc.Upstream.Resolve.Signals.Usable.{IsUsable, resolve_signal-IsUsable}

pub same_signal-eq : (a b : Signal) → same_signal a b ≡ true → a ≡ b
same_signal-eq signal_traces signal_traces h = refl
same_signal-eq signal_logs signal_logs h = refl
same_signal-eq signal_metrics signal_metrics h = refl
same_signal-eq signal_traces signal_logs h = cc
same_signal-eq signal_traces signal_metrics h = cc
same_signal-eq signal_logs signal_traces h = cc
same_signal-eq signal_logs signal_metrics h = cc
same_signal-eq signal_metrics signal_traces h = cc
same_signal-eq signal_metrics signal_logs h = cc

pub same_signal_refl : (a : Signal) → same_signal a a ≡ true
same_signal_refl signal_traces = refl
same_signal_refl signal_logs = refl
same_signal_refl signal_metrics = refl

config_of-assign :
    (sig other : Signal) (c : ExporterConfig) (out : Configs)
    → config_of other (assign sig c out)
      ≡ (if same_signal sig other then some c else config_of other out)
unfolding config_of assign
config_of-assign sig other c [] = refl
config_of-assign sig other c ((s, d) ∷ out) = elim (Bool-cases (same_signal s sig)) [
  | inl e ↦ rw e (
      rw (same_signal-eq s sig e)
        (elim (Bool-cases (same_signal sig other)) [ inl f ↦ rw f | inr f ↦ rw f ]))
  | inr e ↦ rw e (elim (Bool-cases (same_signal s other)) [
    | inr f ↦ rw f (config_of-assign sig other c out)
    | inl f ↦ elim (Bool-cases (same_signal sig other)) [
      | inr g ↦ rw (f, g)
      | inl g ↦
          let same : s ≡ sig = same_signal-eq s other f ∙ sym (same_signal-eq sig other g) in
          absurd (ground (arith, e, same_signal_refl s, ap (same_signal s) same))
    ]
  ])
]

module _ (lib : Library) where
  unfaulted-made :
      (r : Resolver) (c : ExporterConfig)
      → (unfaulted lib r c).0.faulted ≡ false
      → (d : ExporterConfig) × ((unfaulted lib r c).1 ≡ some d)
  unfolding unfaulted
  unfaulted-made r c h = elim (Bool-cases r.faulted) [
    | inl off ↦ absurd (ground (arith, off, rw off at h))
    | inr fine ↦ (c, rw fine)
  ]

  tls_rule-made :
      (r : Resolver) (sig : Signal) (v : Values) (p : Parsed) (b : Bool)
      → (tls_rule lib r sig v p b).0.faulted ≡ false
      → (d : ExporterConfig) × ((tls_rule lib r sig v p b).1 ≡ some d)
  unfolding tls_rule
  tls_rule-made r sig v p true h = unfaulted-made _ _ h
  tls_rule-made r sig v p false h = unfaulted-made _ _ h

  resolve_signal-made :
      (r : Resolver) (lookup : Lookup) (sig : Signal)
      → (resolve_signal lib r lookup sig).0.faulted ≡ false
      → (d : ExporterConfig) × ((resolve_signal lib r lookup sig).1 ≡ some d)
  unfolding resolve_signal rules
  resolve_signal-made r lookup sig h =
      let v = values lookup sig in
      let (s, p) = parse_values lib (record r { faulted = false }) v in
      elim (Bool-cases s.faulted) [
        | inl off ↦ absurd (ground (arith, off, rw off at h))
        | inr fine ↦ rw fine (tls_rule-made _ sig v p _ (rw fine at h))
      ]

  -- The configuration that a signal has in the result.
  abbrev pub IsConfigured : Lookup → Configs → Signal → Type 0
  IsConfigured lookup out sig =
      (c : ExporterConfig) × (config_of sig out ≡ some c) × IsUsable lib (values lookup sig) c

  assign-IsConfigured :
      (lookup : Lookup) (sig : Signal) (c : ExporterConfig) (out : Configs)
      → IsUsable lib (values lookup sig) c
      → IsConfigured lookup (assign sig c out) sig
  assign-IsConfigured lookup sig c out good =
      (c, rw (config_of-assign sig sig c out, same_signal_refl sig) refl, good)

  keep-IsConfigured :
      (lookup : Lookup) (r : Resolver) (sig other : Signal) (out : Configs)
      → IsConfigured lookup out other
      → IsConfigured lookup (keep lib sig (resolve_signal lib r lookup sig).1 out) other
  unfolding keep
  keep-IsConfigured lookup r sig other out (d, found, good) =
      elim (Option-cases (resolve_signal lib r lookup sig).1) [
        | inl e ↦ rw e (d, found, good)
        | inr (c, e) ↦ elim (Bool-cases (same_signal sig other)) [
          | inl f ↦ rw e (
              subst (IsConfigured lookup (assign sig c out)) (same_signal-eq sig other f) (
                assign-IsConfigured lookup sig c out
                  (resolve_signal-IsUsable lib r lookup sig c e)))
          | inr f ↦ rw e (d, rw (config_of-assign sig other c out, f) found, good)
        ]
      ]

  made-IsConfigured :
      (lookup : Lookup) (r : Resolver) (sig : Signal) (out : Configs)
      → (resolve_signal lib r lookup sig).0.faulted ≡ false
      → IsConfigured lookup (keep lib sig (resolve_signal lib r lookup sig).1 out) sig
  unfolding keep
  made-IsConfigured lookup r sig out h =
      let (c, e) = resolve_signal-made r lookup sig h in
      rw e (assign-IsConfigured lookup sig c out (resolve_signal-IsUsable lib r lookup sig c e))

  -- The resolver after a signal that the loop has come to.
  signal-IsOrderly :
      (r : Resolver) (lookup : Lookup) (sig : Signal)
      → IsOrderly lib r
      → IsOrderly lib (resolve_signal lib r lookup sig).0
  signal-IsOrderly r lookup sig inv =
      Reaches-IsOrderly lib (resolve_signal-Reaches lib r lookup sig) (start-IsOrderly lib r inv)

  resolve_signals-nil :
      (sigs : List Signal) (r : Resolver) (lookup : Lookup) (out : Configs)
      → IsOrderly lib r
      → (resolve_signals lib r lookup out sigs).0.errs ≡ []
      → r.errs ≡ []
  unfolding resolve_signals
  resolve_signals-nil [] r lookup out inv h = h
  resolve_signals-nil (sig ∷ sigs) r lookup out inv h =
      (Reaches-nil lib (resolve_signal-Reaches lib r lookup sig) (start-IsOrderly lib r inv) (
        resolve_signals-nil sigs (resolve_signal lib r lookup sig).0 lookup _
          (signal-IsOrderly r lookup sig inv) h)).0

  resolve_signals-keep :
      (sigs : List Signal) (r : Resolver) (lookup : Lookup) (other : Signal) (out : Configs)
      → IsConfigured lookup out other
      → IsConfigured lookup (resolve_signals lib r lookup out sigs).1 other
  unfolding resolve_signals
  resolve_signals-keep [] r lookup other out good = good
  resolve_signals-keep (sig ∷ sigs) r lookup other out good =
      resolve_signals-keep sigs (resolve_signal lib r lookup sig).0 lookup other
        (keep lib sig (resolve_signal lib r lookup sig).1 out)
        (keep-IsConfigured lookup r sig other out good)

  resolve_signals-all :
      (sigs : List Signal) (r : Resolver) (lookup : Lookup) (out : Configs)
      → IsOrderly lib r
      → (resolve_signals lib r lookup out sigs).0.errs ≡ []
      → All (IsConfigured lookup (resolve_signals lib r lookup out sigs).1) sigs
  unfolding resolve_signals
  resolve_signals-all [] r lookup out inv h = tt
  resolve_signals-all (sig ∷ sigs) r lookup out inv h =
      let s = (resolve_signal lib r lookup sig).0 in
      let kept = keep lib sig (resolve_signal lib r lookup sig).1 out in
      let orderly = signal-IsOrderly r lookup sig inv in
      let none_yet = resolve_signals-nil sigs s lookup kept orderly h in
      (
        resolve_signals-keep sigs s lookup sig kept (
            made-IsConfigured lookup r sig out (elim (Bool-cases s.faulted) [
              | inl f ↦ absurd (orderly.reported f none_yet)
              | inr f ↦ f
            ])),
        resolve_signals-all sigs s lookup kept orderly h,
      )

  -- What a resolution returns.
  pub data Outcome (lookup : Lookup) (sigs : List Signal) (out : Configs × List Fault)
      : Type 0 where
    resolved : out.1 ≡ [] → All (IsConfigured lookup out.0) sigs → Outcome lookup sigs out
    refused : out.1 ≢ [] → out.0 ≡ [] → Outcome lookup sigs out

  joined-Outcome :
      (errs : List Fault) (lookup : Lookup) (sigs : List Signal) (out : Configs)
      → (errs ≡ [] → All (IsConfigured lookup out) sigs)
      → Outcome lookup sigs (joined lib errs out)
  unfolding joined
  joined-Outcome [] lookup sigs out h = resolved refl (h refl)
  joined-Outcome (e ∷ errs) lookup sigs out h = refused (λ q. cc) refl

  -- Either there is no error and each of the signals has a configuration that can be used, or there
  -- is one and there are no configurations at all.
  pub resolve-IsOutcome :
      (lookup : Lookup) (sigs : List Signal) → Outcome lookup sigs (resolve lib lookup sigs)
  unfolding resolve
  resolve-IsOutcome lookup sigs =
      let (r, out) = resolve_signals lib new_resolver lookup [] sigs in
      let inv =
        resolve_signals-IsOrderly lib sigs new_resolver lookup [] (new_resolver-IsOrderly lib) in
      joined-Outcome _ lookup sigs out (λ h.
        resolve_signals-all sigs new_resolver lookup [] (new_resolver-IsOrderly lib)
          (Reaches-nil lib (across-Reaches lib r lookup (eqb (length out) (length sigs))) inv h).0)
