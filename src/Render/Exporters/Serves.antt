-- ===== src/Render/Exporters/Serves.antt =====
-- internal/render/upstream.go: each signal's exporter has the signal's configuration, under an id of
-- its own.
use otlp_collector_oidc.Prelude.{
  map, ap, subst, ◌==◌, bytes, ℕ, List, [], ◌∷◌, ◌++◌, length, Option, none, some, if◌then◌else◌,
  false, ◌||◌, ◌≡◌, ◌≢◌, refl, inl, inr, sym, ◌∙◌, arith, Bool-cases, All,
}
use otlp_collector_oidc.Prelude.Result.{ok}
use otlp_collector_oidc.Prelude.Ordered.Laws.{IsDistinct}
use otlp_collector_oidc.Upstream.Enums.{
  signal_string, parse_signal, find_signal, Signal, signal_traces, signal_logs, signal_metrics,
  signals, unset,
}
use otlp_collector_oidc.Render.Exporters.{
  exporter_for, parsed_signal, id_result, id_of, same_config, Groups, add_signal, add_found,
  group_signals, made, add_exporter, make_exporters, all_exporters, contains_signal, find_exporter,
  exporter_of, Exporter, resolve_settings,
}
use otlp_collector_oidc.Render.Exporters.Ids.{
  type_text, component_type_known, ids, ids-IsDistinct, length_three,
}
use otlp_collector_oidc.Upstream.Exporter.{ExporterConfig}
use otlp_collector_oidc.Upstream.Variables.{Fault}
use otlp_collector_oidc.Upstream.Resolve.{Lookup, Library}
use otlp_collector_oidc.Upstream.Resolve.Signals.{Configs, config_of, same_signal, resolve}
use otlp_collector_oidc.Upstream.Resolve.Signals.Complete.{
  same_signal_refl, Outcome, resolved, refused, resolve-IsOutcome, IsConfigured,
}
use otlp_collector_oidc.Render.Exporters.Equal.{same_config-eq}

-- The configuration of the first group that has the signal.
abbrev served_by : Signal → Groups → Option ExporterConfig
served_by sig [] = none
served_by sig ((c, sigs) ∷ groups) =
    if contains_signal sigs sig then some c else served_by sig groups

contains_signal-concat :
    (sigs : List Signal) (s other : Signal)
    → contains_signal (sigs ++ s ∷ []) other ≡ (contains_signal sigs other || same_signal s other)
unfolding contains_signal
contains_signal-concat [] s other = ground arith
contains_signal-concat (t ∷ sigs) s other = ground (arith, contains_signal-concat sigs s other)

served_by_other :
    (groups : Groups) (cfg : ExporterConfig) (sig other : Signal)
    → same_signal sig other ≡ false
    → served_by other (add_signal cfg sig groups) ≡ served_by other groups
unfolding add_signal contains_signal
served_by_other [] cfg sig other h = rw h refl
served_by_other ((d, sigs) ∷ groups) cfg sig other h = elim (Bool-cases (same_config d cfg)) [
  | inl e ↦ rw e (ground (arith, h, contains_signal-concat sigs sig other))
  | inr e ↦ rw e (ground (arith, served_by_other groups cfg sig other h))
]

served_by_new :
    (groups : Groups) (cfg : ExporterConfig) (sig : Signal)
    → served_by sig groups ≡ none
    → served_by sig (add_signal cfg sig groups) ≡ some cfg
unfolding add_signal contains_signal
served_by_new [] cfg sig h = rw (same_signal_refl sig) refl
served_by_new ((d, sigs) ∷ groups) cfg sig h = elim (Bool-cases (contains_signal sigs sig)) [
  | inl e ↦ absurd (ground (arith, rw e at h))
  | inr f ↦ elim (Bool-cases (same_config d cfg)) [
    | inl e ↦
        rw (e, contains_signal-concat sigs sig sig, same_signal_refl sig, f)
          (ap some (same_config-eq d cfg e))
    | inr e ↦ rw (e, f) (served_by_new groups cfg sig (rw f at h))
  ]
]

-- The groups' protocols are known.
abbrev Known : Groups → Type 0
Known groups = All (λ g. g.0.protocol ≢ unset) groups

add_signal-Known :
    (groups : Groups) (cfg : ExporterConfig) (sig : Signal)
    → cfg.protocol ≢ unset
    → Known groups
    → Known (add_signal cfg sig groups)
unfolding add_signal
add_signal-Known [] cfg sig ne h = (ne, tt)
add_signal-Known ((d, sigs) ∷ groups) cfg sig ne (hd, h) = elim (Bool-cases (same_config d cfg)) [
  | inl e ↦ rw e (hd, h)
  | inr e ↦ rw e (hd, add_signal-Known groups cfg sig ne h)
]

config_in : Option Exporter → Option ExporterConfig
config_in none = none
config_in (some e) = some e.config

make_exporters-served :
    (total : ℕ) (groups : Groups)
    → Known groups
    → (es : List Exporter) × (make_exporters total groups ≡ some es)
      × (map (λ e. e.id) es ≡ ids total groups)
      × ((sig : Signal) → served_by sig groups ≡ config_in (find_exporter sig es))
unfolding make_exporters made add_exporter exporter_of find_exporter config_in ids
make_exporters-served total [] h = ([], refl, refl, λ sig. refl)
make_exporters-served total ((c, sigs) ∷ groups) (hc, h) =
    let type = type_text c.protocol in
    let (es, made_es, named, found) = make_exporters-served total groups h in
    (
      exporter_of total c sigs type ∷ es,
      rw (component_type_known c.protocol hc, made_es) refl,
      ap (λ rest. id_of total type sigs ∷ rest) named,
      λ sig. elim (Bool-cases (contains_signal sigs sig)) [
        | inl e ↦ rw e refl
        | inr e ↦ rw e (found sig)
      ],
    )

-- The exporter whose id a signal's pipeline uses sends what the signal's configuration says.
abbrev pub IsServed : Configs → List Exporter → Signal → Type 0
IsServed configs es sig =
    (e : Exporter) × (find_exporter sig es ≡ some e)
    × (exporter_for es (signal_string sig) ≡ ok e.id)
    × (config_of sig configs ≡ some e.config)

exporter_for-id :
    (es : List Exporter) (sig : Signal) (e : Exporter)
    → find_exporter sig es ≡ some e
    → exporter_for es (signal_string sig) ≡ ok e.id
unfolding exporter_for parsed_signal id_result parse_signal find_signal signals signal_string bytes
    ◌==◌
exporter_for-id es signal_traces e h = rw h refl
exporter_for-id es signal_logs e h = rw h refl
exporter_for-id es signal_metrics e h = rw h refl

config_in-some :
    (o : Option Exporter) (c : ExporterConfig)
    → some c ≡ config_in o
    → (e : Exporter) × (o ≡ some e) × (e.config ≡ c)
unfolding config_in
config_in-some none c h = cc
config_in-some (some e) c h = (e, refl, ground arith)

found-IsServed :
    (configs : Configs) (es : List Exporter) (sig : Signal) (c : ExporterConfig)
    → config_of sig configs ≡ some c
    → some c ≡ config_in (find_exporter sig es)
    → IsServed configs es sig
found-IsServed configs es sig c h k =
    let (e, found, same) = config_in-some (find_exporter sig es) c k in
    (e, found, exporter_for-id es sig e found, rw same h)

configs-IsServed :
    (lib : Library) (lookup : Lookup) (configs : Configs)
    → All (IsConfigured lib lookup configs) signals
    → (es : List Exporter) × (all_exporters configs ≡ some es)
      × All (IsServed configs es) signals
      × IsDistinct (map (λ e. e.id) es)
unfolding all_exporters group_signals add_found signals
configs-IsServed lib lookup configs ((c1, k1, u1), ((c2, k2, u2), ((c3, k3, u3), _))) =
    let g1 = add_signal c1 signal_traces [] in
    let g2 = add_signal c2 signal_logs g1 in
    let g3 = add_signal c3 signal_metrics g2 in
    let s1 : served_by signal_traces g1 ≡ some c1 = served_by_new [] c1 signal_traces refl in
    let n2 : served_by signal_logs g1 ≡ none =
      served_by_other [] c1 signal_traces signal_logs refl in
    let s2 : served_by signal_logs g2 ≡ some c2 = served_by_new g1 c2 signal_logs n2 in
    let m2 : served_by signal_metrics g1 ≡ none =
      served_by_other [] c1 signal_traces signal_metrics refl in
    let n3 : served_by signal_metrics g2 ≡ none =
      served_by_other g1 c2 signal_logs signal_metrics refl ∙ m2 in
    let s3 : served_by signal_metrics g3 ≡ some c3 = served_by_new g2 c3 signal_metrics n3 in
    let t1 : served_by signal_traces g3 ≡ some c1 =
      served_by_other g2 c3 signal_metrics signal_traces refl
      ∙ (served_by_other g1 c2 signal_logs signal_traces refl ∙ s1) in
    let t2 : served_by signal_logs g3 ≡ some c2 =
      served_by_other g2 c3 signal_metrics signal_logs refl ∙ s2 in
    let known1 = add_signal-Known [] c1 signal_traces u1.protocol tt in
    let known2 = add_signal-Known g1 c2 signal_logs u2.protocol known1 in
    let known3 = add_signal-Known g2 c3 signal_metrics u3.protocol known2 in
    let (es, made_es, named, found) = make_exporters-served (length configs) g3 known3 in
    (
      es,
      rw (k1, k2, k3) made_es,
      (
        found-IsServed configs es signal_traces c1 k1 (sym t1 ∙ found signal_traces),
        (
          found-IsServed configs es signal_logs c2 k2 (sym t2 ∙ found signal_logs),
          (found-IsServed configs es signal_metrics c3 k3 (sym s3 ∙ found signal_metrics), tt),
        ),
      ),
      subst IsDistinct (sym named) (
          ids-IsDistinct (length configs) (length_three configs c1 c2 c3 k1 k2 k3) c1 c2 c3
            u1.protocol u2.protocol u3.protocol),
    )

outcome-IsServed :
    (lib : Library) (lookup : Lookup) (out : Configs × List Fault)
    → out.1 ≡ []
    → Outcome lib lookup signals out
    → (es : List Exporter) × (all_exporters out.0 ≡ some es)
      × All (IsServed out.0 es) signals
      × IsDistinct (map (λ e. e.id) es)
outcome-IsServed lib lookup out h (resolved _ all) = configs-IsServed lib lookup out.0 all
outcome-IsServed lib lookup out h (refused ne _) = absurd (ne h)

-- Where the environment resolves without an error, making the exporters does not panic, no two of
-- them have one id, and the one whose id each signal's pipeline is given has that signal's
-- configuration.
pub all_exporters-IsServed :
    (lib : Library) (lookup : Lookup)
    → (resolve_settings lib lookup).1 ≡ []
    → (es : List Exporter) × (all_exporters (resolve_settings lib lookup).0 ≡ some es)
      × All (IsServed (resolve_settings lib lookup).0 es) signals
      × IsDistinct (map (λ e. e.id) es)
unfolding resolve_settings
all_exporters-IsServed lib lookup h =
    outcome-IsServed lib lookup (resolve lib lookup signals) h
      (resolve-IsOutcome lib lookup signals)
