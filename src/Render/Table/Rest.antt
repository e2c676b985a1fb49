-- ===== src/Render/Table/Rest.antt =====
-- internal/render/env.go: the groups after one keep what does not depend on their fields.
use otlp_collector_oidc.Prelude.{Text, List, [], ◌∷◌, Option, All}
use otlp_collector_oidc.Upstream.Variables.{Url, Fault}
use otlp_collector_oidc.Upstream.Resolve.{Lookup}
use otlp_collector_oidc.Upstream.Resolve.Signals.{Configs}
use otlp_collector_oidc.Render.Exporters.{resolve_settings}
use otlp_collector_oidc.Render.Load.{Group}
use otlp_collector_oidc.Render.Load.Held.{GroupKeeps, plain-Keeps, filled-keeps}
use otlp_collector_oidc.Render.Settings.{
  Settings, ListenerSettings, BoundsSettings, MetricSettings, ResourceSettings, SelfSettings,
  LogSettings, OwnSettings,
}
use otlp_collector_oidc.Render.Table.{
  Packages, listener_variables, bounds_variables, metrics_variables, resources_variables,
  self_variables, logs_variables, own_variables, with_upstream, upstream_group, group,
}
use otlp_collector_oidc.Render.Table.Kept.{
  listener-Keeps, bounds-Keeps, metrics-Keeps, resources-Keeps, self-Keeps, logs-Keeps, own-Keeps,
}

module _ (p : Packages) (parse_url : Text → Option Url) (lookup : Lookup) where
  upstream_state :
      (P : Settings → Type 0) (s : Settings) (r : Configs × List Fault)
      → ((v : Configs) (s : Settings) → P s → P (record s { upstream = v }))
      → P s
      → P (with_upstream p s r).0
  unfolding with_upstream
  upstream_state P s (v, []) k h = k v s h
  upstream_state P s (v, e ∷ errs) k h = h

  pub upstream-Keeps :
      (P : Settings → Type 0)
      → ((v : Configs) (s : Settings) → P s → P (record s { upstream = v }))
      → GroupKeeps P parse_url lookup (upstream_group p)
  unfolding upstream_group
  upstream-Keeps P k =
      filled-keeps P parse_url lookup _ _
        (λ s h. upstream_state P s (resolve_settings p.library lookup) k h)

  -- The last groups, which have no rules.
  unfoldable pub from_self : List (Group Settings)
  unfolding group
  from_self =
      group p (self_variables p) (λ s. [])
      ∷ group p (logs_variables p) (λ s. [])
      ∷ group p (own_variables p) (λ s. [])
      ∷ []

  module _ (P : Settings → Type 0) where
    -- `P` does not depend on the fields of a group, nor of those after it.
    abbrev pub FreeOfSelf : Type 0
    FreeOfSelf =
        ((v : SelfSettings) (s : Settings) → P s → P (record s { self = v }))
        × ((v : LogSettings) (s : Settings) → P s → P (record s { logs = v }))
        × ((v : OwnSettings) (s : Settings) → P s → P (record s { own = v }))

    abbrev pub FreeOfResources : Type 0
    FreeOfResources =
        ((v : ResourceSettings) (s : Settings) → P s → P (record s { resources = v })) × FreeOfSelf

    abbrev pub FreeOfMetrics : Type 0
    FreeOfMetrics =
        ((v : MetricSettings) (s : Settings) → P s → P (record s { metrics = v })) × FreeOfResources

    abbrev pub FreeOfBounds : Type 0
    FreeOfBounds =
        ((v : BoundsSettings) (s : Settings) → P s → P (record s { bounds = v })) × FreeOfMetrics

    abbrev pub FreeOfListener : Type 0
    FreeOfListener =
        ((v : ListenerSettings) (s : Settings) → P s → P (record s { listener = v })) × FreeOfBounds

    -- A rule, over a group's variables.
    abbrev pub Rule : Type 0
    Rule = Settings → List Fault

    pub self-kept : FreeOfSelf → All (GroupKeeps P parse_url lookup) from_self
    unfolding from_self group
    self-kept (k, l, m) = (
      plain-Keeps P parse_url lookup _ _ (self-Keeps p P k),
      (
        plain-Keeps P parse_url lookup _ _ (logs-Keeps p P l),
        (plain-Keeps P parse_url lookup _ _ (own-Keeps p P m), tt),
      ),
    )

    pub resources-kept :
        (a : Rule)
        → FreeOfResources
        → All (GroupKeeps P parse_url lookup) (group p (resources_variables p) a ∷ from_self)
    unfolding group
    resources-kept a (k, ks) =
        (plain-Keeps P parse_url lookup _ _ (resources-Keeps p P k), self-kept ks)

    pub metrics-kept :
        (a b : Rule)
        → FreeOfMetrics
        → All
            (GroupKeeps P parse_url lookup)
            (group p (metrics_variables p) a ∷ group p (resources_variables p) b ∷ from_self)
    unfolding group
    metrics-kept a b (k, ks) =
        (plain-Keeps P parse_url lookup _ _ (metrics-Keeps p P k), resources-kept b ks)

    pub bounds-kept :
        (a b c : Rule)
        → FreeOfBounds
        → All (GroupKeeps P parse_url lookup) (
            group p (bounds_variables p) a
            ∷ group p (metrics_variables p) b
            ∷ group p (resources_variables p) c
            ∷ from_self)
    unfolding group
    bounds-kept a b c (k, ks) =
        (plain-Keeps P parse_url lookup _ _ (bounds-Keeps p P k), metrics-kept b c ks)

    pub listener-kept :
        (a b c d : Rule)
        → FreeOfListener
        → All (GroupKeeps P parse_url lookup) (
            group p (listener_variables p) a
            ∷ group p (bounds_variables p) b
            ∷ group p (metrics_variables p) c
            ∷ group p (resources_variables p) d
            ∷ from_self)
    unfolding group
    listener-kept a b c d (k, ks) =
        (plain-Keeps P parse_url lookup _ _ (listener-Keeps p P k), bounds-kept b c d ks)
