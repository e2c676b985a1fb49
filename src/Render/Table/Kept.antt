-- ===== src/Render/Table/Kept.antt =====
-- internal/render/env.go: a group's variables set the fields of the group, and no others.
use otlp_collector_oidc.Prelude.{◌≡◌, refl, Text, Bool, All, arith}
use otlp_collector_oidc.Prelude.Result.{Result, ok, err, ◌>>=◌}
use otlp_collector_oidc.Render.Load.Held.{Sets, Keeps}
use otlp_collector_oidc.Render.Settings.{
  Settings, IdentitySettings, ListenerSettings, BoundsSettings, MetricSettings, ResourceSettings,
  SelfSettings, LogSettings, OwnSettings,
}
use otlp_collector_oidc.Render.Table.{
  Packages, parse_field, variable, identity_variables, listener_variables, bounds_variables,
  metrics_variables, resources_variables, self_variables, logs_variables, own_variables,
}

module _ {A : Type 0} {S : Type 0} (P : S → Type 0) where
  parse_field-ok :
      (res : Result A) (put : A → S → S) (set : S → S) (s : S)
      → (res >>= λ v. ok (put v)) ≡ ok set
      → (v : A) × (res ≡ ok v) × (P (put v s) → P (set s))
  parse_field-ok (err e) put set s h = absurd cc
  parse_field-ok (ok v) put set s h =
      let same : put v ≡ set = ground arith in (v, refl, λ x. rw (← same) x)

  pub variable-Keeps :
      (name : Text) (required : Bool) (def : Text) (read : Text → Result A) (put : A → S → S)
      → ((v : A) (s : S) → P s → P (put v s))
      → Keeps P (variable name required def read put)
  unfolding variable parse_field
  variable-Keeps name required def read put k raw set s h p =
      let (v, _, back) = parse_field-ok (read raw) put set s h in back (k v s p)

  pub variable-Sets :
      (name : Text) (required : Bool) (def : Text) (read : Text → Result A) (put : A → S → S)
      → ((raw : Text) (v : A) (s : S) → read raw ≡ ok v → P (put v s))
      → Sets P (variable name required def read put)
  unfolding variable parse_field
  variable-Sets name required def read put k raw set s h =
      let (v, e, back) = parse_field-ok (read raw) put set s h in back (k raw v s e)

module _ (p : Packages) (P : Settings → Type 0) where
  pub identity-Keeps :
      ((v : IdentitySettings) (s : Settings) → P s → P (record s { identity = v }))
      → All (Keeps P) (identity_variables p)
  unfolding identity_variables
  identity-Keeps k = (
    variable-Keeps P _ _ _ _ _ (λ v s h. k _ s h),
    (
      variable-Keeps P _ _ _ _ _ (λ v s h. k _ s h),
      (
        variable-Keeps P _ _ _ _ _ (λ v s h. k _ s h),
        (
          variable-Keeps P _ _ _ _ _ (λ v s h. k _ s h),
          (
            variable-Keeps P _ _ _ _ _ (λ v s h. k _ s h),
            (
              variable-Keeps P _ _ _ _ _ (λ v s h. k _ s h),
              (
                variable-Keeps P _ _ _ _ _ (λ v s h. k _ s h),
                (
                  variable-Keeps P _ _ _ _ _ (λ v s h. k _ s h),
                  (
                    variable-Keeps P _ _ _ _ _ (λ v s h. k _ s h),
                    (variable-Keeps P _ _ _ _ _ (λ v s h. k _ s h), tt),
                  ),
                ),
              ),
            ),
          ),
        ),
      ),
    ),
  )

  pub listener-Keeps :
      ((v : ListenerSettings) (s : Settings) → P s → P (record s { listener = v }))
      → All (Keeps P) (listener_variables p)
  unfolding listener_variables
  listener-Keeps k = (
    variable-Keeps P _ _ _ _ _ (λ v s h. k _ s h),
    (
      variable-Keeps P _ _ _ _ _ (λ v s h. k _ s h),
      (
        variable-Keeps P _ _ _ _ _ (λ v s h. k _ s h),
        (
          variable-Keeps P _ _ _ _ _ (λ v s h. k _ s h),
          (
            variable-Keeps P _ _ _ _ _ (λ v s h. k _ s h),
            (variable-Keeps P _ _ _ _ _ (λ v s h. k _ s h), tt),
          ),
        ),
      ),
    ),
  )

  pub bounds-Keeps :
      ((v : BoundsSettings) (s : Settings) → P s → P (record s { bounds = v }))
      → All (Keeps P) (bounds_variables p)
  unfolding bounds_variables
  bounds-Keeps k = (
    variable-Keeps P _ _ _ _ _ (λ v s h. k _ s h),
    (
      variable-Keeps P _ _ _ _ _ (λ v s h. k _ s h),
      (variable-Keeps P _ _ _ _ _ (λ v s h. k _ s h), tt),
    ),
  )

  pub metrics-Keeps :
      ((v : MetricSettings) (s : Settings) → P s → P (record s { metrics = v }))
      → All (Keeps P) (metrics_variables p)
  unfolding metrics_variables
  metrics-Keeps k = (
    variable-Keeps P _ _ _ _ _ (λ v s h. k _ s h),
    (
      variable-Keeps P _ _ _ _ _ (λ v s h. k _ s h),
      (
        variable-Keeps P _ _ _ _ _ (λ v s h. k _ s h),
        (variable-Keeps P _ _ _ _ _ (λ v s h. k _ s h), tt),
      ),
    ),
  )

  pub resources-Keeps :
      ((v : ResourceSettings) (s : Settings) → P s → P (record s { resources = v }))
      → All (Keeps P) (resources_variables p)
  unfolding resources_variables
  resources-Keeps k = (
    variable-Keeps P _ _ _ _ _ (λ v s h. k _ s h),
    (
      variable-Keeps P _ _ _ _ _ (λ v s h. k _ s h),
      (variable-Keeps P _ _ _ _ _ (λ v s h. k _ s h), tt),
    ),
  )

  pub self-Keeps :
      ((v : SelfSettings) (s : Settings) → P s → P (record s { self = v }))
      → All (Keeps P) (self_variables p)
  unfolding self_variables
  self-Keeps k = (
    variable-Keeps P _ _ _ _ _ (λ v s h. k _ s h),
    (variable-Keeps P _ _ _ _ _ (λ v s h. k _ s h), tt),
  )

  pub logs-Keeps :
      ((v : LogSettings) (s : Settings) → P s → P (record s { logs = v }))
      → All (Keeps P) (logs_variables p)
  unfolding logs_variables
  logs-Keeps k = (
    variable-Keeps P _ _ _ _ _ (λ v s h. k _ s h),
    (variable-Keeps P _ _ _ _ _ (λ v s h. k _ s h), tt),
  )

  pub own-Keeps :
      ((v : OwnSettings) (s : Settings) → P s → P (record s { own = v }))
      → All (Keeps P) (own_variables p)
  unfolding own_variables
  own-Keeps k = (
    variable-Keeps P _ _ _ _ _ (λ v s h. k _ s h),
    (
      variable-Keeps P _ _ _ _ _ (λ v s h. k _ s h),
      (variable-Keeps P _ _ _ _ _ (λ v s h. k _ s h), tt),
    ),
  )
