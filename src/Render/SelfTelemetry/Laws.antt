-- ===== src/Render/SelfTelemetry/Laws.antt =====
-- What the process says of itself.
use otlp_collector_oidc.Prelude.{
  ◌≡◌, inl, inr, refl, sym, ap, ◌∙◌, Text, bytes, ◌==◌, ==_iff, ==_symm, List, [], ◌∷◌, contains,
  Option, none, some, if◌then◌else◌, Bool, true, false, ◌||◌, Bool-cases,
}
use otlp_collector_oidc.Render.Values.{KeyValue, without}
use otlp_collector_oidc.Render.Values.Pairs.{value_in}
use otlp_collector_oidc.Render.Settings.{Settings}
use otlp_collector_oidc.Render.SelfTelemetry.{service_name, own_resource, service_version_key}

-- What the process says of itself under a key: its name, never a version, and else what the
-- environment says.
abbrev pub own_value : Settings → Text → Option Text
own_value s key =
    if key == bytes "service.name"
    then some (service_name s)
    else if key == bytes "service.version"
    then none
    else value_in key s.own.resource_attributes

if_or_false :
    {A : Type 0} (b : Bool) (x y : A)
    → if◌then◌else◌ {A = A} (b || false) x y ≡ (if b then x else y)
if_or_false true x y = refl
if_or_false false x y = refl

none_either : {A : Type 0} (b : Bool) → none ≡ if◌then◌else◌ {A = Option A} b none none
none_either true = refl
none_either false = refl

value_in-without :
    (attributes : List KeyValue) (keys : List Text) (key : Text)
    → value_in key (without attributes keys)
      ≡ (if contains keys key then none else value_in key attributes)
unfolding without
value_in-without [] keys key = none_either (contains keys key)
value_in-without (kv ∷ attributes) keys key = elim (Bool-cases (kv.key == key)) [
  | inl e ↦
      let same = (==_iff kv.key key).0 e in
      elim (Bool-cases (contains keys kv.key)) [
        | inl f ↦
            let g = ap (contains keys) (sym same) ∙ f in
            rw (e, f, g, without) (value_in-without attributes keys key ∙ rw g)
        | inr f ↦ let g = ap (contains keys) (sym same) ∙ f in rw (e, f, g, without) (rw e)
      ]
  | inr e ↦ elim (Bool-cases (contains keys kv.key)) [
    | inl f ↦ rw (e, f, without) (value_in-without attributes keys key)
    | inr f ↦ rw (e, f, without) (rw e (value_in-without attributes keys key))
  ]
]

-- Under service.name the process is the configured name, it says no service.version of its own, and
-- every other attribute is the environment's.
pub own_resource-values :
    (s : Settings) (key : Text) → value_in key (own_resource s) ≡ own_value s key
unfolding own_resource contains
own_resource-values s key = elim (Bool-cases (key == bytes "service.name")) [
  | inl e ↦ let f = ==_symm (bytes "service.name") key ∙ e in rw (e, f)
  | inr e ↦
      let f = ==_symm (bytes "service.name") key ∙ e in
      rw (e, f)
        (value_in-without s.own.resource_attributes
            (bytes "service.name" ∷ service_version_key ∷ []) key
          ∙ rw (f, ==_symm service_version_key key)
              (if_or_false (key == bytes "service.version") none
                (value_in key s.own.resource_attributes)))
]
