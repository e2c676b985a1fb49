-- ===== src/Render/Exporters/Ids.antt =====
-- internal/render/upstream.go: the ids of the exporters.
use otlp_collector_oidc.Prelude.{
  ℕ, ◌+◌, Text, bytes, ◌==◌, ==_symm, List, [], ◌∷◌, ◌++◌, map, length, Option, none, some, false,
  true, ltb, contains, join, ◌≡◌, ◌≢◌, ◌≤◌, refl, inl, inr, arith, Bool-cases,
}
use otlp_collector_oidc.Prelude.Ordered.Laws.{IsDistinct}
use otlp_collector_oidc.Upstream.Enums.{
  Signal, signal_traces, signal_logs, signal_metrics, signal_string, Protocol, unset, grpc,
  http_protobuf,
}
use otlp_collector_oidc.Upstream.Exporter.{ExporterConfig}
use otlp_collector_oidc.Upstream.Resolve.Signals.{Configs, config_of}
use otlp_collector_oidc.Render.Exporters.{same_config, Groups, add_signal, component_type, id_of}

-- The type of a protocol's exporter.
abbrev pub type_text : Protocol → Text
type_text unset = []
type_text grpc = bytes "otlp_grpc"
type_text http_protobuf = bytes "otlp_http"

pub component_type_known : (p : Protocol) → p ≢ unset → component_type p ≡ some (type_text p)
unfolding component_type
component_type_known unset h = absurd (h refl)
component_type_known grpc h = refl
component_type_known http_protobuf h = refl

-- The ids of the groups' exporters.
unfoldable pub ids : ℕ → Groups → List Text
ids total [] = []
ids total ((c, sigs) ∷ groups) = id_of total (type_text c.protocol) sigs ∷ ids total groups

types_differ :
    (p q : Protocol) (a b : Text)
    → p ≢ unset
    → q ≢ unset
    → (a == b) ≡ false
    → ((type_text p ++ b'/' ∷ a) == (type_text q ++ b'/' ∷ b)) ≡ false
unfolding bytes ◌==◌
types_differ unset q a b h k n = absurd (h refl)
types_differ p unset a b h k n = absurd (k refl)
types_differ grpc grpc a b h k n = n
types_differ grpc http_protobuf a b h k n = refl
types_differ http_protobuf grpc a b h k n = refl
types_differ http_protobuf http_protobuf a b h k n = n

two : (a b : Text) → (a == b) ≡ false → IsDistinct (a ∷ b ∷ [])
unfolding contains
two a b h = (ground (arith, ==_symm a b), (refl, tt))

three :
    (a b c : Text)
    → (a == b) ≡ false
    → (a == c) ≡ false
    → (b == c) ≡ false
    → IsDistinct (a ∷ b ∷ c ∷ [])
unfolding contains
three a b c h k l = (ground (arith, ==_symm a b, ==_symm a c), two b c l)

-- The names of signals that an exporter's id has, where it does not serve them all.
abbrev names : List Signal → Text
names sigs = join (map signal_string sigs) (b'_' ∷ [])

module _ (total : ℕ) (all : 3 ≤ total) where
  few : (ltb 1 total ≡ true) × (ltb 2 total ≡ true)
  few = (ground arith, ground arith)

  ids_differ :
      (c e : ExporterConfig) (s t : List Signal)
      → c.protocol ≢ unset
      → e.protocol ≢ unset
      → ltb (length s) total ≡ true
      → ltb (length t) total ≡ true
      → (names s == names t) ≡ false
      → (id_of total (type_text c.protocol) s == id_of total (type_text e.protocol) t) ≡ false
  unfolding id_of
  ids_differ c e s t h k m n d = rw (m, n) (types_differ c.protocol e.protocol _ _ h k d)

  two_ids :
      (c e : ExporterConfig) (s t : List Signal)
      → c.protocol ≢ unset
      → e.protocol ≢ unset
      → ltb (length s) total ≡ true
      → ltb (length t) total ≡ true
      → (names s == names t) ≡ false
      → IsDistinct (ids total ((c, s) ∷ (e, t) ∷ []))
  unfolding ids
  two_ids c e s t h k m n d =
      two (id_of total (type_text c.protocol) s) (id_of total (type_text e.protocol) t)
        (ids_differ c e s t h k m n d)

  pub ids-IsDistinct :
      (c1 c2 c3 : ExporterConfig)
      → c1.protocol ≢ unset
      → c2.protocol ≢ unset
      → c3.protocol ≢ unset
      → IsDistinct (
          ids total (
            add_signal c3 signal_metrics
              (add_signal c2 signal_logs (add_signal c1 signal_traces []))))
  unfolding ids add_signal contains join signal_string bytes ◌==◌
  ids-IsDistinct c1 c2 c3 k1 k2 k3 = elim (Bool-cases (same_config c1 c2)) [
    | inl e ↦ rw e (elim (Bool-cases (same_config c1 c3)) [
      | inl f ↦ rw f (refl, tt)
      | inr f ↦ rw f (
          two_ids c1 c3 (signal_traces ∷ signal_logs ∷ []) (signal_metrics ∷ []) k1 k3 few.1 few.0
            refl)
    ])
    | inr e ↦ rw e (elim (Bool-cases (same_config c1 c3)) [
      | inl f ↦ rw f (
          two_ids c1 c2 (signal_traces ∷ signal_metrics ∷ []) (signal_logs ∷ []) k1 k2 few.1 few.0
            refl)
      | inr f ↦ rw f (elim (Bool-cases (same_config c2 c3)) [
        | inl g ↦ rw g (
            two_ids c1 c2 (signal_traces ∷ []) (signal_logs ∷ signal_metrics ∷ []) k1 k2 few.0 few.1
              refl)
        | inr g ↦ rw g (
            three (id_of total (type_text c1.protocol) (signal_traces ∷ []))
              (id_of total (type_text c2.protocol) (signal_logs ∷ []))
              (id_of total (type_text c3.protocol) (signal_metrics ∷ []))
              (ids_differ c1 c2 (signal_traces ∷ []) (signal_logs ∷ []) k1 k2 few.0 few.0 refl)
              (ids_differ c1 c3 (signal_traces ∷ []) (signal_metrics ∷ []) k1 k3 few.0 few.0 refl)
              (ids_differ c2 c3 (signal_logs ∷ []) (signal_metrics ∷ []) k2 k3 few.0 few.0 refl))
      ])
    ])
  ]

-- How many of the signals are found.
counted : Option ExporterConfig → ℕ
counted none = 0
counted (some c) = 1

found : Configs → ℕ
unfolding counted
found configs =
    counted (config_of signal_traces configs)
    + counted (config_of signal_logs configs)
    + counted (config_of signal_metrics configs)

counted_le : (o : Option ExporterConfig) → counted o ≤ 1
unfolding counted
counted_le none = omega arith
counted_le (some c) = omega arith

found_le : (configs : Configs) → found configs ≤ length configs
unfolding found counted config_of
found_le [] = omega arith
found_le ((signal_traces, c) ∷ out) = omega (arith, found_le out)
found_le ((signal_logs, c) ∷ out) = omega (arith, found_le out)
found_le ((signal_metrics, c) ∷ out) = omega (arith, found_le out)

-- Where the three signals have configurations, there are three configurations at least.
pub length_three :
    (configs : Configs) (c1 c2 c3 : ExporterConfig)
    → config_of signal_traces configs ≡ some c1
    → config_of signal_logs configs ≡ some c2
    → config_of signal_metrics configs ≡ some c3
    → 3 ≤ length configs
unfolding found counted
length_three configs c1 c2 c3 h k l =
    let few_of = found_le configs in
    let three_of = rw (h, k, l) at few_of in omega (arith, three_of)
