-- ===== src/Upstream/Resolve/Signals/Reports.antt =====
-- internal/upstream/resolve.go: what the resolver reports, as steps from one of its states to another.
use otlp_collector_oidc.Prelude.{
  Text, List, [], ◌∷◌, Option, none, some, if◌then◌else◌, Bool, true, false, not, ◌&&◌, is_empty,
  ◌≡◌, inl, inr, Bool-cases,
}
use otlp_collector_oidc.Prelude.Result.{Result, ok, err}
use otlp_collector_oidc.Upstream.Enums.{Signal, Protocol, unset, grpc, http_protobuf}
use otlp_collector_oidc.Upstream.Variables.{Fault, Setting, settings}
use otlp_collector_oidc.Upstream.Exporter.{ExporterConfig}
use otlp_collector_oidc.Upstream.Resolve.{
  Lookup, Read, Resolver, Library, fail, invalid, accept, Parsed, Values, values, parse_values,
  read_endpoint, given_endpoint,
}
use otlp_collector_oidc.Upstream.Resolve.Signals.{
  protocol_rule, key_rule, file_rule, tls_rule, rules, resolve_signal, unused_insecure,
  unused_files, across, unfaulted, report_file, unused_files_of,
}

-- What the code does to a resolver: it reports faults, and notes what a signal uses.
pub data Reaches (lib : Library) : Resolver → Resolver → Type 0 where
  stays : (r : Resolver) → Reaches lib r r
  reports : (r s : Resolver) (e : Fault) → Reaches lib r s → Reaches lib r (fail lib s e)
  notes :
      (r s : Resolver) (tls web : Bool)
      → Reaches lib r s
      → Reaches lib r (record s { any_tls = tls; any_grpc = web })

module _ (lib : Library) where
  join : {r s t : Resolver} → Reaches lib r s → Reaches lib s t → Reaches lib r t
  join a (stays _) = a
  join a (reports _ u e b) = reports _ u e (join a b)
  join a (notes _ u x y b) = notes _ u x y (join a b)

  one : (r : Resolver) (e : Fault) → Reaches lib r (fail lib r e)
  one r e = reports r r e (stays r)

  -- A test that reports or not.
  either : (b : Bool) (r : Resolver) (e : Fault) → Reaches lib r (if b then fail lib r e else r)
  either true r e = one r e
  either false r e = stays r

  pub accept-Reaches :
      {A : Type 0} (r : Resolver) (v : Read) (z : A) (res : Result A)
      → Reaches lib r (accept lib r v z res).0
  unfolding accept invalid
  accept-Reaches r v z (ok a) = stays r
  accept-Reaches r v z (err e) = one r _

  choice :
      (b : Bool) {r s t : Resolver}
      → Reaches lib r s
      → Reaches lib r t
      → Reaches lib r (if b then s else t)
  choice true x y = x
  choice false x y = y

  given_endpoint-Reaches :
      (r : Resolver) (p : Protocol) (v : Read) → Reaches lib r (given_endpoint lib r p v).0
  unfolding given_endpoint
  given_endpoint-Reaches r unset v = stays r
  given_endpoint-Reaches r grpc v = accept-Reaches r v _ _
  given_endpoint-Reaches r http_protobuf v = accept-Reaches r v _ _

  read_endpoint-Reaches :
      (r : Resolver) (p : Protocol) (v : Read) → Reaches lib r (read_endpoint lib r p v).0
  unfolding read_endpoint
  read_endpoint-Reaches r p v = elim (Bool-cases (is_empty v.raw)) [
    | inl e ↦ rw e (one r _)
    | inr e ↦ rw e (given_endpoint-Reaches r p v)
  ]

  pub parse_values-Reaches : (r : Resolver) (v : Values) → Reaches lib r (parse_values lib r v).0
  unfolding parse_values
  parse_values-Reaches r v =
      join
        (join
          (join
            (join
              (join
                (join
                  (join (join (accept-Reaches _ _ _ _) (read_endpoint-Reaches _ _ _))
                    (accept-Reaches _ _ _ _))
                  (accept-Reaches _ _ _ _))
                (accept-Reaches _ _ _ _))
              (accept-Reaches _ _ _ _))
            (accept-Reaches _ _ _ _))
          (accept-Reaches _ _ _ _))
        (accept-Reaches _ _ _ _)

  protocol_rule-Reaches :
      (q : Protocol) (r : Resolver) (v : Values) (p : Parsed)
      → Reaches lib r (protocol_rule lib q r v p).0
  unfolding protocol_rule
  protocol_rule-Reaches unset r v p = stays r
  protocol_rule-Reaches grpc r v p = notes r r r.any_tls true (stays r)
  protocol_rule-Reaches http_protobuf r v p =
      either (p.force_plaintext && not p.config.plaintext && v.insecure.per_signal) r _

  key_rule-Reaches : (r : Resolver) (v : Values) → Reaches lib r (key_rule lib r v)
  unfolding key_rule
  key_rule-Reaches r v =
      choice (is_empty v.client_certificate.raw)
        (choice (is_empty v.client_key.raw) (stays r) (one r _))
        (choice (is_empty v.client_key.raw) (one r _) (stays r))

  file_rule-Reaches :
      (vs : List Read) (r : Resolver) (sig : Signal) → Reaches lib r (file_rule lib r sig vs)
  unfolding file_rule
  file_rule-Reaches [] r sig = stays r
  file_rule-Reaches (v ∷ vs) r sig =
      choice (not (is_empty v.raw) && v.per_signal) (join (one r _) (file_rule-Reaches vs _ sig))
        (file_rule-Reaches vs r sig)

  unfaulted-same : (r : Resolver) (c : ExporterConfig) → (unfaulted lib r c).0 ≡ r
  unfolding unfaulted
  unfaulted-same r c = elim (Bool-cases r.faulted) [ inl e ↦ rw e | inr e ↦ rw e ]

  tls_rule-Reaches :
      (r : Resolver) (sig : Signal) (v : Values) (p : Parsed) (b : Bool)
      → Reaches lib r (tls_rule lib r sig v p b).0
  unfolding tls_rule
  tls_rule-Reaches r sig v p true = rw (unfaulted-same _ _) (file_rule-Reaches _ r sig)
  tls_rule-Reaches r sig v p false = rw (unfaulted-same _ _) (notes r r true r.any_grpc (stays r))

  pub rules-Reaches :
      (r : Resolver) (sig : Signal) (v : Values) (p : Parsed)
      → Reaches lib r (rules lib r sig v p).0
  unfolding rules
  rules-Reaches r sig v p =
      join (join (protocol_rule-Reaches p.config.protocol r v p) (key_rule-Reaches _ v))
        (tls_rule-Reaches _ sig v p _)

  pub resolve_signal-Reaches :
      (r : Resolver) (lookup : Lookup) (sig : Signal)
      → Reaches lib (record r { faulted = false }) (resolve_signal lib r lookup sig).0
  unfolding resolve_signal
  resolve_signal-Reaches r lookup sig =
      let v = values lookup sig in
      let parsed = parse_values-Reaches (record r { faulted = false }) v in
      let (s, p) = parse_values lib (record r { faulted = false }) v in
      elim (Bool-cases s.faulted) [
        | inl e ↦ rw e parsed
        | inr e ↦ rw e (join parsed (rules-Reaches s sig v p))
      ]

  unused_insecure-Reaches :
      (r : Resolver) (lookup : Lookup) → Reaches lib r (unused_insecure lib r lookup)
  unfolding unused_insecure
  unused_insecure-Reaches r lookup = either _ r _

  report_file-Reaches :
      (r : Resolver) (s : Setting) (raw : Option Text) → Reaches lib r (report_file lib r s raw)
  unfolding report_file
  report_file-Reaches r s none = stays r
  report_file-Reaches r s (some raw) = one r _

  unused_files_of-Reaches :
      (ss : List Setting) (r : Resolver) (lookup : Lookup)
      → Reaches lib r (unused_files_of lib r lookup ss)
  unfolding unused_files_of
  unused_files_of-Reaches [] r lookup = stays r
  unused_files_of-Reaches (s ∷ ss) r lookup =
      choice s.tls_file (join (report_file-Reaches r s _) (unused_files_of-Reaches ss _ lookup))
        (unused_files_of-Reaches ss r lookup)

  pub across-Reaches :
      (r : Resolver) (lookup : Lookup) (all : Bool) → Reaches lib r (across lib r lookup all)
  unfolding across unused_files
  across-Reaches r lookup false = stays r
  across-Reaches r lookup true =
      let s = unused_insecure lib r lookup in
      let noted = unused_insecure-Reaches r lookup in
      choice s.any_tls noted (join noted (unused_files_of-Reaches settings s lookup))
