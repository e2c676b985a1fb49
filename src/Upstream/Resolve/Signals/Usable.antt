-- ===== src/Upstream/Resolve/Signals/Usable.antt =====
-- internal/upstream/resolve.go: what a resolved configuration is.
use otlp_collector_oidc.Prelude.{
  ℕ, ◌*◌, ◌≤◌, List, [], some, Bool, true, false, is_empty, ◌≡◌, ◌≢◌, ◌⊎◌, refl, inl, inr, arith,
  Bool-cases, ◌∙◌,
}
use otlp_collector_oidc.Prelude.Int.{pos}
use otlp_collector_oidc.Upstream.Enums.{Signal, Protocol, unset, grpc, http_protobuf}
use otlp_collector_oidc.Upstream.Headers.{Header}
use otlp_collector_oidc.Upstream.Headers.Parsing.{IsHeaderList, parse_headers-IsHeaderList}
use otlp_collector_oidc.Upstream.Variables.{Url}
use otlp_collector_oidc.Upstream.Exporter.{ExporterConfig}
use otlp_collector_oidc.Upstream.Exporter.Bounds.{
  IsEndpoint, set_endpoint-ok, read_timeout-ok, read_queue_size-ok, read_retry-ok, cap, capped-pos,
}
use otlp_collector_oidc.Upstream.Resolve.{
  Lookup, Resolver, Library, Parsed, Values, values, parse_values,
}
use otlp_collector_oidc.Upstream.Resolve.Signals.{
  protocol_rule, key_rule, tls_rule, rules, unfaulted, resolve_signal,
}
use otlp_collector_oidc.Upstream.Resolve.Signals.Parsing.{
  IsParsed, parse_values-IsParsed, still_faulted, parse_protocol_set,
}

-- A time limit and a queue that the exporter takes, and retries that end within their limit.
pub record IsBounded (c : ExporterConfig) : Type 0 where
  pub timeout : (ms : ℕ) × (c.timeout ≡ pos (ms * 1000000)) × (1 ≤ ms) × (ms ≤ 3600000)
  pub queue : (n : ℕ) × (c.queue_size ≡ pos n) × (1 ≤ n)
  pub retry :
      (limit first longest : ℕ) × (c.retry_max_elapsed ≡ pos limit)
      × (c.retry_initial_interval ≡ pos first)
      × (c.retry_max_interval ≡ pos longest)
      × (first ≤ longest)
      × ((limit ≡ 0) ⊎ (longest ≤ limit))

-- Files of TLS only with TLS, and a client's certificate only with its key.
pub record IsSecured (c : ExporterConfig) : Type 0 where
  pub pair : is_empty c.client_cert_file ≡ is_empty c.client_key_file
  pub plain :
      (c.plaintext ≡ false)
      ⊎ (c.skip_verify ≡ false)
        × (c.ca_file ≡ [])
        × (c.client_cert_file ≡ [])
        × (c.client_key_file ≡ [])

-- An exporter can be built of the configuration that the values give.
pub record IsUsable (lib : Library) (v : Values) (c : ExporterConfig) : Type 0 where
  pub protocol : c.protocol ≢ unset
  pub target :
      (u : Url) × (b : Bool) × (lib.parse_url v.endpoint.raw ≡ some u)
      × IsEndpoint c.protocol v.endpoint.raw v.endpoint.per_signal u
          (record { plaintext = b; endpoint = c.endpoint; signal_path = c.signal_path })
      × ((b ≡ false) ⊎ (c.plaintext ≡ true))
  pub headers : (list : List Header) × IsHeaderList c.headers list
  pub bounded : IsBounded c
  pub secured : IsSecured c

module _ (lib : Library) where
  unfaulted-some :
      (r : Resolver) (c d : ExporterConfig)
      → (unfaulted lib r c).1 ≡ some d
      → (r.faulted ≡ false) × (c ≡ d)
  unfolding unfaulted
  unfaulted-some r c d h = elim (Bool-cases r.faulted) [
    | inl off ↦ absurd (ground (arith, rw off at h))
    | inr fine ↦ (fine, ground (arith, rw fine at h))
  ]

  key_rule-pair :
      (r : Resolver) (v : Values)
      → (key_rule lib r v).faulted ≡ false
      → is_empty v.client_certificate.raw ≡ is_empty v.client_key.raw
  unfolding key_rule
  key_rule-pair r v h = elim (Bool-cases (is_empty v.client_certificate.raw)) [
    | inl a ↦ elim (Bool-cases (is_empty v.client_key.raw)) [
      | inl b ↦ ground (arith, a, b)
      | inr b ↦ absurd (still_faulted lib r _ (rw (a, b) at h))
    ]
    | inr a ↦ elim (Bool-cases (is_empty v.client_key.raw)) [
      | inl b ↦ absurd (still_faulted lib r _ (rw (a, b) at h))
      | inr b ↦ ground (arith, a, b)
    ]
  ]

  retries :
      (limit : ℕ)
      → (cap 5000000000 limit ≤ cap 30000000000 limit)
        × ((limit ≡ 0) ⊎ (cap 30000000000 limit ≤ limit))
  retries limit = ground arith

  parsed-IsBounded : (v : Values) (p : Parsed) → IsParsed lib v p → IsBounded p.config
  parsed-IsBounded v p h =
      let (limit, same) = read_retry-ok _ _ _ h.retry in
      let (order, within) = retries limit in
      record {
        timeout = read_timeout-ok _ _ h.timeout;
        queue = read_queue_size-ok _ _ h.queue_size;
        retry = (
          limit,
          cap 5000000000 limit,
          cap 30000000000 limit,
          same,
          h.initial ∙ rw same (capped-pos 5000000000 limit),
          h.interval ∙ rw same (capped-pos 30000000000 limit),
          order,
          within,
        );
      }

  parsed-target :
      (v : Values) (p : Parsed)
      → IsParsed lib v p
      → (u : Url) × (lib.parse_url v.endpoint.raw ≡ some u)
        × IsEndpoint p.config.protocol v.endpoint.raw v.endpoint.per_signal u (record {
          plaintext = p.config.plaintext;
          endpoint = p.config.endpoint;
          signal_path = p.config.signal_path;
        })
  parsed-target v p h =
      set_endpoint-ok lib.parse_url _ _ _ _ (parse_protocol_set _ _ h.protocol) h.endpoint

  protocol_rule-plaintext :
      (q : Protocol) (r : Resolver) (v : Values) (p : Parsed)
      → p.config.plaintext ≡ true
      → (protocol_rule lib q r v p).1 ≡ true
  unfolding protocol_rule
  protocol_rule-plaintext unset r v p h = h
  protocol_rule-plaintext grpc r v p h = rw h
  protocol_rule-plaintext http_protobuf r v p h = h

  tls_rule-IsUsable :
      (r : Resolver) (sig : Signal) (v : Values) (p : Parsed) (b : Bool) (c : ExporterConfig)
      → IsParsed lib v p
      → (p.config.plaintext ≡ true → b ≡ true)
      → (tls_rule lib (key_rule lib r v) sig v p b).1 ≡ some c
      → IsUsable lib v c
  unfolding tls_rule
  tls_rule-IsUsable r sig v p true c h plain e =
      let (fine, same) = unfaulted-some _ _ c e in
      let limits = parsed-IsBounded v p h in
      let (u, parsed, target) = parsed-target v p h in
      rw (← same) (record {
        protocol = parse_protocol_set _ _ h.protocol;
        target = (u, p.config.plaintext, parsed, target, inr refl);
        headers = parse_headers-IsHeaderList _ _ h.headers;
        bounded = record { timeout = limits.timeout; queue = limits.queue; retry = limits.retry };
        secured = record {
          pair = rw (h.no_cert, h.no_key);
          plain = inr (h.no_skip, h.no_ca, h.no_cert, h.no_key);
        };
      })
  tls_rule-IsUsable r sig v p false c h plain e =
      let (fine, same) = unfaulted-some _ _ c e in
      let limits = parsed-IsBounded v p h in
      let (u, parsed, target) = parsed-target v p h in
      rw (← same) (record {
        protocol = parse_protocol_set _ _ h.protocol;
        target = (u, p.config.plaintext, parsed, target, inl (ground (arith, plain)));
        headers = parse_headers-IsHeaderList _ _ h.headers;
        bounded = record { timeout = limits.timeout; queue = limits.queue; retry = limits.retry };
        secured = record { pair = key_rule-pair r v fine; plain = inl refl };
      })

  rules-IsUsable :
      (r : Resolver) (sig : Signal) (v : Values) (p : Parsed) (c : ExporterConfig)
      → IsParsed lib v p
      → (rules lib r sig v p).1 ≡ some c
      → IsUsable lib v c
  unfolding rules
  rules-IsUsable r sig v p c h e =
      tls_rule-IsUsable (protocol_rule lib p.config.protocol r v p).0 sig v p _ c h
        (protocol_rule-plaintext p.config.protocol r v p) e

  -- A signal that is resolved has a configuration that can be used.
  pub resolve_signal-IsUsable :
      (r : Resolver) (lookup : Lookup) (sig : Signal) (c : ExporterConfig)
      → (resolve_signal lib r lookup sig).1 ≡ some c
      → IsUsable lib (values lookup sig) c
  unfolding resolve_signal
  resolve_signal-IsUsable r lookup sig c e =
      let v = values lookup sig in
      let (s, p) = parse_values lib (record r { faulted = false }) v in
      elim (Bool-cases s.faulted) [
        | inl off ↦ absurd (ground (arith, rw off at e))
        | inr fine ↦ rules-IsUsable s sig v p c (parse_values-IsParsed lib _ v fine) (rw fine at e)
      ]
