-- ===== src/Upstream/Resolve/Signals/Parsing.antt =====
-- internal/upstream/resolve.go: what the values of a signal are once none of them is at fault.
use otlp_collector_oidc.Prelude.{
  Text, [], false, is_empty, ◌≡◌, ◌≢◌, refl, inl, inr, arith, Bool-cases,
}
use otlp_collector_oidc.Prelude.Result.{Result, ok, err}
use otlp_collector_oidc.Upstream.Enums.{
  Protocol, unset, grpc, http_protobuf, parse_protocol, parse_compression,
}
use otlp_collector_oidc.Upstream.Headers.{parse_headers}
use otlp_collector_oidc.Upstream.Exporter.{
  set_endpoint, parse_bool, read_timeout, read_queue_size, read_retry, capped,
  default_retry_initial_interval, default_retry_max_interval,
}
use otlp_collector_oidc.Upstream.Variables.{Fault}
use otlp_collector_oidc.Upstream.Resolve.{
  Read, Resolver, Library, accept, invalid, fail, Parsed, Values, parse_values, read_endpoint,
  given_endpoint,
}
use otlp_collector_oidc.Upstream.Resolve.Signals.Once.{fail-faulted}

pub parse_protocol_set : (raw : Text) (p : Protocol) → parse_protocol raw ≡ ok p → p ≢ unset
unfolding parse_protocol
parse_protocol_set raw p h e = ground (arith, h, e)

-- The configuration and the switches are those that the variables' readers return.
pub record IsParsed (lib : Library) (v : Values) (p : Parsed) : Type 0 where
  pub protocol : parse_protocol v.protocol.raw ≡ ok p.config.protocol
  pub endpoint :
      set_endpoint lib.parse_url p.config.protocol v.endpoint.raw v.endpoint.per_signal
      ≡ ok (record {
        plaintext = p.config.plaintext;
        endpoint = p.config.endpoint;
        signal_path = p.config.signal_path;
      })
  pub endpoint_ne : v.endpoint.raw ≢ []
  pub insecure : parse_bool v.insecure.raw ≡ ok p.force_plaintext
  pub skip_verify : parse_bool v.skip_verify.raw ≡ ok p.skip_verify
  pub headers : parse_headers v.headers.raw ≡ ok p.config.headers
  pub timeout : read_timeout v.timeout.raw ≡ ok p.config.timeout
  pub compression : parse_compression v.compression.raw ≡ ok p.config.compression
  pub queue_size : read_queue_size v.queue_size.raw ≡ ok p.config.queue_size
  pub retry : read_retry lib.parse_duration v.retry_max_elapsed.raw ≡ ok p.config.retry_max_elapsed
  pub initial :
      p.config.retry_initial_interval
      ≡ capped default_retry_initial_interval p.config.retry_max_elapsed
  pub interval :
      p.config.retry_max_interval ≡ capped default_retry_max_interval p.config.retry_max_elapsed
  pub no_skip : p.config.skip_verify ≡ false
  pub no_ca : p.config.ca_file ≡ []
  pub no_cert : p.config.client_cert_file ≡ []
  pub no_key : p.config.client_key_file ≡ []

module _ (lib : Library) where
  pub still_faulted : (r : Resolver) (e : Fault) → (fail lib r e).faulted ≢ false
  still_faulted r e h = ground (arith, fail-faulted lib r e, h)

  accept-ok :
      {A : Type 0} (r : Resolver) (v : Read) (z : A) (res : Result A)
      → (accept lib r v z res).0.faulted ≡ false
      → (r.faulted ≡ false) × (res ≡ ok (accept lib r v z res).1)
  unfolding accept invalid
  accept-ok r v z (ok a) h = (h, refl)
  accept-ok r v z (err e) h = absurd (still_faulted r _ h)

  given_endpoint-ok :
      (r : Resolver) (p : Protocol) (v : Read)
      → p ≢ unset
      → (given_endpoint lib r p v).0.faulted ≡ false
      → (r.faulted ≡ false)
        × (set_endpoint lib.parse_url p v.raw v.per_signal ≡ ok (given_endpoint lib r p v).1)
  unfolding given_endpoint
  given_endpoint-ok r unset v ne h = absurd (ne refl)
  given_endpoint-ok r grpc v ne h = accept-ok r v _ _ h
  given_endpoint-ok r http_protobuf v ne h = accept-ok r v _ _ h

  given_endpoint-unfaulted :
      (r : Resolver) (p : Protocol) (v : Read)
      → (given_endpoint lib r p v).0.faulted ≡ false
      → r.faulted ≡ false
  unfolding given_endpoint
  given_endpoint-unfaulted r unset v h = h
  given_endpoint-unfaulted r grpc v h = (accept-ok r v _ _ h).0
  given_endpoint-unfaulted r http_protobuf v h = (accept-ok r v _ _ h).0

  read_endpoint-ok :
      (r : Resolver) (p : Protocol) (v : Read)
      → (read_endpoint lib r p v).0.faulted ≡ false
      → (r.faulted ≡ false)
        × (v.raw ≢ [])
        × (p ≢ unset
            → set_endpoint lib.parse_url p v.raw v.per_signal ≡ ok (read_endpoint lib r p v).1)
  unfolding read_endpoint
  read_endpoint-ok r p v h = elim (Bool-cases (is_empty v.raw)) [
    | inl off ↦ absurd (still_faulted r _ (rw (off, read_endpoint) at h))
    | inr full ↦ rw full (
      (given_endpoint-unfaulted r p v (rw (full, read_endpoint) at h)),
      (λ q. cc),
      λ ne. (given_endpoint-ok r p v ne (rw (full, read_endpoint) at h)).1,
    )
  ]

  pub parse_values-IsParsed :
      (r : Resolver) (v : Values)
      → (parse_values lib r v).0.faulted ≡ false
      → IsParsed lib v (parse_values lib r v).1
  unfolding parse_values
  parse_values-IsParsed r v h =
      let (h8, retry) = accept-ok _ _ _ _ h in
      let (h7, queue) = accept-ok _ _ _ _ h8 in
      let (h6, compression) = accept-ok _ _ _ _ h7 in
      let (h5, timeout) = accept-ok _ _ _ _ h6 in
      let (h4, headers) = accept-ok _ _ _ _ h5 in
      let (h3, skip) = accept-ok _ _ _ _ h4 in
      let (h2, insecure) = accept-ok _ _ _ _ h3 in
      let (h1, full, endpoint) = read_endpoint-ok _ _ _ h2 in
      let (h0, protocol) = accept-ok _ _ _ _ h1 in
      record {
        protocol = protocol;
        endpoint = endpoint (parse_protocol_set _ _ protocol);
        endpoint_ne = full;
        insecure = insecure;
        skip_verify = skip;
        headers = headers;
        timeout = timeout;
        compression = compression;
        queue_size = queue;
        retry = retry;
        initial = refl;
        interval = refl;
        no_skip = refl;
        no_ca = refl;
        no_cert = refl;
        no_key = refl;
      }
