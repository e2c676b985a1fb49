-- ===== src/Upstream/Exporter/Bounds.antt =====
-- internal/upstream/resolve.go: what the readers of an exporter's settings accept.
use otlp_collector_oidc.Prelude.{
  ℕ, ◌*◌, ◌≤◌, Text, bytes, ◌==◌, ==_iff, Option, none, some, if◌then◌else◌, Bool, true, false, not,
  ◌&&◌, ◌||◌, is_empty, ltb, [], ◌≡◌, ◌≢◌, ◌⊎◌, inl, inr, refl, arith, Bool-cases, Option-cases,
}
use otlp_collector_oidc.Prelude.Int.{ℤ, pos, negsuc, ◌*ℤ◌}
use otlp_collector_oidc.Prelude.Time.{Duration}
use otlp_collector_oidc.Prelude.Numbers.{parse_int}
use otlp_collector_oidc.Prelude.Result.{ok}
use otlp_collector_oidc.Upstream.Enums.{Protocol, unset, grpc, http_protobuf}
use otlp_collector_oidc.Upstream.Variables.{Url}
use otlp_collector_oidc.Upstream.Exporter.{
  read_timeout, timeout_of, read_queue_size, queue_size_of, read_retry, retry_of, capped,
  set_endpoint, web_endpoint, is_web, not_web, Endpoint,
}

timeout_of-ok :
    (o : Option ℤ) (d : Duration)
    → timeout_of o ≡ ok d
    → (ms : ℕ) × (d ≡ pos (ms * 1000000)) × (1 ≤ ms) × (ms ≤ 3600000)
unfolding timeout_of ◌*ℤ◌
timeout_of-ok none d h = cc
timeout_of-ok (some (negsuc n)) d h = absurd (ground arith)
timeout_of-ok (some (pos n)) d h = (n, ground arith, ground arith, ground arith)

pub read_timeout-ok :
    (raw : Text) (d : Duration)
    → read_timeout raw ≡ ok d
    → (ms : ℕ) × (d ≡ pos (ms * 1000000)) × (1 ≤ ms) × (ms ≤ 3600000)
unfolding read_timeout
read_timeout-ok raw d h = timeout_of-ok (parse_int raw) d h

queue_size_of-ok : (o : Option ℤ) (n : ℤ) → queue_size_of o ≡ ok n → (k : ℕ) × (n ≡ pos k) × (1 ≤ k)
unfolding queue_size_of
queue_size_of-ok none n h = cc
queue_size_of-ok (some (negsuc k)) n h = absurd (ground arith)
queue_size_of-ok (some (pos k)) n h = (k, ground arith, ground arith)

pub read_queue_size-ok :
    (raw : Text) (n : ℤ) → read_queue_size raw ≡ ok n → (k : ℕ) × (n ≡ pos k) × (1 ≤ k)
unfolding read_queue_size
read_queue_size-ok raw n h = queue_size_of-ok (parse_int raw) n h

retry_of-ok : (o : Option Duration) (d : Duration) → retry_of o ≡ ok d → (k : ℕ) × (d ≡ pos k)
unfolding retry_of
retry_of-ok none d h = cc
retry_of-ok (some (negsuc k)) d h = absurd (ground arith)
retry_of-ok (some (pos k)) d h = (k, ground arith)

pub read_retry-ok :
    (parse_duration : Text → Option Duration) (raw : Text) (d : Duration)
    → read_retry parse_duration raw ≡ ok d
    → (k : ℕ) × (d ≡ pos k)
unfolding read_retry
read_retry-ok parse_duration raw d h = retry_of-ok (parse_duration raw) d h

-- `capped` of durations that are not negative.
abbrev pub cap : ℕ → ℕ → ℕ
cap d limit = if ltb 0 limit && ltb limit d then limit else d

pub capped-pos : (d limit : ℕ) → capped (pos d) (pos limit) ≡ pos (cap d limit)
unfolding capped
capped-pos d limit = ground arith

-- What an endpoint that is accepted is.
pub record IsEndpoint (p : Protocol) (raw : Text) (own : Bool) (u : Url) (e : Endpoint)
    : Type 0 where
  pub scheme : (u.scheme ≡ bytes "http") ⊎ (u.scheme ≡ bytes "https")
  pub host : u.hostname ≢ []
  pub bare : u.has_user ≡ false
  pub plaintext : e.plaintext ≡ (u.scheme == bytes "http")
  pub place :
      (p ≡ grpc) × (e.endpoint ≡ u.host) × (u.port ≢ []) × (e.signal_path ≡ false)
      ⊎ (p ≡ http_protobuf) × (e.endpoint ≡ raw) × (e.signal_path ≡ not own)

nonempty_ne : (s : Text) → is_empty s ≡ false → s ≢ []
nonempty_ne s h e = cc

scheme_cases :
    (u : Url)
    → is_web u ≡ true
    → ((u.scheme ≡ bytes "http") ⊎ (u.scheme ≡ bytes "https")) × (u.hostname ≢ [])
unfolding is_web
scheme_cases u h = elim (Bool-cases (u.scheme == bytes "http")) [
  | inl e ↦ (inl ((==_iff _ _).0 e), nonempty_ne _ (ground (arith, h)))
  | inr e ↦ (inr ((==_iff _ _).0 (ground (arith, h, e))), nonempty_ne _ (ground (arith, h)))
]

web_endpoint-ok :
    (p : Protocol) (u : Url) (raw : Text) (own : Bool) (e : Endpoint)
    → p ≢ unset
    → is_web u ≡ true
    → web_endpoint p u raw own ≡ ok e
    → IsEndpoint p raw own u e
unfolding web_endpoint
web_endpoint-ok unset u raw own e ne web h = absurd (ne refl)
web_endpoint-ok grpc u raw own e ne web h =
    let (scheme, host) = scheme_cases u web in
    elim (Bool-cases (is_empty u.port)) [
      | inl none_there ↦ absurd (ground (arith, rw none_there at h))
      | inr port ↦
          elim (Bool-cases (
            u.has_user
            || (not (is_empty u.path) && not (u.path == bytes "/"))
            || not (is_empty u.raw_query)
            || not (is_empty u.fragment))) [
              | inl off ↦ absurd (ground (arith, rw (port, off) at h))
              | inr fine ↦
                  let made : ok (record {
                    plaintext = u.scheme == bytes "http";
                    endpoint = u.host;
                    signal_path = false;
                  })
                      ≡ ok e =
                    rw (port, fine) at h in
                  let same : record {
                    plaintext = u.scheme == bytes "http";
                    endpoint = u.host;
                    signal_path = false;
                  }
                      ≡ e =
                    ground arith in
                  rw (← same) (record {
                    scheme = scheme;
                    host = host;
                    bare = ground arith;
                    plaintext = refl;
                    place = inl (refl, refl, nonempty_ne u.port port, refl);
                  })
            ]
    ]
web_endpoint-ok http_protobuf u raw own e ne web h =
    let (scheme, host) = scheme_cases u web in
    elim (Bool-cases (u.has_user || not (is_empty u.raw_query) || not (is_empty u.fragment))) [
      | inl off ↦ absurd (ground (arith, h, off))
      | inr fine ↦
          let made : ok (record {
            plaintext = u.scheme == bytes "http";
            endpoint = raw;
            signal_path = not own;
          })
              ≡ ok e =
            rw fine at h in
          let same : record {
            plaintext = u.scheme == bytes "http";
            endpoint = raw;
            signal_path = not own;
          }
              ≡ e =
            ground arith in
          rw (← same) (record {
            scheme = scheme;
            host = host;
            bare = ground arith;
            plaintext = refl;
            place = inr (refl, refl, refl);
          })
    ]

pub set_endpoint-ok :
    (parse_url : Text → Option Url) (p : Protocol) (raw : Text) (own : Bool) (e : Endpoint)
    → p ≢ unset
    → set_endpoint parse_url p raw own ≡ ok e
    → (u : Url) × (parse_url raw ≡ some u) × IsEndpoint p raw own u e
unfolding set_endpoint
set_endpoint-ok parse_url p raw own e ne h = elim (Option-cases (parse_url raw)) [
  | inl none_e ↦ absurd (ground (arith, rw (none_e, set_endpoint, not_web) at h))
  | inr (u, some_e) ↦ elim (Bool-cases (is_web u)) [
    | inr off ↦ absurd (ground (arith, rw (some_e, set_endpoint, off, not_web) at h))
    | inl web ↦
        (u, some_e, web_endpoint-ok p u raw own e ne web (rw (some_e, set_endpoint, web) at h))
  ]
]
