-- ===== src/Render/Exporters/Equal.antt =====
-- internal/render/upstream.go: configurations that are one key of a map are equal.
use otlp_collector_oidc.Prelude.{==_iff, Bool, true, false, ◌&&◌, ◌≡◌, refl, ap, arith}
use otlp_collector_oidc.Prelude.Int.{ℤ, pos, negsuc}
use otlp_collector_oidc.Upstream.Enums.{
  Protocol, unset, grpc, http_protobuf, Compression, gzip, no_compression,
}
use otlp_collector_oidc.Upstream.Exporter.{ExporterConfig}
use otlp_collector_oidc.Render.Exporters.{
  same_bool, same_protocol, same_compression, same_int, same_config,
}

same_bool-eq : (a b : Bool) → same_bool a b ≡ true → a ≡ b
unfolding same_bool
same_bool-eq true true h = refl
same_bool-eq false false h = refl
same_bool-eq true false h = cc
same_bool-eq false true h = cc

same_protocol-eq : (a b : Protocol) → same_protocol a b ≡ true → a ≡ b
unfolding same_protocol
same_protocol-eq unset unset h = refl
same_protocol-eq grpc grpc h = refl
same_protocol-eq http_protobuf http_protobuf h = refl
same_protocol-eq unset grpc h = cc
same_protocol-eq unset http_protobuf h = cc
same_protocol-eq grpc unset h = cc
same_protocol-eq grpc http_protobuf h = cc
same_protocol-eq http_protobuf unset h = cc
same_protocol-eq http_protobuf grpc h = cc

same_compression-eq : (a b : Compression) → same_compression a b ≡ true → a ≡ b
unfolding same_compression
same_compression-eq gzip gzip h = refl
same_compression-eq no_compression no_compression h = refl
same_compression-eq gzip no_compression h = cc
same_compression-eq no_compression gzip h = cc

same_int-eq : (a b : ℤ) → same_int a b ≡ true → a ≡ b
unfolding same_int
same_int-eq (pos a) (pos b) h = ap pos (ground arith)
same_int-eq (pos a) (negsuc b) h = cc
same_int-eq (negsuc a) (pos b) h = cc
same_int-eq (negsuc a) (negsuc b) h = ap negsuc (ground arith)

both : (a b : Bool) → (a && b) ≡ true → (a ≡ true) × (b ≡ true)
both true b h = (refl, h)
both false b h = cc

pub same_config-eq : (a b : ExporterConfig) → same_config a b ≡ true → a ≡ b
unfolding same_config
same_config-eq a b h =
    let (h13, e14) = both _ _ h in
    let (h12, e13) = both _ _ h13 in
    let (h11, e12) = both _ _ h12 in
    let (h10, e11) = both _ _ h11 in
    let (h9, e10) = both _ _ h10 in
    let (h8, e9) = both _ _ h9 in
    let (h7, e8) = both _ _ h8 in
    let (h6, e7) = both _ _ h7 in
    let (h5, e6) = both _ _ h6 in
    let (h4, e5) = both _ _ h5 in
    let (h3, e4) = both _ _ h4 in
    let (h2, e3) = both _ _ h3 in
    let (h1, e2) = both _ _ h2 in
    let (e0, e1) = both _ _ h1 in
    let q0 : a.protocol ≡ b.protocol = same_protocol-eq _ _ e0 in
    let q1 : a.endpoint ≡ b.endpoint = (==_iff _ _).0 e1 in
    let q2 : a.signal_path ≡ b.signal_path = same_bool-eq _ _ e2 in
    let q3 : a.plaintext ≡ b.plaintext = same_bool-eq _ _ e3 in
    let q4 : a.skip_verify ≡ b.skip_verify = same_bool-eq _ _ e4 in
    let q5 : a.ca_file ≡ b.ca_file = (==_iff _ _).0 e5 in
    let q6 : a.client_cert_file ≡ b.client_cert_file = (==_iff _ _).0 e6 in
    let q7 : a.client_key_file ≡ b.client_key_file = (==_iff _ _).0 e7 in
    let q8 : a.headers ≡ b.headers = (==_iff _ _).0 e8 in
    let q9 : a.timeout ≡ b.timeout = same_int-eq _ _ e9 in
    let q10 : a.compression ≡ b.compression = same_compression-eq _ _ e10 in
    let q11 : a.queue_size ≡ b.queue_size = same_int-eq _ _ e11 in
    let q12 : a.retry_max_elapsed ≡ b.retry_max_elapsed = same_int-eq _ _ e12 in
    let q13 : a.retry_initial_interval ≡ b.retry_initial_interval = same_int-eq _ _ e13 in
    let q14 : a.retry_max_interval ≡ b.retry_max_interval = same_int-eq _ _ e14 in
    λ i. record {
      protocol = q0 i;
      endpoint = q1 i;
      signal_path = q2 i;
      plaintext = q3 i;
      skip_verify = q4 i;
      ca_file = q5 i;
      client_cert_file = q6 i;
      client_key_file = q7 i;
      headers = q8 i;
      timeout = q9 i;
      compression = q10 i;
      queue_size = q11 i;
      retry_max_elapsed = q12 i;
      retry_initial_interval = q13 i;
      retry_max_interval = q14 i;
    }
