-- ===== src/Upstream/Exporter/Shown.antt =====
-- internal/upstream/config.go: what a log line says of an exporter's configuration.
use otlp_collector_oidc.Prelude.{Text, bytes, List, [], ◌∷◌, ◌++◌, if◌then◌else◌, join}
use otlp_collector_oidc.Upstream.Enums.{protocol_string}
use otlp_collector_oidc.Upstream.Headers.{names}
use otlp_collector_oidc.Upstream.Exporter.{ExporterConfig}

header_names : List Text → Text
header_names [] = []
header_names (name ∷ more) = bytes " headers=" ++ join (name ∷ more) (b',' ∷ [])

-- `ExporterConfig.String`.
unfoldable pub config_string : ExporterConfig → Text
unfolding header_names
config_string c =
    protocol_string c.protocol
    ++ (b' '
        ∷ (c.endpoint
            ++ ((if c.signal_path then bytes " (+/v1/<signal>)" else [])
                ++ ((if c.plaintext then bytes " plaintext" else bytes " tls")
                    ++ header_names (names c.headers)))))
