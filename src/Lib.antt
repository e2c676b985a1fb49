-- ===== src/Lib.antt =====
-- A model of otlp-collector-oidc, an OpenTelemetry collector whose one OTLP port asks every request
-- for an OIDC bearer token.
--
-- The program. The receiver (receiver/otlpsingleport) serves OTLP over HTTP and gRPC on one port.
-- Before a request reaches it, confighttp asks the authenticator (extension/oidcclientauth), which
-- reads the bearer token, verifies it against the provider's keys, applies the scope and claim
-- rules, and puts the identity into the request's context, or answers with an error. The error's
-- text is what the receiver's error handler is given: the text of ErrNotReady becomes 503 with
-- Retry-After, every other 401. internal/upstream and internal/render make the collector's
-- configuration of environment variables before it starts.
--
-- The files, and the code that they are about:
--   Prelude            shared names; strings as lists of bytes (Bytes), the functions of Go's
--                      strings package (Go, GoLaws, Words), integers (Int), time.Time and
--                      time.Duration in nanoseconds (Time), percent-encoding (Escape), strconv
--                      (Numbers), results that may be errors (Result), and lists with a map from
--                      keys to places (Ordered)
--   Auth/Reason        extension/oidcclientauth/reason.go
--   Auth/Bearer        bearer.go: bearerToken is bearer_token
--   Auth/Claims        authorize.go: authorize, grantsScope, nonEmpty
--   Auth/Verify        verify.go: verify; Verify/Header is headerAlgorithm, Verify/Registered is
--                      registered, audienceContains and numericDate
--   Auth/KeySet        keyset.go: VerifySignature, lookup, refreshFor, refresh; KeySet/Keys is
--                      fetch, parseJWKS and findKey; KeySet/Concurrent is VerifySignature in the
--                      steps between which other requests run, KeySet/Source the key set as
--                      the verifier's keySource
--   Auth/Rejections    telemetry.go: record is record_refusal, and admit
--   Auth/AuthData      authdata.go: newAuthData, GetAttribute, GetAttributeNames
--   Auth/Authenticator extension.go: Authenticate and refuse
--   Auth/Provider      discovery.go: run, discover, keepFresh, sleep and load as the moves of a state
--                      that Start makes and requests share (extension.go); Provider/Ready and
--                      Provider/Ends prove what is ready when, and that run ends
--   Auth/Config        config.go: Validate, algorithms, createDefaultConfig
--   Auth/Factory       factory.go: newAuthenticator
--   Receiver/Codes     receiver/otlpsingleport/errors.go: httpStatusFromStatus, statusFromHTTP
--   Receiver/Message   errors.go: encodeGRPCMessage
--   Receiver/Refusals  refusals.go: the counter and its labels
--   Receiver/Rpc       grpc.go: markHandled, unknownService, TagRPC and HandleRPC as the events of
--                      an RPC, grpcRefusalReason
--   Receiver/Config    config.go: Validate, and the message cap of newGRPCServer in grpc.go
--   Receiver/Response  errors.go: newErrorHandler and its writers, statusFromHTTP; lookupEncoding and
--                      writeBody of http.go, isGRPC of grpc.go
--   Receiver/Http      http.go: exportHandler; export.go: Export; server.go: the routes, ServeHTTP
--   Receiver/Registry  factory.go: the registry and the shared receiver; server.go: the start and the
--                      shutdown of the listener
--   Upstream/Headers   internal/upstream/config.go: Headers, parseHeaders
--   Upstream/Enums     enums.go
--   Upstream/Variables variables.go: the table, its names, VariableError
--   Upstream/Exporter  config.go: ExporterConfig; resolve.go: setEndpoint, capped, parseBool;
--                      Exporter/Shown is ExporterConfig.String
--   Upstream/Resolve   resolve.go: the resolver and the variables of a signal, each by itself;
--                      Resolve/Signals is the rules across them and Resolve
--   Render/Values      internal/render/values.go
--   Render/Rules       env.go: the Validate methods, clientOwned
--   Render/Load        env.go: Load and variable.load over groups as records, splitList
--   Render/Exporters   upstream.go: all, ExporterFor, componentType, endpoints, redacted, logFields
--   Render/Settings    env.go: the groups' fields; Render/Table is their variables, with the tags,
--                      and Table/Valid what holds of settings that load without a fault
--   Render/Bounds      bounds.go, Render/Identity identity.go, Render/Metrics metrics.go: the OTTL
--                      statements and the actions that the template writes
--   Render/Quote       render.go: quote, quoteList
--   Render/SelfTelemetry selftelemetry.go: the export of the process's own logs, and its resource
--   Render/Run         run.go: run and newLogger; Run/Exclusive is writeExclusive, Run/Shutdown
--                      onlyLoggerShutdown
-- Child modules named Laws, or for what they prove, hold the proofs, and Tests the concrete inputs.
--
-- How code is modelled. A method takes the receiver's state and returns the state after it with its
-- result; a nil error or a missing value is none, or a constructor of its own. A mutex stands for a
-- step in which the code holds it. The clock is an argument for each time that the code reads it.
-- A map is a list of its entries in the order in which Go happens to walk them, whose first entry
-- for a key is the map's. What the code calls and does not contain is a parameter: go-jose (Jose,
-- Decoders), encoding/json and base64 (Decoders), HTTP (Response), float64 (Float64, with what
-- IEEE 754 says of whole numbers as IsIeee) and url.Parse.
--
-- The environment is a function to an Option, and an error that names variables a Fault. A response
-- is the headers, the status and the body that a ResponseWriter has been given. net/url's escaping,
-- strconv's numbers and http.Error are written out; url.Parse, time.ParseDuration, mime, protobuf and
-- pdata are parameters, gathered in the records Library, StatusEncoding and Signal.
--
-- What the rendered configuration is read by is a parameter too, a record of what its documentation
-- says: OTTL's string literals (Literals), the attributes and resource processors (Attributes,
-- Resource), the collector's expansion of dollar signs (Expansion), and the files of the system
-- (Files, and FilesLaws with the umask). The run command is a list of its effects in their order,
-- over what the system and the libraries answer (Host). The provider's goroutine, requests and the
-- end of its context are moves of one state; where a wait's timer and the end of the context have
-- both come, either may end it.
--
-- Bounds. A JWKS is at most max_jwks_bytes long; a key set's generation wraps at 2^64; a date claim
-- is held within 1e15 seconds of the epoch; time.Sub stops at the ends of an int64. A Time has no
-- bound. Every loop is structural; the digits of a number take fuel, one more than the number, which
-- is more than it has digits.
--
-- Not modelled: the configuration reference (docs.go, Variables), the execution of the template,
-- which is text/template's, and the startup line's fields other than the upstreams. Load reads the fields of a struct by
-- reflection; here they are given as records and a table. Shutdown's wait for the provider is
-- sync.WaitGroup's. The construction of zap's and the SDK's loggers, of the collector and of the
-- listener's server is those libraries'. The generated metadata, the integration harness, the
-- commands and the scripts have no logic of the collector's own.
pub mod Prelude
pub mod Auth
pub mod Receiver
pub mod Upstream
pub mod Render
