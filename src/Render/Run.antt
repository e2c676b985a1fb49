-- ===== src/Render/Run.antt =====
-- internal/render/run.go: the run command, up to the collector's end.
pub mod Shutdown
pub mod Exclusive
pub mod Laws
pub mod Order
pub mod Written
use otlp_collector_oidc.Prelude.{
  Text, bytes, List, [], ◌∷◌, ◌++◌, map, Option, none, some, if◌then◌else◌, Bool, true, false, ◌&&◌,
  is_empty,
}
use otlp_collector_oidc.Prelude.Result.{Result, ok, err, ◌>>=◌}
use otlp_collector_oidc.Upstream.Variables.{Url, Fault, names}
use otlp_collector_oidc.Upstream.Resolve.{Lookup}
use otlp_collector_oidc.Render.Values.{has, to_upstream, to_stdout}
use otlp_collector_oidc.Render.Load.{Group, load}
use otlp_collector_oidc.Render.Exporters.{redact_all}
use otlp_collector_oidc.Render.Settings.{Settings, LogSettings}
use otlp_collector_oidc.Render.SelfTelemetry.{service_version_key}
use Shutdown.{Failure, failure_text, only_logger_shutdown}

-- The groups of Source, logsOnly and Settings, the rule across the last, and its zero value.
pub record Tables : Type 0 where
  pub source : List (Group Text)
  pub logs_only : List (Group LogSettings)
  pub settings : List (Group Settings)
  pub across : Settings → List Fault
  pub zero_logs : LogSettings
  pub zero : Settings

-- Where the command's own lines go: stdout, the logs' upstream, or both.
pub data Sinks : Type 0 where
  stdout_only otlp_only stdout_and_otlp : Sinks

pub data Level : Type 0 where
  info_level warn_level debug_level : Level

-- What the command does that can be seen from outside, in its order.
pub data Effect : Type 0 where
  unset_variable : (name : Text) → Effect
  logged : Sinks → Level → (message : Text) → (about : List Text) → Effect
  wrote : (path yaml : Text) → Effect
  started : (uri : Text) → Effect
  flushed : Sinks → Effect
  warned_on_stderr : (message : Text) → (failure : Text) → Effect

-- What `col.Run` comes to: nil, or an error with the test that the collector's state is closed.
pub data Stopped : Type 0 where
  clean : Stopped
  failed : Failure → (closed : Bool) → Stopped

-- What the command returns: nil, the errors of the variables, or another error.
pub data Returned : Type 0 where
  done : Returned
  faults : List Fault → Returned
  error : Text → Returned

-- What the libraries and the system answer when they are called.
pub record Host : Type 0 where
  -- uuid.NewRandom.
  pub uuid : Result Text
  -- `unset`, os.Unsetenv in the binary.
  pub unset_error : Text → Option Text
  -- `buildLogger` on stdout, `sdkConfig`, and the SDK's and the core's construction.
  pub stdout_logger : LogSettings → Option Text
  pub upstream_logger : Settings → Option Text
  -- `Render`, and filepath.Join of the directory and the file's name.
  pub render : Settings → Result Text
  pub rendered_path : Text
  -- `writeExclusive`.
  pub write_error : Text → Option Text
  pub new_collector_error : Text → Option Text
  pub run_collector : Text → Stopped

-- The effects of a part of the command, and its result.
abbrev pub Ran : Type 0 → Type 0
Ran A = List Effect × Result A

abbrev pub and_then : {A : Type 0} {B : Type 0} → Ran B → (B → Ran A) → Ran A
and_then (before, err e) next = (before, err e)
and_then (before, ok b) next = let (after, r) = next b in (before ++ after, r)

-- `fmt.Errorf` around an error, if there is one.
abbrev pub check : Text → Option Text → Ran Unit
check what none = ([], ok tt)
check what (some e) = ([], err (what ++ e))

-- `sdkVariables`.
unfoldable pub sdk_variables : List Text
sdk_variables = names ++ (bytes "OTEL_SERVICE_NAME" ∷ bytes "OTEL_RESOURCE_ATTRIBUTES" ∷ [])

-- The wrapped core of `newLogger`.
unfoldable pub own_sinks : Settings → Sinks
own_sinks s =
    if to_upstream s.own.output
    then (if to_stdout s.own.output then stdout_and_otlp else otlp_only)
    else stdout_only

-- `writeRendered`'s `shown`.
unfoldable pub shown_settings : Settings → Settings
shown_settings s = record s { upstream = redact_all s.upstream }

module _ (h : Host) where
  -- The loop over the names.
  unfoldable pub unset_all : List Text → Ran Unit
  unset_all [] = ([], ok tt)
  unset_all (name ∷ more) =
      let rest = unset_all more in
      elim (h.unset_error name) [
        | none ↦ (unset_variable name ∷ rest.0, rest.1)
        | some e ↦ ([], err (bytes "unsetting " ++ (name ++ (bytes ": " ++ e))))
      ]

  -- `newLogger`; `none` is a nil `own`.
  unfoldable pub new_logger : LogSettings → Option Settings → Ran Sinks
  unfolding own_sinks
  new_logger logs none = and_then (check [] (h.stdout_logger logs)) (λ _. ([], ok stdout_only))
  new_logger logs (some s) = and_then (check [] (h.stdout_logger logs)) (λ _.
      if to_upstream s.own.output
      then and_then (check [] (h.upstream_logger s)) (λ _. ([], ok (own_sinks s)))
      else ([], ok stdout_only))

  log_rendered : Sinks → Result Text → List Effect
  log_rendered sinks (err e) = []
  log_rendered sinks (ok yaml) =
      logged sinks debug_level (bytes "Rendered configuration") (h.rendered_path ∷ yaml ∷ []) ∷ []

  written : Sinks → Settings → Text → Option Text → Ran Text
  unfolding log_rendered
  written sinks s yaml (some e) = ([], err (bytes "writing the rendered configuration: " ++ e))
  written sinks s yaml none = (
    wrote h.rendered_path yaml
        ∷ logged sinks info_level (bytes "Rendered the configuration from the environment")
            (h.rendered_path ∷ [])
        ∷ log_rendered sinks (h.render (shown_settings s)),
    ok h.rendered_path,
  )

  rendered_file : Sinks → Settings → Result Text → Ran Text
  unfolding written
  rendered_file sinks s (err e) = ([], err e)
  rendered_file sinks s (ok yaml) = written sinks s yaml (h.write_error yaml)

  -- `writeRendered`.
  unfoldable pub write_rendered : Sinks → Settings → Ran Text
  unfolding rendered_file
  write_rendered sinks s = rendered_file sinks s (h.render s)

  -- `ownLogsUndelivered`.
  unfoldable pub own_logs_undelivered : Failure → Bool → Bool
  own_logs_undelivered f closed = closed && only_logger_shutdown f

  stopped : Stopped → Ran Unit
  stopped clean = ([], ok tt)
  stopped (failed f closed) =
      if own_logs_undelivered f closed
      then (
        warned_on_stderr
              (bytes "Own logs not delivered at shutdown: the logs upstream is unreachable")
              (failure_text f)
            ∷ [],
        ok tt,
      )
      else ([], err (bytes "running the collector: " ++ failure_text f))

  -- From the collector's settings to its end.
  unfoldable pub run_collector_on : Text → Ran Unit
  unfolding stopped own_logs_undelivered
  run_collector_on path =
      and_then
        (check (bytes "creating the collector: ") (h.new_collector_error (bytes "file:" ++ path)))
        (λ _.
          and_then (started (bytes "file:" ++ path) ∷ [], ok tt)
            (λ _. stopped (h.run_collector (bytes "file:" ++ path))))

  -- `defer stop()`.
  unfoldable pub with_stop : Sinks → Ran Unit → Ran Unit
  with_stop sinks (effects, r) = (effects ++ flushed sinks ∷ [], r)

  version_warning : Sinks → Settings → List Effect
  version_warning sinks s =
      if has s.own.resource_attributes service_version_key
      then logged sinks warn_level
          (bytes "Ignoring service.version in OTEL_RESOURCE_ATTRIBUTES: the version is the build's")
          []
        ∷ []
      else []

  announce : Sinks → Text → Ran Unit
  announce sinks path = (
    logged sinks info_level
          (bytes "Running the mounted configuration; the shipped pipeline is not rendered")
          (path ∷ [])
        ∷ [],
    ok tt,
  )

  on_mounted : Text → Sinks → Ran Unit
  unfolding announce
  on_mounted path sinks = and_then (announce sinks path) (λ _. run_collector_on path)

  -- A mounted configuration.
  unfoldable pub run_mounted : Text → LogSettings → Ran Unit
  unfolding on_mounted
  run_mounted path logs =
      and_then (new_logger logs none) (λ sinks. with_stop sinks (on_mounted path sinks))

  on_rendered : Settings → Sinks → Ran Unit
  unfolding version_warning
  on_rendered s sinks =
      and_then (version_warning sinks s, ok tt)
        (λ _. and_then (write_rendered sinks s) run_collector_on)

  -- The shipped pipeline, of the settings with the instance id.
  unfoldable pub run_rendered : Settings → Ran Unit
  unfolding on_rendered
  run_rendered s =
      and_then (unset_all sdk_variables) (λ _.
        and_then (new_logger s.logs (some s)) (λ sinks. with_stop sinks (on_rendered s sinks)))

  returned : Ran Unit → List Effect × Returned
  returned (effects, ok _) = (effects, done)
  returned (effects, err e) = (effects, error e)

  shipped : Settings → Result Text → List Effect × Returned
  unfolding returned
  shipped s (err e) = ([], error (bytes "choosing the instance id: " ++ e))
  shipped s (ok id) = returned (run_rendered (record s { instance_id = id }))

  decide : Text → LogSettings → Settings → List Fault → List Effect × Returned
  unfolding returned shipped
  decide mounted logs s (e ∷ errs) = ([], faults (e ∷ errs))
  decide mounted logs s [] =
      if is_empty mounted then shipped s h.uuid else returned (run_mounted mounted logs)

  -- `run`; `parse_url` is url.Parse.
  unfoldable pub run : (Text → Option Url) → Tables → Lookup → List Effect × Returned
  unfolding decide
  run parse_url t lookup =
      let (mounted, errs) = load parse_url lookup t.source (λ _. []) [] in
      let (logs, log_errs) = load parse_url lookup t.logs_only (λ _. []) t.zero_logs in
      let (s, all_errs) = load parse_url lookup t.settings t.across t.zero in
      if is_empty mounted
      then decide mounted s.logs s (errs ++ all_errs)
      else decide mounted logs s (errs ++ log_errs)
