-- ===== src/Render/Run/Shutdown.antt =====
-- internal/render/run.go: which failures of the collector are only its logger's.
pub mod Laws
use otlp_collector_oidc.Prelude.{
  Text, bytes, [], ◌∷◌, ◌++◌, if◌then◌else◌, Bool, true, false, not, ◌&&◌, has_prefix,
}

-- An error: a join, whose Unwrap returns several, one that wraps another, or one that wraps none.
mutual
  pub data Failure : Type 0 where
    joined : Text → Failures → Failure
    wraps : Text → Failure → Failure
    plain : Text → Failure

  pub data Failures : Type 0 where
    nil : Failures
    more : Failure → Failures → Failures

unfoldable pub failure_text : Failure → Text
failure_text (joined msg fs) = msg
failure_text (wraps msg inner) = msg
failure_text (plain msg) = msg

abbrev pub is_nil : Failures → Bool
is_nil nil = true
is_nil (more f fs) = false

unfoldable pub is_logger : Text → Bool
is_logger msg = has_prefix msg (bytes "failed to shutdown logger: ")

unfoldable pub is_service : Text → Bool
is_service msg = has_prefix msg (bytes "failed to shutdown service after error: ")

-- `onlyLoggerShutdown`, of an error and of each error of a join.
unfoldable mutual
  unfolding is_logger is_service

  pub only_logger_shutdown : Failure → Bool
  only_logger_shutdown (joined msg fs) = all_logger_shutdown fs && not (is_nil fs)
  only_logger_shutdown (wraps msg inner) =
      let within = only_logger_shutdown inner in
      if is_logger msg then true else if is_service msg then within else false
  only_logger_shutdown (plain msg) = is_logger msg

  pub all_logger_shutdown : Failures → Bool
  all_logger_shutdown nil = true
  all_logger_shutdown (more f fs) = only_logger_shutdown f && all_logger_shutdown fs
