-- ===== src/Auth/Rejections.antt =====
-- extension/oidcclientauth/telemetry.go: the counter of refusals and the warnings. The counter and the logger are the lists of what they were given.
pub mod Laws
use otlp_collector_oidc.Prelude.{
  ℕ, ◌+◌, Text, List, [], ◌∷◌, Option, none, some, if◌then◌else◌, Bool, true, false, ◌≡◌,
}
use otlp_collector_oidc.Prelude.Int.{ltb_ℤ}
use otlp_collector_oidc.Prelude.Time.{Time, Duration, sub}
use otlp_collector_oidc.Auth.Reason.{Reason}
use mathlib.Core.Logic.{ite}

pub Reason-discrete : Discrete Reason
Reason-discrete = hlevel

-- `suppressed` is an int64, which no interval is long enough to fill.
pub record LogWindow : Type 0 where
  pub logged : Time
  pub suppressed : ℕ

-- A line of the log; `at`, the time that `admit` read, is no field of the line.
pub record Warning : Type 0 where
  pub reason : Reason
  pub text : Text
  pub suppressed : ℕ
  pub at : Time

pub record Rejections : Type 0 where
  pub interval : Duration
  pub windows : Reason → Option LogWindow
  pub counter : List Reason
  pub logger : List Warning

unfoldable pub new_rejections : Duration → Rejections
new_rejections interval = record {
  interval = interval;
  windows = λ _. none;
  counter = [];
  logger = [];
}

abbrev pub set_window : (Reason → Option LogWindow) → Reason → LogWindow → Reason → Option LogWindow
set_window windows why w r = ite (Reason-discrete why r) (some w) (windows r)

-- The window after a refusal, and what a warning says was suppressed, if one may be written.
unfoldable pub admit_window : Duration → Time → Option LogWindow → LogWindow × Option ℕ
admit_window interval now none = (record { logged = now; suppressed = 0 }, some 0)
admit_window interval now (some w) =
    if ltb_ℤ (sub now w.logged) interval
    then (record w { suppressed = w.suppressed + 1 }, none)
    else (record { logged = now; suppressed = 0 }, some w.suppressed)

-- `none` is the result `0, false`.
unfoldable pub admit : Rejections → Time → Reason → Rejections × Option ℕ
unfolding admit_window
admit r now why =
    let (w, said) = admit_window r.interval now (r.windows why) in
    (record r { windows = set_window r.windows why w }, said)

warn : Time → Reason → Text → Rejections × Option ℕ → Rejections
warn now why text (r, none) = r
warn now why text (r, some suppressed) = record r {
  logger = record { reason = why; text = text; suppressed = suppressed; at = now } ∷ r.logger;
}

-- `rejections.record`; `now` is what the clock reads in `admit`.
unfoldable pub record_refusal : Rejections → Time → Reason → Text → Rejections
unfolding admit warn
record_refusal r now why text =
    warn now why text (admit (record r { counter = why ∷ r.counter }) now why)

unfoldable pub record_all : Rejections → List (Time × Reason × Text) → Rejections
record_all r [] = r
record_all r ((now, why, text) ∷ rest) = record_all (record_refusal r now why text) rest
