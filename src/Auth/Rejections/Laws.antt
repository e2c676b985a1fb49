-- ===== src/Auth/Rejections/Laws.antt =====
-- extension/oidcclientauth/telemetry.go: what the counter and the warnings tell of the refusals.
use otlp_collector_oidc.Prelude.{
  ℕ, ◌+◌, ◌≡◌, refl, ap, Text, List, [], ◌∷◌, Option, none, some, arith, inl, inr, Bool-cases,
}
use otlp_collector_oidc.Prelude.Int.{pos, ltb_ℤ, ◌<ℤ◌}
use otlp_collector_oidc.Prelude.Time.{
  Time, Duration, sub, sub_le, IsSpaced, IsSpaced-cons, IsLatest,
}
use otlp_collector_oidc.Auth.Reason.{Reason}
use otlp_collector_oidc.Auth.Rejections.{
  Reason-discrete, LogWindow, Warning, Rejections, new_rejections, set_window, admit_window, warn,
  record_refusal, record_all,
}
use mathlib.Core.Logic.{ite, if_pos, if_neg}

module _ (why : Reason) where
  -- How often the reason was counted.
  abbrev pub counted : List Reason → ℕ
  counted [] = 0
  counted (r ∷ rs) = ite (Reason-discrete r why) 1 0 + counted rs

  -- The warnings for the reason, with the refusals that they say were suppressed.
  abbrev pub told : List Warning → ℕ
  told [] = 0
  told (w ∷ ws) = ite (Reason-discrete w.reason why) (1 + w.suppressed) 0 + told ws

  -- The refusals that the next warning will tell of.
  abbrev pub pending : Option LogWindow → ℕ
  pending none = 0
  pending (some w) = w.suppressed

  -- Every counted refusal was warned about, is told of in a warning, or will be in the next.
  abbrev pub Balanced : Rejections → Type 0
  Balanced r = counted r.counter ≡ told r.logger + pending (r.windows why)

  record_refusal-Balanced :
      (r : Rejections) (now : Time) (reason : Reason) (text : Text)
      → Balanced r
      → Balanced (record_refusal r now reason text)
  unfolding record_refusal
  record_refusal-Balanced r now reason text b = ground arith

  record_all-Balanced :
      (r : Rejections) (events : List (Time × Reason × Text))
      → Balanced r
      → Balanced (record_all r events)
  unfolding record_all
  record_all-Balanced r [] b = b
  record_all-Balanced r ((now, reason, text) ∷ events) b =
      record_all-Balanced (record_refusal r now reason text) events
        (record_refusal-Balanced r now reason text b)

  -- How often a request is refused for the reason.
  abbrev pub occurrences : List (Time × Reason × Text) → ℕ
  occurrences [] = 0
  occurrences ((now, reason, text) ∷ events) =
      ite (Reason-discrete reason why) 1 0 + occurrences events

  record_refusal-counter :
      (r : Rejections) (now : Time) (reason : Reason) (text : Text)
      → (record_refusal r now reason text).counter ≡ reason ∷ r.counter
  unfolding record_refusal
  record_refusal-counter r now reason text = ground arith

  record_all-counted :
      (r : Rejections) (events : List (Time × Reason × Text))
      → counted (record_all r events).counter ≡ counted r.counter + occurrences events
  unfolding record_all
  record_all-counted r [] = omega arith
  record_all-counted r ((now, reason, text) ∷ events) = omega (
    arith,
    record_all-counted (record_refusal r now reason text) events,
    ap counted (record_refusal-counter r now reason text),
  )

  -- Whatever the refusals and the clock's readings, those for a reason are all in the counter, and
  -- each is a warning, is told of as suppressed in a warning, or is pending for the next warning.
  pub record_all-occurrences :
      (interval : Duration) (events : List (Time × Reason × Text))
      → let r = record_all (new_rejections interval) events in
        (counted r.counter ≡ occurrences events)
        × (told r.logger + pending (r.windows why) ≡ occurrences events)
  unfolding new_rejections
  record_all-occurrences interval events =
      let c = record_all-counted (new_rejections interval) events in
      let b = record_all-Balanced (new_rejections interval) events refl in
      (omega (arith, c), omega (arith, c, b))

  -- When the reason was warned about, the latest first.
  abbrev pub stamps : List Warning → List Time
  stamps [] = []
  stamps (w ∷ ws) = ite (Reason-discrete w.reason why) (w.at ∷ stamps ws) (stamps ws)

  abbrev Stamped : Option LogWindow → List Time → Type 0
  Stamped none ts = ts ≡ []
  Stamped (some w) ts = IsLatest w.logged ts

  abbrev stamp : Option ℕ → Time → List Time → List Time
  stamp none now ts = ts
  stamp (some n) now ts = now ∷ ts

  -- The reason's window and its warnings, and the same after a refusal.
  abbrev Spaced : Duration → Option LogWindow → List Time → Type 0
  Spaced d w ts = Stamped w ts × IsSpaced d ts

  admit_window-Spaced :
      (d : Duration) (now : Time) (win : Option LogWindow) (ts : List Time)
      → pos 0 <ℤ d
      → Spaced d win ts
      → let (w, said) = admit_window d now win in Spaced d (some w) (stamp said now ts)
  unfolding admit_window
  admit_window-Spaced d now none ts p (e, _) = rw e (refl, tt)
  admit_window-Spaced d now (some w) ts p (l, g) = elim (Bool-cases (ltb_ℤ (sub now w.logged) d)) [
    | inl h ↦ rw h (l, g)
    | inr h ↦ rw h (refl, IsSpaced-cons d now w.logged ts l g (sub_le now w.logged d p h))
  ]

  abbrev Inv : Duration → Rejections → Type 0
  Inv d r = (r.interval ≡ d) × Spaced d (r.windows why) (stamps r.logger)

  warn-Inv :
      (d : Duration) (r : Rejections) (now : Time) (reason : Reason) (text : Text)
      → (w : LogWindow) (said : Option ℕ) → r.interval ≡ d
      → Spaced d (r.windows why) (stamps r.logger)
      → (reason ≡ why → Spaced d (some w) (stamp said now (stamps r.logger)))
      → Inv d (warn now reason text (record r { windows = set_window r.windows reason w }, said))
  unfolding warn
  warn-Inv d r now reason text w none e g h = elim (Reason-discrete reason why) [
    | yes same ↦ rw (if_pos (Reason-discrete reason why) same) (e, h same)
    | no other ↦ rw (if_neg (Reason-discrete reason why) other) (e, g)
  ]
  warn-Inv d r now reason text w (some n) e g h = elim (Reason-discrete reason why) [
    | yes same ↦
        rw
          (
            if_pos (Reason-discrete reason why) same,
            warn,
            stamps,
            if_pos (Reason-discrete reason why) same,
          )
          (e, h same)
    | no other ↦
        rw
          (
            if_neg (Reason-discrete reason why) other,
            warn,
            stamps,
            if_neg (Reason-discrete reason why) other,
          )
          (e, g)
  ]

  record_refusal-Inv :
      (d : Duration) (r : Rejections) (now : Time) (reason : Reason) (text : Text)
      → pos 0 <ℤ d
      → Inv d r
      → Inv d (record_refusal r now reason text)
  unfolding record_refusal
  record_refusal-Inv d r now reason text p (e, inv) =
      let said = admit_window r.interval now (r.windows reason) in
      warn-Inv d (record r { counter = reason ∷ r.counter }) now reason text said.0 said.1 e inv
        (λ same. rw (same, e) (admit_window-Spaced d now (r.windows why) (stamps r.logger) p inv))

  record_all-Inv :
      (d : Duration) (r : Rejections) (events : List (Time × Reason × Text))
      → pos 0 <ℤ d
      → Inv d r
      → Inv d (record_all r events)
  unfolding record_all
  record_all-Inv d r [] p inv = inv
  record_all-Inv d r ((now, reason, text) ∷ events) p inv =
      record_all-Inv d (record_refusal r now reason text) events p
        (record_refusal-Inv d r now reason text p inv)

  -- Where the interval is positive, as a valid configuration has it, two warnings that follow each
  -- other for one reason are at least the interval apart, whatever was refused and whenever.
  pub record_all-IsSpaced :
      (interval : Duration) (events : List (Time × Reason × Text))
      → pos 0 <ℤ interval
      → IsSpaced interval (stamps (record_all (new_rejections interval) events).logger)
  unfolding new_rejections
  record_all-IsSpaced interval events p =
      (record_all-Inv interval (new_rejections interval) events p (refl, (refl, tt))).1.1
