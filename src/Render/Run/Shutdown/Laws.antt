-- ===== src/Render/Run/Shutdown/Laws.antt =====
-- The failures at which the walk over a collector's error ends.
use otlp_collector_oidc.Prelude.{
  ◌≡◌, ◌≢◌, ◌↔◌, refl, sym, ◌∙◌, Text, List, [], ◌∷◌, ◌++◌, if◌then◌else◌, Bool, true, false, not,
  ◌&&◌, Bool-cases, inl, inr, arith, and_both, and_intro, All,
}
use otlp_collector_oidc.Render.Run.Shutdown.{
  Failure, joined, wraps, plain, Failures, nil, more, is_logger, is_service, only_logger_shutdown,
  all_logger_shutdown,
}

-- The walk goes through the joins that are not empty and through the service's failure to the error
-- that it wraps; what it comes to is an empty join or a failure with a message.
pub data Ending : Type 0 where
  empty_join : Ending
  message : Text → Ending

unfoldable mutual
  pub endings : Failure → List Ending
  endings (joined msg nil) = empty_join ∷ []
  endings (joined msg (more f fs)) = endings f ++ endings_of_all fs
  endings (wraps msg inner) =
      let within = endings inner in
      if not (is_logger msg) && is_service msg then within else message msg ∷ []
  endings (plain msg) = message msg ∷ []

  endings_of_all : Failures → List Ending
  endings_of_all nil = []
  endings_of_all (more f fs) = endings f ++ endings_of_all fs

-- A message that the logger's shutdown failed.
unfoldable pub of_logger : Ending → Bool
of_logger empty_join = false
of_logger (message msg) = is_logger msg

every : List Ending → Bool
unfolding of_logger
every [] = true
every (e ∷ es) = of_logger e && every es

every-append : (xs ys : List Ending) → every (xs ++ ys) ≡ (every xs && every ys)
unfolding every
every-append [] ys = refl
every-append (x ∷ xs) ys = rw (every-append xs ys) (and_assoc (of_logger x) (every xs) (every ys))
  where
    and_assoc : (a b c : Bool) → (a && (b && c)) ≡ ((a && b) && c)
    and_assoc true b c = refl
    and_assoc false b c = refl

and_true : (b : Bool) → (b && true) ≡ b
and_true true = refl
and_true false = refl

mutual
  unfolding endings every of_logger only_logger_shutdown all_logger_shutdown

  only-every : (f : Failure) → only_logger_shutdown f ≡ every (endings f)
  only-every (joined msg nil) = refl
  only-every (joined msg (more f fs)) =
      and_true (only_logger_shutdown f && all_logger_shutdown fs) ∙ all-every (more f fs)
  only-every (wraps msg inner) = elim (Bool-cases (is_logger msg)) [
    | inl e ↦ rw e (sym (and_true (is_logger msg) ∙ e))
    | inr e ↦ elim (Bool-cases (is_service msg)) [
      | inl s ↦ rw (e, s) (only-every inner)
      | inr s ↦ rw (e, s) (sym (and_true (is_logger msg) ∙ e))
    ]
  ]
  only-every (plain msg) = sym (and_true (is_logger msg))

  all-every : (fs : Failures) → all_logger_shutdown fs ≡ every (endings_of_all fs)
  all-every nil = refl
  all-every (more f fs) =
      rw (only-every f, all-every fs, every-append (endings f) (endings_of_all fs))

every-All : (es : List Ending) → (every es ≡ true) ↔ All (λ e. of_logger e ≡ true) es
unfolding every
every-All [] = (λ h. tt, λ h. refl)
every-All (e ∷ es) = (
  λ h. let (x, y) = and_both (of_logger e) (every es) h in (x, (every-All es).0 y),
  λ (x, y). and_intro (of_logger e) (every es) x ((every-All es).1 y),
)

append_nonempty : (xs ys : List Ending) → xs ≢ [] → xs ++ ys ≢ []
append_nonempty [] ys n = absurd (n refl)
append_nonempty (x ∷ xs) ys n = λ h. ground arith

if_nonempty :
    (b : Bool) (es : List Ending) (msg : Text) → es ≢ [] → (if b then es else message msg ∷ []) ≢ []
if_nonempty true es msg n = n
if_nonempty false es msg n = λ h. ground arith

endings-nonempty : (f : Failure) → endings f ≢ []
unfolding endings
endings-nonempty (joined msg nil) = λ h. ground arith
endings-nonempty (joined msg (more f fs)) =
    append_nonempty (endings f) (endings_of_all fs) (endings-nonempty f)
endings-nonempty (wraps msg inner) =
    if_nonempty (not (is_logger msg) && is_service msg) (endings inner) msg (endings-nonempty inner)
endings-nonempty (plain msg) = λ h. ground arith

-- A failure counts as the logger's alone exactly if every ending of the walk is a message that the
-- logger's shutdown failed, and there is always an ending: an empty join is one, and does not count.
pub only_logger_shutdown-endings :
    (f : Failure)
    → ((only_logger_shutdown f ≡ true) ↔ All (λ e. of_logger e ≡ true) (endings f))
      × (endings f ≢ [])
only_logger_shutdown-endings f =
    let (x, y) = every-All (endings f) in
    ((λ h. x (sym (only-every f) ∙ h), λ h. only-every f ∙ y h), endings-nonempty f)
