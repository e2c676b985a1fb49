-- ===== src/Auth/KeySet/Concurrent/Spacing.antt =====
-- extension/oidcclientauth/keyset.go: the distance between the fetches for unknown kids.
use otlp_collector_oidc.Prelude.{
  ℕ, ◌≡◌, ◌≢◌, refl, Text, [], ◌∷◌, none, some, Bool, true, false, arith, Bool-cases, inl, inr,
  subst, ap, ◌∙◌,
}
use otlp_collector_oidc.Prelude.Int.{◌+ℤ◌, ◌≤ℤ◌}
use otlp_collector_oidc.Prelude.Time.{Time, sub_le, IsSpaced, IsSpaced-cons, IsLatest}
use otlp_collector_oidc.Auth.KeySet.Keys.{Jose, Response, Fetched, fetch}
use otlp_collector_oidc.Auth.KeySet.{
  min_refresh_interval, KeySet, refresh, is_stale, mark_miss, look_again,
}
use otlp_collector_oidc.Auth.KeySet.Concurrent.{
  Phase, arriving, missed, locked, tested, fetching, done, Shared, Move, hit, miss, lock, test,
  mark, skip, answer, update, System, Step, request, scheduled, Reach, here, next,
}
use mathlib.Core.Logic.{if_pos, if_neg}
use native.Mathlib.Decide.{ℕ_discrete}

module _ {Key : Type 0} where
  abbrev holds : Phase Key → Bool
  holds (locked _ _ _) = true
  holds (tested _ _ _ _) = true
  holds (fetching _ _) = true
  holds _ = false

  -- A fetch that is about to be made is due.
  abbrev Due : Time → Phase Key → Type 0
  Due m (tested kid alg now true) = m +ℤ min_refresh_interval ≤ℤ now
  Due m _ = Unit

  record Inv (g : Shared Key) (phase : ℕ → Phase Key) : Type 0 where
    held : (i : ℕ) → holds (phase i) ≡ true → g.refreshing ≡ some i
    due : (i : ℕ) → Due g.set.miss_fetched (phase i)
    latest : IsLatest g.set.miss_fetched g.starts
    gaps : IsSpaced min_refresh_interval g.starts

module _ (j : Jose) where
  open j use {Key}

  -- A refresh leaves the time of the last fetch for an unknown kid.
  refresh-miss_fetched :
      (k : KeySet Key) (resp : Response) → (refresh j k resp).0.miss_fetched ≡ k.miss_fetched
  unfolding refresh
  refresh-miss_fetched k resp = go (fetch j resp) refl
    where
      go : (f : Fetched Key) → fetch j resp ≡ f → (refresh j k resp).0.miss_fetched ≡ k.miss_fetched
      go Fetched.failed e = rw (e, refresh)
      go (Fetched.keys ks) e = rw (e, refresh)

  look_again-set : (kid alg : Text) (p : KeySet Key × Bool) → (look_again j kid alg p).0 ≡ p.0
  unfolding look_again
  look_again-set kid alg (k, true) = refl
  look_again-set kid alg (k, false) = refl

  Due-of_idle : (m : Time) (p : Phase Key) → holds p ≡ false → Due m p
  Due-of_idle m (arriving _ _) h = tt
  Due-of_idle m (missed _ _ _) h = tt
  Due-of_idle m (done _) h = tt
  Due-of_idle m (fetching _ _) h = tt
  Due-of_idle m (locked _ _ _) h = tt
  Due-of_idle m (tested _ _ _ _) h = cc

  Due-of_stale :
      (k : KeySet Key) (kid alg : Text) (now : Time) (generation : ℕ)
      → Due {Key = Key} k.miss_fetched (tested kid alg now (is_stale j k now generation))
  unfolding is_stale
  Due-of_stale k kid alg now generation = elim (Bool-cases (is_stale j k now generation)) [
    | inl on ↦ rw on (sub_le now k.miss_fetched min_refresh_interval (omega arith) (ground arith))
    | inr off ↦ rw off tt
  ]

  module _ (i : ℕ) (phase : ℕ → Phase Key) where
    update_at :
        (P : ℕ → Phase Key → Type 0) (p : Phase Key)
        → P i p
        → ((k : ℕ) → i ≢ k → P k (phase k))
        → (k : ℕ) → P k (update j phase i p k)
    update_at P p h rest k = elim (ℕ_discrete i k) [
      | yes e ↦ rw (if_pos _ e) (subst (λ n. P n p) e h)
      | no n ↦ rw (if_neg _ n) (rest k n)
    ]

    -- A step that leaves the mutex and the times of the fetches alone.
    Inv-quiet :
        (g : Shared Key) (p : Phase Key)
        → Inv g phase
        → (holds p ≡ true → g.refreshing ≡ some i)
        → Due g.set.miss_fetched p
        → Inv g (update j phase i p)
    Inv-quiet g p inv h d = record {
      held = update_at (λ k q. holds q ≡ true → g.refreshing ≡ some k) p h (λ k _. inv.held k);
      due = update_at (λ k q. Due g.set.miss_fetched q) p d (λ k _. inv.due k);
      latest = inv.latest;
      gaps = inv.gaps;
    }

    module _ (g : Shared Key) (inv : Inv g phase) where
      -- While request i holds the mutex no other does.
      alone : holds (phase i) ≡ true → (k : ℕ) → i ≢ k → holds (phase k) ≡ false
      alone h k n = elim (Bool-cases (holds (phase k))) [
        | inl on ↦ absurd (n (ground (arith, inv.held i h, inv.held k on)))
        | inr off ↦ off
      ]

      Inv-lock :
          (p : Phase Key)
          → g.refreshing ≡ none
          → Due g.set.miss_fetched p
          → Inv (record g { refreshing = some i }) (update j phase i p)
      Inv-lock p free d = record {
        held =
            update_at (λ k q. holds q ≡ true → some i ≡ some k) p (λ _. refl)
              (λ k _ on. cc (free, inv.held k on));
        due = update_at (λ k q. Due g.set.miss_fetched q) p d (λ k _. inv.due k);
        latest = inv.latest;
        gaps = inv.gaps;
      }

      -- A step that gives the mutex up, with another set of keys.
      Inv-unlock :
          (set : KeySet Key) (p : Phase Key)
          → set.miss_fetched ≡ g.set.miss_fetched
          → holds (phase i) ≡ true
          → holds p ≡ false
          → Inv (record { set = set; refreshing = none; starts = g.starts }) (update j phase i p)
      Inv-unlock set p same h off = record {
        held =
            update_at (λ k q. holds q ≡ true → none ≡ some k) p (λ on. cc)
              (λ k n on. cc (alone h k n));
        due =
            update_at (λ k q. Due set.miss_fetched q) p (Due-of_idle _ p off)
              (λ k n. Due-of_idle _ (phase k) (alone h k n));
        latest = rw same inv.latest;
        gaps = inv.gaps;
      }

      Inv-mark :
          (now : Time) (kid alg : Text)
          → holds (phase i) ≡ true
          → g.set.miss_fetched +ℤ min_refresh_interval ≤ℤ now
          → Inv
              (record g { set = mark_miss j g.set now; starts = now ∷ g.starts })
              (update j phase i (fetching kid alg))
      unfolding mark_miss
      Inv-mark now kid alg h late = record {
        held =
            update_at (λ k q. holds q ≡ true → g.refreshing ≡ some k) (fetching kid alg)
              (λ _. inv.held i h) (λ k _. inv.held k);
        due =
            update_at (λ k q. Due now q) (fetching kid alg) tt
              (λ k n. Due-of_idle now (phase k) (alone h k n));
        latest = refl;
        gaps =
            IsSpaced-cons min_refresh_interval now g.set.miss_fetched g.starts inv.latest inv.gaps
              late;
      }

    Move-Inv :
        {g g' : Shared Key} {p p' : Phase Key}
        → Move j i g p g' p'
        → phase i ≡ p
        → Inv g phase
        → Inv g' (update j phase i p')
    Move-Inv {g} (hit key e) at inv = Inv-quiet g _ inv (λ on. cc) tt
    Move-Inv {g} (miss e) at inv = Inv-quiet g _ inv (λ on. cc) tt
    Move-Inv {g} (lock free) at inv = Inv-lock g inv _ free tt
    Move-Inv {g} (test {kid} {alg} {generation} now) at inv =
        Inv-quiet g _ inv (λ _. inv.held i (rw at)) (Due-of_stale g.set kid alg now generation)
    Move-Inv {g} (mark {kid} {alg} {now} on) at inv =
        Inv-mark g inv now kid alg (rw at) (rw (at, on) at (inv.due i))
    Move-Inv {g} (skip off) at inv = Inv-unlock g inv g.set _ refl (rw at) refl
    Move-Inv {g} (answer {kid} {alg} resp) at inv =
        Inv-unlock g inv _ _
          (ap (λ k. k.miss_fetched) (look_again-set kid alg (refresh j g.set resp))
            ∙ refresh-miss_fetched g.set resp)
          (rw at) refl

  Step-Inv : {s t : System j} → Step j s t → Inv s.shared s.phase → Inv t.shared t.phase
  Step-Inv {s} (request i mv) inv = Move-Inv i s.phase mv refl inv
  Step-Inv {s} (scheduled resp) inv = record {
    held = inv.held;
    due = λ k. rw (refresh-miss_fetched s.shared.set resp) (inv.due k);
    latest = rw (refresh-miss_fetched s.shared.set resp) inv.latest;
    gaps = inv.gaps;
  }

  Reach-Inv : {s t : System j} → Inv s.shared s.phase → Reach j s t → Inv t.shared t.phase
  Reach-Inv inv here = inv
  Reach-Inv inv (next r st) = Step-Inv st (Reach-Inv inv r)

  -- No request is past its lookup, and no fetch for an unknown kid has begun.
  pub record IsQuiet (s : System j) : Type 0 where
    pub arriving_all : (i : ℕ) → (kid alg : Text) × (s.phase i ≡ arriving kid alg)
    pub none_begun : s.shared.starts ≡ []

  Inv-quiet_start : (s : System j) → IsQuiet s → Inv s.shared s.phase
  Inv-quiet_start s q = record {
    held = λ i on. let (kid, alg, e) = q.arriving_all i in cc (e);
    due = λ i. let (kid, alg, e) = q.arriving_all i in rw e tt;
    latest = rw q.none_begun tt;
    gaps = rw q.none_begun tt;
  }

  -- However the requests' lookups and fetches interleave with one another and with the scheduled
  -- refresh, and whatever the clock reads, each fetch that an unknown kid causes begins at least ten
  -- seconds after the one before it.
  pub Reach-IsSpaced :
      (s t : System j) → IsQuiet s → Reach j s t → IsSpaced min_refresh_interval t.shared.starts
  Reach-IsSpaced s t q r = (Reach-Inv (Inv-quiet_start s q) r).gaps
