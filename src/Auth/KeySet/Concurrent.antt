-- ===== src/Auth/KeySet/Concurrent.antt =====
-- extension/oidcclientauth/keyset.go under concurrent requests: `VerifySignature` in the steps
-- between which other requests and the scheduled refresh may run, each step being what the code
-- does while it holds a mutex.
pub mod Spacing
use otlp_collector_oidc.Prelude.{ℕ, ◌≡◌, Text, List, [], ◌∷◌, Option, none, some, Bool, true, false}
use otlp_collector_oidc.Prelude.Time.{Time}
use otlp_collector_oidc.Auth.KeySet.Keys.{Jose, Response}
use otlp_collector_oidc.Auth.KeySet.{
  KeySet, new_key_set, lookup_key, refresh, is_stale, mark_miss, look_again,
}
use mathlib.Core.Logic.{ite}
use native.Mathlib.Decide.{ℕ_discrete}

-- Where a request is in `VerifySignature`.
pub data Phase (Key : Type 0) : Type 0 where
  -- Before the lookup.
  arriving : (kid alg : Text) → Phase Key
  -- The lookup missed in this generation; it waits for `refreshing`.
  missed : (kid alg : Text) → (generation : ℕ) → Phase Key
  -- It holds `refreshing`.
  locked : (kid alg : Text) → (generation : ℕ) → Phase Key
  -- It has read the clock and tested that a fetch may be made.
  tested : (kid alg : Text) → (now : Time) → (stale : Bool) → Phase Key
  -- `missFetched` is set, and the request to the provider is on its way.
  fetching : (kid alg : Text) → Phase Key
  -- The lookup's result.
  done : Option Key → Phase Key

-- What the requests share. `starts` is no variable of the code: the times at which fetches for
-- unknown kids began, the latest first.
pub record Shared (Key : Type 0) : Type 0 where
  pub set : KeySet Key
  pub refreshing : Option ℕ
  pub starts : List Time

module _ (j : Jose) where
  open j use {Key}

  -- A step of request i.
  pub data Move (i : ℕ) : Shared Key → Phase Key → Shared Key → Phase Key → Type 0 where
    hit :
        {g : Shared Key} {kid alg : Text} (key : Key)
        → (lookup_key j g.set kid alg).0 ≡ some key
        → Move i g (arriving kid alg) g (done (some key))
    miss :
        {g : Shared Key} {kid alg : Text}
        → (lookup_key j g.set kid alg).0 ≡ none
        → Move i g (arriving kid alg) g (missed kid alg (lookup_key j g.set kid alg).1)
    lock :
        {g : Shared Key} {kid alg : Text} {generation : ℕ}
        → g.refreshing ≡ none
        → Move i g
            (missed kid alg generation)
            (record g { refreshing = some i })
            (locked kid alg generation)
    test :
        {g : Shared Key} {kid alg : Text} {generation : ℕ} (now : Time)
        → Move i g
            (locked kid alg generation)
            g
            (tested kid alg now (is_stale j g.set now generation))
    mark :
        {g : Shared Key} {kid alg : Text} {now : Time} {stale : Bool}
        → stale ≡ true
        → Move i g
            (tested kid alg now stale)
            (record g { set = mark_miss j g.set now; starts = now ∷ g.starts })
            (fetching kid alg)
    skip :
        {g : Shared Key} {kid alg : Text} {now : Time} {stale : Bool}
        → stale ≡ false
        → Move i g
            (tested kid alg now stale)
            (record g { refreshing = none })
            (done (lookup_key j g.set kid alg).0)
    answer :
        {g : Shared Key} {kid alg : Text} (resp : Response)
        → Move i g
            (fetching kid alg)
            (record g { set = (look_again j kid alg (refresh j g.set resp)).0; refreshing = none })
            (done (look_again j kid alg (refresh j g.set resp)).1)

  abbrev pub update : (ℕ → Phase Key) → ℕ → Phase Key → ℕ → Phase Key
  update phase i p k = ite (ℕ_discrete i k) p (phase k)

  pub record System : Type 0 where
    pub shared : Shared Key
    pub phase : ℕ → Phase Key

  -- A step of some request, or the provider's scheduled refresh.
  pub data Step : System → System → Type 0 where
    request :
        {s : System} {g : Shared Key} {p : Phase Key} (i : ℕ)
        → Move i s.shared (s.phase i) g p
        → Step s (record { shared = g; phase = update s.phase i p })
    scheduled :
        {s : System} (resp : Response)
        → Step s (record s {
          shared = record {
            set = (refresh j s.shared.set resp).0;
            refreshing = s.shared.refreshing;
            starts = s.shared.starts;
          };
        })

  -- The systems that s₀ can become.
  pub data Reach (s₀ : System) : System → Type 0 where
    here : Reach s₀ s₀
    next : {s t : System} → Reach s₀ s → Step s t → Reach s₀ t
