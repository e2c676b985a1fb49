-- ===== src/Auth/KeySet/Laws.antt =====
-- What the cache holds, what a verified signature rests on, and when a rotated key is found.
use otlp_collector_oidc.Prelude.{
  ◌≡◌, ◌≢◌, refl, ◌∙◌, ◌++◌, ap, arith, inl, inr, Text, All, All-append_right, List, [], ◌∷◌,
  Option, none, some, Bool, true, false, Bool-cases, Option-cases, ℕ, ◌+◌, ◌%◌, ◌^◌, subst,
}
use otlp_collector_oidc.Prelude.Int.{◌≤ℤ◌, ltb_ℤ-false_iff}
use otlp_collector_oidc.Prelude.Time.{Time, sub}
use otlp_collector_oidc.Auth.KeySet.Keys.{Jose, Fetched, Response, fetch, find_key}
use otlp_collector_oidc.Auth.KeySet.Keys.Laws.{
  IsSigning, FirstFit, fetch-AreTrusted, find_key-some_iff,
}
use otlp_collector_oidc.Auth.KeySet.{
  min_refresh_interval, KeySet, lookup_key, refresh, is_stale, mark_miss, look_again, refresh_for,
  payload, found, checked, verified_by, signed_with, verify_signature,
}

module _ (j : Jose) where
  open j use {Key}

  -- Only keys that a fetch kept are in the cache; before the first fetch it is empty.
  abbrev pub IsSound : KeySet Key → Type 0
  IsSound k = All (IsSigning j) k.keys

  refresh-IsSound : (k : KeySet Key) (resp : Response) → IsSound k → IsSound (refresh j k resp).0
  unfolding refresh
  refresh-IsSound k resp h = go (fetch j resp) refl
    where
      go : (f : Fetched Key) → fetch j resp ≡ f → IsSound (refresh j k resp).0
      go Fetched.failed e = rw (e, refresh) h
      go (Fetched.keys ks) e = rw (e, refresh) (fetch-AreTrusted j resp ks e).1

  look_again-IsSound :
      (kid alg : Text) (p : KeySet Key × Bool) → IsSound p.0 → IsSound (look_again j kid alg p).0
  unfolding look_again
  look_again-IsSound kid alg (k, true) h = h
  look_again-IsSound kid alg (k, false) h = h

  look_again_sound :
      (kid alg : Text) (p : KeySet Key × Bool) (key : Key)
      → (look_again j kid alg p).1 ≡ some key
      → find_key j (look_again j kid alg p).0.keys kid alg ≡ some key
  unfolding look_again lookup_key
  look_again_sound kid alg (k, true) key h = h
  look_again_sound kid alg (k, false) key h = cc

  refresh_for-IsSound :
      (k : KeySet Key) (kid alg : Text) (g : ℕ) (now : Time) (resp : Response)
      → IsSound k
      → IsSound (refresh_for j k kid alg g now resp).0
  unfolding refresh_for mark_miss
  refresh_for-IsSound k kid alg g now resp h = elim (Bool-cases (is_stale j k now g)) [
    | inl on ↦ rw on (look_again-IsSound kid alg _ (refresh-IsSound (mark_miss j k now) resp h))
    | inr off ↦ rw off h
  ]

  refresh_for_sound :
      (k : KeySet Key) (kid alg : Text) (g : ℕ) (now : Time) (resp : Response) (key : Key)
      → (refresh_for j k kid alg g now resp).1 ≡ some key
      → find_key j (refresh_for j k kid alg g now resp).0.keys kid alg ≡ some key
  unfolding refresh_for
  refresh_for_sound k kid alg g now resp key h = elim (Bool-cases (is_stale j k now g)) [
    | inl on ↦ rw on (look_again_sound kid alg _ key (rw on at h))
    | inr off ↦ rw off (look_again_sound kid alg (k, true) key (rw off at h))
  ]

  -- What a payload that `verify_signature` returns rests on.
  pub record Rests (k : KeySet Key) (jws : j.Jws) (body : Text) : Type 0 where
    pub kid : Text
    pub alg : Text
    pub key : Key
    pub one : j.signatures jws ≡ (kid, alg) ∷ []
    pub kid_ne : kid ≢ []
    pub first : FirstFit j k.keys kid alg key
    pub verified : j.verify jws key ≡ some body
    pub signing : IsSigning j key

  found-IsSound :
      (k : KeySet Key) (kid alg : Text) (now : Time) (resp : Response) (key : Key)
      → IsSound k
      → (found j (kid, alg) k now resp (lookup_key j k kid alg).0).1 ≡ some key
      → let r = found j (kid, alg) k now resp (lookup_key j k kid alg).0 in
        IsSound r.0 × (find_key j r.0.keys kid alg ≡ some key)
  unfolding found lookup_key
  found-IsSound k kid alg now resp key s h = elim (Option-cases (find_key j k.keys kid alg)) [
    | inl e ↦ rw e (
      refresh_for-IsSound k kid alg k.generation now resp s,
      refresh_for_sound k kid alg k.generation now resp key (rw (e, found) at h),
    )
    | inr (key', e) ↦ rw (e, found) (s, e ∙ (rw (e, found) at h))
  ]

  All-middle :
      (xs : List Key) (x : Key) (ys : List Key) → All (IsSigning j) (xs ++ x ∷ ys) → IsSigning j x
  All-middle xs x ys h = (All-append_right (IsSigning j) xs (x ∷ ys) h).0

  checked_sound :
      (jws : j.Jws) (o : Option Key) (body : Text)
      → checked j jws o ≡ payload body
      → (key : Key) × (o ≡ some key) × (j.verify jws key ≡ some body)
  unfolding checked
  checked_sound jws none body h = cc
  checked_sound jws (some key) body h = elim (Option-cases (j.verify jws key)) [
    | inl e ↦ absurd (ground arith)
    | inr (b, e) ↦ (key, refl, ground arith)
  ]

  signed_with-IsSound :
      (k k' : KeySet Key) (jws : j.Jws) (headers : List (Text × Text)) (now : Time)
      (resp : Response) (body : Text)
      → j.signatures jws ≡ headers
      → IsSound k
      → signed_with j k jws headers now resp ≡ (k', payload body)
      → IsSound k' × Rests k' jws body
  unfolding signed_with verified_by
  signed_with-IsSound k k' jws [] now resp body one s h = absurd (ground arith)
  signed_with-IsSound k k' jws ((kid, alg) ∷ []) now resp body one s h =
      let r = found j (kid, alg) k now resp (lookup_key j k kid alg).0 in
      let (key, same, verified) = checked_sound jws r.1 body (ap (λ p. p.1) h) in
      let (sound, e) = found-IsSound k kid alg now resp key s same in
      let (kid_ne, first) = (find_key-some_iff j r.0.keys kid alg key).0 e in
      subst (λ x. IsSound x × Rests x jws body) (ap (λ p. p.0) h)
        (
          sound,
          record {
            kid = kid;
            alg = alg;
            key = key;
            one = one;
            kid_ne = kid_ne;
            first = first;
            verified = verified;
            signing =
                All-middle first.earlier key first.later
                  (subst (λ l. All (IsSigning j) l) first.split sound);
          },
        )
  signed_with-IsSound k k' jws (a ∷ b ∷ hs) now resp body one s h = absurd (ground arith)

  -- From a cache of public signing keys, whatever the provider answers to the fetch: the cache
  -- after the call holds only such keys, and a payload is returned only for the JWS's one signature,
  -- verified with the first cached key that fits its kid, which is not empty, and its alg.
  pub verify_signature-Rests :
      (k k' : KeySet Key) (jws : j.Jws) (now : Time) (resp : Response) (body : Text)
      → IsSound k
      → verify_signature j k jws now resp ≡ (k', payload body)
      → IsSound k' × Rests k' jws body
  unfolding verify_signature
  verify_signature-Rests k k' jws now resp body s h =
      signed_with-IsSound k k' jws (j.signatures jws) now resp body refl s h

  is_stale_late :
      (k : KeySet Key) (now : Time)
      → min_refresh_interval ≤ℤ sub now k.miss_fetched
      → is_stale j k now k.generation ≡ true
  unfolding is_stale
  is_stale_late k now late =
      let e = (ltb_ℤ-false_iff (sub now k.miss_fetched) min_refresh_interval).1 late in
      rw e (ground arith)

  refresh_fetched :
      (k : KeySet Key) (resp : Response) (ks : List Key)
      → fetch j resp ≡ Fetched.keys ks
      → refresh j k resp ≡ (record k { keys = ks; generation = (k.generation + 1) % 2 ^ 64 }, true)
  unfolding refresh
  refresh_fetched k resp ks e = rw (e, refresh)

  refresh_for_fetched :
      (k : KeySet Key) (kid alg : Text) (now : Time) (resp : Response) (ks : List Key)
      → min_refresh_interval ≤ℤ sub now k.miss_fetched
      → fetch j resp ≡ Fetched.keys ks
      → refresh_for j k kid alg k.generation now resp ≡ (
        record { keys = ks; generation = (k.generation + 1) % 2 ^ 64; miss_fetched = now },
        find_key j ks kid alg,
      )
  unfolding refresh_for mark_miss look_again lookup_key
  refresh_for_fetched k kid alg now resp ks late e =
      rw (is_stale_late k now late, refresh_fetched (mark_miss j k now) resp ks e)

  -- A key that the provider has rotated in is found: where the cache has no key for the token's
  -- kid and the last fetch for an unknown kid began at least ten seconds ago, and the provider
  -- answers with a set that has one, the signature is verified with that key, and the cache is the
  -- new set.
  pub verify_signature-rotated :
      (k : KeySet Key) (jws : j.Jws) (now : Time) (resp : Response) (kid alg body : Text)
      (key : Key) (ks : List Key)
      → j.signatures jws ≡ (kid, alg) ∷ []
      → find_key j k.keys kid alg ≡ none
      → min_refresh_interval ≤ℤ sub now k.miss_fetched
      → fetch j resp ≡ Fetched.keys ks
      → find_key j ks kid alg ≡ some key
      → j.verify jws key ≡ some body
      → verify_signature j k jws now resp ≡ (
        record { keys = ks; generation = (k.generation + 1) % 2 ^ 64; miss_fetched = now },
        payload body,
      )
  unfolding verify_signature signed_with verified_by found lookup_key checked
  verify_signature-rotated k jws now resp kid alg body key ks one miss late fetched hit ok =
      rw
        (one, miss, found, refresh_for_fetched k kid alg now resp ks late fetched, hit, checked, ok)
