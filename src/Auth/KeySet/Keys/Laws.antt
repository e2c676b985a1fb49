-- ===== src/Auth/KeySet/Keys/Laws.antt =====
-- Which keys of a JWKS are kept, and which one of them a token's kid names.
use otlp_collector_oidc.Prelude.{
  ◌≡◌, ◌≢◌, ◌↔◌, refl, ap, subst, arith, inl, inr, ◌⊎◌, Text, bytes, ◌==◌, ==_iff, ==_refl,
  is_empty, All, List, [], ◌∷◌, ◌++◌, Option, none, some, Bool, true, false, not, ◌&&◌, ◌||◌,
  Bool-cases, Option-cases, if◌then◌else◌, eqb, ℕ,
}
use otlp_collector_oidc.Auth.KeySet.Keys.{
  Jose, Fetched, Response, is_signing, signing_keys, nonempty, parse_jwks, read_body, fetch,
  find_in, find_key,
}

module _ (j : Jose) where
  open j use {Key}

  -- A public key that the provider does not mark for encryption.
  pub record IsSigning (key : Key) : Type 0 where
    pub public : j.is_public key ≡ true
    pub use_ne : j.key_use key ≢ bytes "enc"

  is_signing_sound : (key : Key) → is_signing j key ≡ true → IsSigning key
  unfolding is_signing
  is_signing_sound key h = record {
    public = ground arith;
    use_ne = λ e. ground (arith, ==_iff (j.key_use key) (bytes "enc"));
  }

  signing_keys-IsSigning : (rs : List Text) → All IsSigning (signing_keys j rs)
  unfolding signing_keys
  signing_keys-IsSigning [] = tt
  signing_keys-IsSigning (r ∷ rs) = elim (Option-cases (j.unmarshal_key r)) [
    | inl e ↦ rw (e, signing_keys) (signing_keys-IsSigning rs)
    | inr (key, e) ↦ elim (Bool-cases (is_signing j key)) [
      | inl on ↦ rw (e, signing_keys, on) (is_signing_sound key on, signing_keys-IsSigning rs)
      | inr off ↦ rw (e, signing_keys, off) (signing_keys-IsSigning rs)
    ]
  ]

  -- The keys that may stand in the cache.
  abbrev pub AreTrusted : List Key → Type 0
  AreTrusted ks = (ks ≢ []) × All IsSigning ks

  nonempty_sound : (ks ks' : List Key) → nonempty j ks ≡ Fetched.keys ks' → (ks ≡ ks') × (ks ≢ [])
  unfolding nonempty
  nonempty_sound [] ks' h = cc
  nonempty_sound (key ∷ ks) ks' h = (ground arith, λ e. cc)

  parse_jwks-AreTrusted :
      (body : Text) (ks : List Key) → parse_jwks j body ≡ Fetched.keys ks → AreTrusted ks
  unfolding parse_jwks
  parse_jwks-AreTrusted body ks h = elim (Option-cases (j.unmarshal_keys body)) [
    | inl e ↦ absurd (ground arith)
    | inr (raw, e) ↦
        let (same, n) = nonempty_sound (signing_keys j raw) ks (rw (e, parse_jwks) at h) in
        subst AreTrusted same (n, signing_keys-IsSigning raw)
  ]

  if_failed :
      (b : Bool) (x : Fetched Key) (ks : List Key)
      → (if b then Fetched.failed else x) ≡ Fetched.keys ks
      → x ≡ Fetched.keys ks
  if_failed true x ks h = cc
  if_failed false x ks h = h

  read_body-AreTrusted :
      (body : Option Text) (ks : List Key) → read_body j body ≡ Fetched.keys ks → AreTrusted ks
  unfolding read_body
  read_body-AreTrusted none ks h = cc
  read_body-AreTrusted (some body) ks h = parse_jwks-AreTrusted _ ks (if_failed _ _ ks h)

  answered-AreTrusted :
      (status : ℕ) (body : Option Text) (ks : List Key)
      → (if not (eqb status 200) then Fetched.failed else read_body j body) ≡ Fetched.keys ks
      → AreTrusted ks
  answered-AreTrusted status body ks h = read_body-AreTrusted body ks (if_failed _ _ ks h)

  -- Whatever the provider answers, the keys of a fetch that succeeds are at least one, and each is
  -- a public key not marked for encryption.
  pub fetch-AreTrusted :
      (resp : Response) (ks : List Key) → fetch j resp ≡ Fetched.keys ks → AreTrusted ks
  unfolding fetch
  fetch-AreTrusted Response.no_request ks h = cc
  fetch-AreTrusted Response.no_response ks h = cc
  fetch-AreTrusted (Response.answered status body) ks h = answered-AreTrusted status body ks h

  -- The key has the kid, and the alg where it states one.
  pub record Fits (kid alg : Text) (key : Key) : Type 0 where
    pub same_kid : j.key_id key ≡ kid
    pub same_alg : (j.key_algorithm key ≡ []) ⊎ (j.key_algorithm key ≡ alg)

  abbrev fits : Text → Text → Key → Bool
  fits kid alg key =
      j.key_id key == kid && (is_empty (j.key_algorithm key) || j.key_algorithm key == alg)

  is_empty_sound : (s : Text) → is_empty s ≡ true → s ≡ []
  is_empty_sound [] h = refl
  is_empty_sound (c ∷ s) h = cc

  fits_sound : (kid alg : Text) (key : Key) → fits kid alg key ≡ true → Fits kid alg key
  fits_sound kid alg key h = record {
    same_kid = ground (arith, ==_iff (j.key_id key) kid);
    same_alg =
        ground (arith, ==_iff (j.key_algorithm key) alg, is_empty_sound (j.key_algorithm key));
  }

  fits_complete : (kid alg : Text) (key : Key) → Fits kid alg key → fits kid alg key ≡ true
  fits_complete kid alg key f = elim f.same_alg [
    | inl e ↦ rw (f.same_kid, e, ==_refl kid)
    | inr e ↦
        ground (arith, ==_iff (j.key_id key) kid, ==_iff (j.key_algorithm key) alg, f.same_kid)
  ]

  -- The key is the first of the list that fits.
  pub record FirstFit (ks : List Key) (kid alg : Text) (key : Key) : Type 0 where
    pub earlier : List Key
    pub later : List Key
    pub split : ks ≡ earlier ++ key ∷ later
    pub fit : Fits kid alg key
    pub misfits : All (λ k. ¬ Fits kid alg k) earlier

  find_in_sound :
      (ks : List Key) (kid alg : Text) (key : Key)
      → find_in j ks kid alg ≡ some key
      → FirstFit ks kid alg key
  unfolding find_in
  find_in_sound [] kid alg key h = cc
  find_in_sound (k ∷ ks) kid alg key h = elim (Bool-cases (fits kid alg k)) [
    | inl on ↦
        let same : k ≡ key = ground arith in
        record {
          earlier = [];
          later = ks;
          split = ap (λ x. x ∷ ks) same;
          fit = subst (Fits kid alg) same (fits_sound kid alg k on);
          misfits = tt;
        }
    | inr off ↦
        let r = find_in_sound ks kid alg key (rw (off, find_in) at h) in
        record {
          earlier = k ∷ r.earlier;
          later = r.later;
          split = ap (λ l. k ∷ l) r.split;
          fit = r.fit;
          misfits = (λ f. cc (off, fits_complete kid alg k f), r.misfits);
        }
  ]

  find_in_complete :
      (earlier later : List Key) (kid alg : Text) (key : Key)
      → All (λ k. ¬ Fits kid alg k) earlier
      → Fits kid alg key
      → find_in j (earlier ++ key ∷ later) kid alg ≡ some key
  unfolding find_in
  find_in_complete [] later kid alg key m f = rw (fits_complete kid alg key f)
  find_in_complete (k ∷ earlier) later kid alg key (n, m) f = elim (Bool-cases (fits kid alg k)) [
    | inl on ↦ absurd (n (fits_sound kid alg k on))
    | inr off ↦ rw (off) (find_in_complete earlier later kid alg key m f)
  ]

  -- The key found for a kid and an alg is the first of the list with that kid whose alg, where it
  -- states one, is that alg; an empty kid names none.
  pub find_key-some_iff :
      (ks : List Key) (kid alg : Text) (key : Key)
      → (find_key j ks kid alg ≡ some key) ↔ ((kid ≢ []) × FirstFit ks kid alg key)
  unfolding find_key
  find_key-some_iff ks [] alg key = (λ h. cc, λ (n, _). absurd (n refl))
  find_key-some_iff ks (c ∷ kid) alg key = (
    λ h. (λ e. cc, find_in_sound ks (c ∷ kid) alg key h),
    λ (_, r). rw r.split (find_in_complete r.earlier r.later (c ∷ kid) alg key r.misfits r.fit),
  )
