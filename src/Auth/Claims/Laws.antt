-- ===== src/Auth/Claims/Laws.antt =====
-- What an authorized token carries, and which rejection an unauthorized one gets.
use mathlib.Core.List.{Mem}
use otlp_collector_oidc.Prelude.{
  ◌≡◌, ◌≢◌, ◌↔◌, ap, Text, bytes, lookup, contains, contains_iff, All, IsWord, join, fields-join,
  Bool-cases, true, List, [], ◌∷◌, ◌++◌, Option, none, some, arith, inl, inr, refl, sym,
  contains-append,
}
use otlp_collector_oidc.Auth.Reason.{missing_scope, missing_claim}
use otlp_collector_oidc.Auth.Claims.{
  Value, null, string, array, object, Values, nil, cons, end, member, Claims, has_string,
  grants_scope, non_empty, Authorizer, first_missing, authorize,
}

missing_claim_injective : (n m : Text) → missing_claim n ≡ missing_claim m → n ≡ m
unfolding missing_claim
missing_claim_injective n m h = ground arith

missing_scope-ne-missing_claim : (n m : Text) → missing_scope n ≢ missing_claim m
unfolding missing_claim missing_scope
missing_scope-ne-missing_claim n m = λ h. ground arith

module _ {F : Type 0} where
  -- Neither absent nor null, nor an empty string, array or object.
  pub record IsPresent (v : Option (Value F)) : Type 0 where
    pub ne_absent : v ≢ none
    pub ne_null : v ≢ some null
    pub ne_string : v ≢ some (string [])
    pub ne_array : v ≢ some (array nil)
    pub ne_object : v ≢ some (object end)

  non_empty_sound : (v : Option (Value F)) → non_empty v ≡ true → IsPresent v
  unfolding non_empty
  non_empty_sound none h = cc
  non_empty_sound (some null) h = cc
  non_empty_sound (some (string [])) h = cc
  non_empty_sound (some (array nil)) h = cc
  non_empty_sound (some (object end)) h = cc
  non_empty_sound (some (string (c ∷ s))) h = record {
    ne_absent = λ e. cc;
    ne_null = λ e. cc;
    ne_string = λ e. cc;
    ne_array = λ e. cc;
    ne_object = λ e. cc;
  }
  non_empty_sound (some v) h = record {
    ne_absent = λ e. cc;
    ne_null = λ e. cc;
    ne_string = λ e. cc;
    ne_array = λ e. cc;
    ne_object = λ e. cc;
  }

  non_empty_complete : (v : Option (Value F)) → IsPresent v → non_empty v ≡ true
  unfolding non_empty
  non_empty_complete none h = absurd (h.ne_absent refl)
  non_empty_complete (some null) h = absurd (h.ne_null refl)
  non_empty_complete (some (string [])) h = absurd (h.ne_string refl)
  non_empty_complete (some (array nil)) h = absurd (h.ne_array refl)
  non_empty_complete (some (object end)) h = absurd (h.ne_object refl)
  non_empty_complete (some (string (c ∷ s))) h = refl
  non_empty_complete (some (array (cons _ _))) h = refl
  non_empty_complete (some (object (member _ _ _))) h = refl
  non_empty_complete (some v) h = refl

  first_missing-none :
      (names : List Text) (c : Claims F)
      → (first_missing names c ≡ none) ↔ All (λ n. IsPresent (lookup n c)) names
  unfolding first_missing
  first_missing-none [] c = (λ _. tt, λ _. refl)
  first_missing-none (n ∷ names) c = elim (Bool-cases (non_empty (lookup n c))) [
    | inl e ↦
        let (to, from) = first_missing-none names c in
        (
          λ h. (non_empty_sound _ e, to (rw (e, first_missing) at h)),
          λ h. rw (e, first_missing) (from h.1),
        )
    | inr e ↦ (λ h. absurd (ground arith), λ h. absurd (ground (arith, non_empty_complete _ h.0)))
  ]

  -- The first of the required claims that is absent or empty.
  pub record FirstMissing (names : List Text) (c : Claims F) (name : Text) : Type 0 where
    pub earlier : List Text
    pub later : List Text
    pub split : names ≡ earlier ++ name ∷ later
    pub present : All (λ n. IsPresent (lookup n c)) earlier
    pub missing : ¬ IsPresent (lookup name c)

  first_missing-some :
      (names : List Text) (c : Claims F) (name : Text)
      → first_missing names c ≡ some (missing_claim name)
      → FirstMissing names c name
  unfolding first_missing
  first_missing-some [] c name h = cc
  first_missing-some (n ∷ names) c name h = elim (Bool-cases (non_empty (lookup n c))) [
    | inl e ↦
        let r = first_missing-some names c name (rw (e, first_missing) at h) in
        record {
          earlier = n ∷ r.earlier;
          later = r.later;
          split = ap (λ l. n ∷ l) r.split;
          present = (non_empty_sound _ e, r.present);
          missing = r.missing;
        }
    | inr e ↦
        let same = missing_claim_injective n name (ground arith) in
        record {
          earlier = [];
          later = names;
          split = rw same;
          present = tt;
          missing = λ p. cc (non_empty_complete _ p, same);
        }
  ]

  first_missing_of :
      (earlier later : List Text) (c : Claims F) (name : Text)
      → All (λ n. IsPresent (lookup n c)) earlier
      → ¬ IsPresent (lookup name c)
      → first_missing (earlier ++ name ∷ later) c ≡ some (missing_claim name)
  unfolding first_missing
  first_missing_of [] later c name h m = elim (Bool-cases (non_empty (lookup name c))) [
    | inl e ↦ absurd (m (non_empty_sound _ e))
    | inr e ↦ rw (e, first_missing)
  ]
  first_missing_of (n ∷ earlier) later c name (p, h) m =
      rw (non_empty_complete _ p, first_missing) (first_missing_of earlier later c name h m)

  -- A token is authorized exactly when it grants the required scope and every required claim is
  -- present: not missing, null, or an empty string, array or object.
  pub authorize-none_iff :
      (a : Authorizer) (c : Claims F)
      → (authorize a c ≡ none)
        ↔ ((grants_scope c a.scope ≡ true) × All (λ n. IsPresent (lookup n c)) a.claims)
  unfolding authorize
  authorize-none_iff a c =
      let (to, from) = first_missing-none a.claims c in
      (λ h. (ground arith, to (ground arith)), λ (g, p). rw (g, authorize) (from p))

  -- It is refused for a claim exactly when it grants the scope and the claim is the first of the
  -- required ones, in the order of the configuration, that is not present.
  pub authorize-missing_claim_iff :
      (a : Authorizer) (c : Claims F) (name : Text)
      → (authorize a c ≡ some (missing_claim name))
        ↔ ((grants_scope c a.scope ≡ true) × FirstMissing a.claims c name)
  unfolding authorize
  authorize-missing_claim_iff a c name = (
    λ h. elim (Bool-cases (grants_scope c a.scope)) [
      | inl e ↦ (e, first_missing-some a.claims c name (rw (e, authorize) at h))
      | inr e ↦ absurd (missing_scope-ne-missing_claim a.scope name (ground arith))
    ],
    λ (g, m).
        rw (g, authorize, m.split) (first_missing_of m.earlier m.later c name m.present m.missing),
  )

  -- An array of strings.
  abbrev pub strings : List Text → Values F
  strings [] = nil
  strings (s ∷ ss) = cons (string s) (strings ss)

  has_string-strings :
      (vs : Values F) (ss : List Text) (s : Text)
      → vs ≡ strings ss
      → has_string vs s ≡ contains ss s
  unfolding has_string contains
  has_string-strings vs [] s e = rw e
  has_string-strings vs (t ∷ ss) s e = rw (e, has_string-strings (strings ss) ss s refl)

  -- A token whose scope claim is words of visible ASCII joined by spaces, and whose scp claim is an
  -- array of strings, grants exactly the scopes that are one of the words or one of the strings.
  pub grants_scope_iff :
      (c : Claims F) (scope : Text) (words granted : List Text)
      → lookup (bytes "scope") c ≡ some (string (join words (b' ' ∷ [])))
      → lookup (bytes "scp") c ≡ some (array (strings granted))
      → All IsWord words
      → (grants_scope c scope ≡ true) ↔ Mem scope (words ++ granted)
  unfolding grants_scope
  grants_scope_iff c scope words granted hs hp w =
      let both : grants_scope c scope ≡ contains (words ++ granted) scope =
        rw (hs, hp, fields-join words w, has_string-strings _ granted scope refl)
          (sym (contains-append words granted scope)) in
      rw both (contains_iff (words ++ granted) scope)
