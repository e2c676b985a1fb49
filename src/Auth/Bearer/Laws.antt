-- ===== src/Auth/Bearer/Laws.antt =====
-- extension/oidcclientauth/bearer.go: what a request's token is, and the order of its headers.
use mathlib.Core.Logic.{∥∥₁_elim}
use mathlib.Core.List.{Perm, Permᴰ, append_assoc}
use mathlib.Core.List.Perm
use mathlib.Core.List.{perm_append_comm}
use mathlib.Core.Path.{subst, subst₂, sym, ◌∙◌}
use otlp_collector_oidc.Prelude.{
  ◌≡◌, ◌≢◌, ◌↔◌, refl, Text, bytes, equal_fold, cut, trim_space, if◌then◌else◌, Bool, true, List,
  [], ◌∷◌, ◌++◌, Option, some, arith, Free, cut_sound, cut_of_Free,
}
use otlp_collector_oidc.Auth.Bearer.{
  Headers, authorization_values, token_of, bearer_value, bearer_token,
}

-- RFC 6750: the scheme, a space, the token.
pub record IsBearer (value token : Text) : Type 0 where
  pub scheme : Text
  pub rest : Text
  pub split : value ≡ scheme ++ b' ' ∷ rest
  pub word : Free b' ' scheme
  pub bearer : equal_fold scheme (bytes "bearer") ≡ true
  pub trimmed : trim_space rest ≡ token
  pub nonempty : token ≢ []

token_of_sound :
    (b a t : Text) (f : Bool)
    → token_of (b, a, f) ≡ some t
    → (f ≡ true) × (equal_fold b (bytes "bearer") ≡ true) × (trim_space a ≡ t) × (t ≢ [])
unfolding token_of
token_of_sound b a t f h = ground arith

token_of_complete :
    (b a t : Text)
    → equal_fold b (bytes "bearer") ≡ true
    → trim_space a ≡ t
    → t ≢ []
    → token_of (b, a, true) ≡ some t
unfolding token_of
token_of_complete b a t h e n = ground arith

bearer_value_sound : (v t : Text) → bearer_value (v ∷ []) ≡ some t → IsBearer v t
unfolding bearer_value
bearer_value_sound v t h =
    let (found, bearer, trimmed, nonempty) = token_of_sound _ _ t _ h in
    let e : cut b' ' v ≡ ((cut b' ' v).0, (cut b' ' v).1, true) = ground arith in
    let (split, word) = cut_sound b' ' v _ _ e in
    record {
      scheme = (cut b' ' v).0;
      rest = (cut b' ' v).1;
      split = split;
      word = word;
      bearer = bearer;
      trimmed = trimmed;
      nonempty = nonempty;
    }

bearer_value_complete : (v t : Text) → IsBearer v t → bearer_value (v ∷ []) ≡ some t
unfolding bearer_value
bearer_value_complete v t h =
    rw (h.split, cut_of_Free b' ' h.scheme h.rest h.word)
      (token_of_complete h.scheme h.rest t h.bearer h.trimmed h.nonempty)

bearer_value_one :
    (vs : List Text) (t : Text) → bearer_value vs ≡ some t → (v : Text) × (vs ≡ v ∷ [])
unfolding bearer_value
bearer_value_one [] t h = cc
bearer_value_one (v ∷ []) t h = (v, refl)
bearer_value_one (v ∷ w ∷ vs) t h = cc

-- A request has the token exactly when it has one Authorization value in all, under any spelling
-- of the name, and that value is the word bearer in any case, a space, and the token, which is
-- what is left without the white space around it and is not empty.
pub bearer_token_iff :
    (sources : Headers) (token : Text)
    → (bearer_token sources ≡ some token)
      ↔ ((value : Text) × (authorization_values sources ≡ value ∷ []) × IsBearer value token)
unfolding bearer_token
bearer_token_iff sources token = (
  λ h.
      let (v, e) = bearer_value_one (authorization_values sources) token h in
      (v, e, bearer_value_sound v token (rw e at h)),
  λ (v, e, b). rw e (bearer_value_complete v token b),
)

-- The values that one header adds.
abbrev added : Text × List Text → List Text
added (k, v) = if equal_fold k (bytes "authorization") then v else []

append_swap : (xs ys zs : List Text) → Perm (xs ++ (ys ++ zs)) (ys ++ (xs ++ zs))
append_swap xs ys zs =
    subst₂ Perm (append_assoc xs ys zs) (append_assoc ys xs zs)
      (Perm.append_right zs (perm_append_comm xs ys))

authorization_values-permᴰ :
    {m n : Headers} → Permᴰ m n → Perm (authorization_values m) (authorization_values n)
unfolding authorization_values
authorization_values-permᴰ Permᴰ.nil = Perm.nil
authorization_values-permᴰ (Permᴰ.cons {b} e p) =
    rw e (Perm.append_left (added b) (authorization_values-permᴰ p))
authorization_values-permᴰ (Permᴰ.swap {a'} {b'} {l} e f) =
    rw (e, f, authorization_values) (append_swap (added b') (added a') (authorization_values l))
authorization_values-permᴰ (Permᴰ.trans p q) =
    Perm.trans (authorization_values-permᴰ p) (authorization_values-permᴰ q)

bearer_value-cons :
    (a : Text) (xs ys : List Text) → Permᴰ xs ys → bearer_value (a ∷ xs) ≡ bearer_value (a ∷ ys)
unfolding bearer_value
bearer_value-cons a [] [] p = refl
bearer_value-cons a [] (y ∷ ys) p = cc (Perm.nil-eq ∣ p ∣₁)
bearer_value-cons a (x ∷ xs) [] p = cc (Perm.eq-nil ∣ p ∣₁)
bearer_value-cons a (x ∷ xs) (y ∷ ys) p = refl

bearer_value-permᴰ : {xs ys : List Text} → Permᴰ xs ys → bearer_value xs ≡ bearer_value ys
unfolding bearer_value
bearer_value-permᴰ Permᴰ.nil = refl
bearer_value-permᴰ (Permᴰ.cons {b} {l₁} {l₂} e p) =
    subst (λ c. bearer_value (c ∷ l₁) ≡ bearer_value (b ∷ l₂)) (sym e) (bearer_value-cons b l₁ l₂ p)
bearer_value-permᴰ (Permᴰ.swap {a} {b} {a'} {b'} {l} e f) = refl
bearer_value-permᴰ (Permᴰ.trans p q) = bearer_value-permᴰ p ∙ bearer_value-permᴰ q

Option_Text-set : IsSet (Option Text)
Option_Text-set = hlevel

-- The answer does not depend on the order in which the map of headers is walked.
pub bearer_token-perm :
    (sources walked : Headers) → Perm sources walked → bearer_token sources ≡ bearer_token walked
unfolding bearer_token
bearer_token-perm sources walked p =
    ∥∥₁_elim p (Option_Text-set _ _)
      λ d. ∥∥₁_elim (authorization_values-permᴰ d) (Option_Text-set _ _) bearer_value-permᴰ
