-- ===== src/Prelude/Ordered/Laws.antt =====
-- The keys stay distinct, and the map finds each one's place.
use Prim.Native.Nat.{ℕ, zero, suc}
use mathlib.Core.Path.{◌≡◌, refl, ap, sym, ◌∙◌}
use mathlib.Core.Logic.{inl, inr}
use mathlib.Core.Bool.{Bool, true, false}
use mathlib.Core.List.{List, [], ◌∷◌, ◌++◌, map}
use mathlib.Core.Option.{Option, none, some}
use native.Mathlib.Omega.{arith}
use otlp_collector_oidc.Prelude.Tests.{if◌then◌else◌, Bool-cases, Option-cases}
use otlp_collector_oidc.Prelude.Lists.{length, length-map, All}
use otlp_collector_oidc.Prelude.Bytes.{
  Text, ◌==◌, ==_iff, ==_refl, ==_symm, contains, Entries, lookup, lookup-insert,
}
use otlp_collector_oidc.Prelude.Words.{contains-append}
use otlp_collector_oidc.Prelude.Ordered.{modify, put}

-- No text twice.
abbrev pub IsDistinct : List Text → Type 0
IsDistinct [] = Unit
IsDistinct (k ∷ ks) = (contains ks k ≡ false) × IsDistinct ks

abbrev next : Option ℕ → Option ℕ
next none = none
next (some i) = some (suc i)

-- The first place of a key.
abbrev pub place : Text → List Text → Option ℕ
place key [] = none
place key (k ∷ ks) = if k == key then some 0 else next (place key ks)

place_none : (key : Text) (ks : List Text) → place key ks ≡ none → contains ks key ≡ false
unfolding contains
place_none key [] h = refl
place_none key (k ∷ ks) h = ground (arith, place_none key ks)

pub IsDistinct-concat :
    (ks : List Text) (key : Text)
    → IsDistinct ks
    → contains ks key ≡ false
    → IsDistinct (ks ++ key ∷ [])
unfolding contains
IsDistinct-concat [] key d h = (refl, tt)
IsDistinct-concat (k ∷ ks) key (n, d) h = (
  rw (contains-append ks (key ∷ []) k) (ground (arith, ==_symm key k)),
  IsDistinct-concat ks key d (ground arith),
)

place-concat :
    (key new : Text) (ks : List Text)
    → place new ks ≡ none
    → place key (ks ++ new ∷ []) ≡ (if new == key then some (length ks) else place key ks)
place-concat key new [] h = refl
place-concat key new (k ∷ ks) h =
    ground (arith, place-concat key new ks, ==_iff new key, ==_iff k key, ==_iff k new)

place_head : (b : Bool) (o : Option ℕ) → (if b then some 0 else next o) ≡ some 0 → b ≡ true
place_head true o h = refl
place_head false none h = cc
place_head false (some i) h = absurd (ground arith)

place_tail :
    (b : Bool) (o : Option ℕ) (i : ℕ) → (if b then some 0 else next o) ≡ some (suc i) → o ≡ some i
place_tail true o i h = absurd (ground arith)
place_tail false none i h = cc
place_tail false (some j) i h = ground arith

module _ {A : Type 0} (key_of : A → Text) where
  pub record IsIndexed (s : Entries ℕ × List A) : Type 0 where
    pub found : (key : Text) → lookup key s.0 ≡ place key (map key_of s.1)
    pub distinct : IsDistinct (map key_of s.1)

  keys-modify :
      (key : Text) (i : ℕ) (change : A → A) (out : List A)
      → ((a : A) → key_of a ≡ key → key_of (change a) ≡ key)
      → place key (map key_of out) ≡ some i
      → map key_of (modify i change out) ≡ map key_of out
  unfolding modify
  keys-modify key i change [] keep h = refl
  keys-modify key zero change (x ∷ xs) keep h =
      let e : key_of x ≡ key =
        (==_iff (key_of x) key).0 (place_head _ (place key (map key_of xs)) h) in
      ap (λ k. k ∷ map key_of xs) (keep x e ∙ sym e)
  keys-modify key (suc i) change (x ∷ xs) keep h =
      ap (λ ks. key_of x ∷ ks)
        (keys-modify key i change xs keep
          (place_tail (key_of x == key) (place key (map key_of xs)) i h))

  keys-concat :
      (out : List A) (a : A) → map key_of (out ++ a ∷ []) ≡ map key_of out ++ key_of a ∷ []
  keys-concat [] a = refl
  keys-concat (x ∷ xs) a = ap (λ ks. key_of x ∷ ks) (keys-concat xs a)

  -- A reader's list keeps one entry for each key, and its map the places of them.
  pub put-IsIndexed :
      (s : Entries ℕ × List A) (key : Text) (a : A) (change : A → A)
      → key_of a ≡ key
      → ((b : A) → key_of b ≡ key → key_of (change b) ≡ key)
      → IsIndexed s
      → IsIndexed (put key a change s)
  unfolding put
  put-IsIndexed (index, out) key a change ka keep inv = elim (Option-cases (lookup key index)) [
    | inr (i, e) ↦
        let same = keys-modify key i change out keep (sym (inv.found key) ∙ e) in
        rw (e, put) (record { found = λ k. rw same (inv.found k); distinct = rw same inv.distinct })
    | inl e ↦
        let new : place key (map key_of out) ≡ none = sym (inv.found key) ∙ e in
        rw (e, put)
          (record {
            found = λ k. rw (
              keys-concat out a,
              ka,
              place-concat k key (map key_of out) new,
              lookup-insert key k (length out) index,
              length-map out key_of,
              inv.found k,
            );
            distinct =
                rw (keys-concat out a, ka)
                  (IsDistinct-concat (map key_of out) key inv.distinct
                    (place_none key (map key_of out) new));
          })
  ]

  -- The first entry of a key.
  abbrev pub first_of : Text → List A → Option A
  first_of key [] = none
  first_of key (x ∷ xs) = if key_of x == key then some x else first_of key xs

  abbrev pub update_or : A → (A → A) → Option A → A
  update_or a change none = a
  update_or a change (some b) = change b

  All-modify :
      (P : A → Type 0) (i : ℕ) (change : A → A) (out : List A)
      → ((b : A) → P b → P (change b))
      → All P out
      → All P (modify i change out)
  unfolding modify
  All-modify P i change [] keep h = tt
  All-modify P zero change (x ∷ xs) keep (p, h) = (keep x p, h)
  All-modify P (suc i) change (x ∷ xs) keep (p, h) = (p, All-modify P i change xs keep h)

  All-concat : (P : A → Type 0) (out : List A) (a : A) → All P out → P a → All P (out ++ a ∷ [])
  All-concat P [] a h p = (p, tt)
  All-concat P (x ∷ xs) a (q, h) p = (q, All-concat P xs a h p)

  pub All-put :
      (P : A → Type 0) (s : Entries ℕ × List A) (key : Text) (a : A) (change : A → A)
      → P a
      → ((b : A) → P b → P (change b))
      → All P s.1
      → All P (put key a change s).1
  unfolding put
  All-put P (index, out) key a change pa keep h = elim (Option-cases (lookup key index)) [
    | inr (i, e) ↦ rw (e, put) (All-modify P i change out keep h)
    | inl e ↦ rw (e, put) (All-concat P out a h pa)
  ]

  first_of-none :
      (key : Text) (out : List A) → place key (map key_of out) ≡ none → first_of key out ≡ none
  first_of-none key [] h = refl
  first_of-none key (x ∷ xs) h = ground (arith, first_of-none key xs)

  first_of-concat :
      (j : Text) (out : List A) (a : A)
      → place (key_of a) (map key_of out) ≡ none
      → first_of j (out ++ a ∷ []) ≡ (if key_of a == j then some a else first_of j out)
  first_of-concat j [] a h = refl
  first_of-concat j (x ∷ xs) a h = ground (
    arith,
    first_of-concat j xs a,
    ==_iff (key_of a) j,
    ==_iff (key_of x) j,
    ==_iff (key_of x) (key_of a),
  )

  first_of-modify :
      (j key : Text) (i : ℕ) (a : A) (change : A → A) (out : List A)
      → ((b : A) → key_of b ≡ key → key_of (change b) ≡ key)
      → place key (map key_of out) ≡ some i
      → first_of j (modify i change out)
        ≡ (if key == j then some (update_or a change (first_of key out)) else first_of j out)
  unfolding modify
  first_of-modify j key i a change [] keep h = cc
  first_of-modify j key zero a change (x ∷ xs) keep h =
      let e : key_of x ≡ key =
        (==_iff (key_of x) key).0 (place_head _ (place key (map key_of xs)) h) in
      rw (keep x e, e, ==_refl key) (elim (Bool-cases (key == j)) [ inl b ↦ rw b | inr b ↦ rw b ])
  first_of-modify j key (suc i) a change (x ∷ xs) keep h =
      let t = place_tail (key_of x == key) (place key (map key_of xs)) i h in
      ground (
        arith,
        first_of-modify j key i a change xs keep t,
        ==_iff (key_of x) key,
        ==_iff (key_of x) j,
        ==_iff key j,
      )

  -- What the list says of a key after a pair.
  pub first_of-put :
      (j : Text) (s : Entries ℕ × List A) (key : Text) (a : A) (change : A → A)
      → key_of a ≡ key
      → ((b : A) → key_of b ≡ key → key_of (change b) ≡ key)
      → IsIndexed s
      → first_of j (put key a change s).1
        ≡ (if key == j then some (update_or a change (first_of key s.1)) else first_of j s.1)
  unfolding put
  first_of-put j (index, out) key a change ka keep inv = elim (Option-cases (lookup key index)) [
    | inr (i, e) ↦ rw (e, put) (first_of-modify j key i a change out keep (sym (inv.found key) ∙ e))
    | inl e ↦
        let new : place key (map key_of out) ≡ none = sym (inv.found key) ∙ e in
        rw (e, put, first_of-none key out new) (rw (first_of-concat j out a (rw ka new), ka))
  ]
