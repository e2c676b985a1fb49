-- ===== src/Render/Values/Pairs.antt =====
-- internal/render/values.go: what a list of pairs that is accepted holds.
use otlp_collector_oidc.Prelude.{
  ℕ, ◌+◌, ◌≡◌, ◌≢◌, refl, ◌∙◌, inl, inr, Text, ◌==◌, List, [], ◌∷◌, map, Option, none, some,
  if◌then◌else◌, Bool, true, false, not, ◌||◌, split, cut, trim_space, is_empty, Entries, lookup,
  All, arith, Bool-cases,
}
use otlp_collector_oidc.Prelude.Escape.{unescape}
use otlp_collector_oidc.Prelude.Ordered.{put}
use otlp_collector_oidc.Prelude.Ordered.Laws.{
  IsDistinct, IsIndexed, put-IsIndexed, All-put, first_of, first_of-put, update_or,
}
use otlp_collector_oidc.Prelude.Result.{ok, >>=-ok}
use otlp_collector_oidc.Render.Values.{
  KeyValue, check_key_value, read_key_value, add_key_value, read_key_values, read_list,
}

-- The value that an item gives the key.
unfoldable pub item_value : Text → Text → Option Text
item_value key item =
    let (k, v, found) = cut b'=' item in
    if trim_space k == key then unescape false (trim_space v) else none

abbrev pub or_else : Option Text → Option Text → Option Text
or_else (some v) o = some v
or_else none o = o

-- The value of the key's last item, of the items that are not blank.
unfoldable pub last_value : Text → List Text → Option Text
last_value key [] = none
last_value key (item ∷ items) =
    or_else (last_value key items)
      (if is_empty (trim_space item) then none else item_value key item)

abbrev key_of : KeyValue → Text
key_of kv = kv.key

abbrev pub value_in : Text → List KeyValue → Option Text
value_in key [] = none
value_in key (kv ∷ l) = if kv.key == key then some kv.value else value_in key l

value_of : Option KeyValue → Option Text
value_of none = none
value_of (some kv) = some kv.value

value_in-first :
    (key : Text) (l : List KeyValue) → value_in key l ≡ value_of (first_of key_of key l)
unfolding value_of
value_in-first key [] = refl
value_in-first key (kv ∷ l) = elim (Bool-cases (kv.key == key)) [
  | inl e ↦ rw e
  | inr e ↦ rw e (value_in-first key l)
]

check_key_value-ok :
    (n : ℕ) (found : Bool) (k : Text) (v : Option Text) (kv : KeyValue)
    → check_key_value n found k v ≡ ok kv
    → (k ≡ kv.key) × (v ≡ some kv.value) × (k ≢ [])
unfolding check_key_value
check_key_value-ok n found k none kv h = absurd (ground (arith, h))
check_key_value-ok n found k (some v) kv h = elim (Bool-cases (not found || is_empty k)) [
  | inl off ↦ absurd (ground (arith, rw off at h))
  | inr fine ↦
      let made : ok (record { key = k; value = v }) ≡ ok kv = rw fine at h in
      let same : record { key = k; value = v } ≡ kv = ground arith in
      rw (← same) (refl, refl, λ e. ground (arith, fine, e))
]

abbrev replaced : KeyValue → KeyValue → KeyValue
replaced kv old = record old { value = kv.value }

update-value :
    (kv : KeyValue) (o : Option KeyValue)
    → value_of (some (update_or key_of kv (replaced kv) o)) ≡ some kv.value
unfolding value_of
update-value kv none = refl
update-value kv (some old) = refl

value_of-if :
    (b : Bool) (kv : KeyValue) (o : Option KeyValue) (v : Text)
    → value_of (some kv) ≡ some v
    → value_of (if b then some kv else o) ≡ (if b then some v else value_of o)
value_of-if true kv o v h = h
value_of-if false kv o v h = refl

add_key_value-value :
    (key : Text) (s : Entries ℕ × List KeyValue) (kv : KeyValue)
    → IsIndexed key_of s
    → value_in key (add_key_value s kv).1
      ≡ (if kv.key == key then some kv.value else value_in key s.1)
unfolding add_key_value
add_key_value-value key s kv inv =
    rw
      (
        value_in-first key (put kv.key kv (replaced kv) s).1,
        first_of-put key_of key s kv.key kv (replaced kv) refl (λ b e. e) inv,
        value_in-first key s.1,
      )
      (value_of-if (kv.key == key) (update_or key_of kv (replaced kv) (first_of key_of kv.key s.1))
        (first_of key_of key s.1) kv.value (update-value kv (first_of key_of kv.key s.1)))

read_key_value-ok :
    (n : ℕ) (item : Text) (kv : KeyValue)
    → read_key_value n item ≡ ok kv
    → (kv.key ≢ [])
      × ((key : Text) → item_value key item ≡ (if kv.key == key then some kv.value else none))
unfolding read_key_value item_value
read_key_value-ok n item kv h =
    let (k, v, found) = cut b'=' item in
    let (ke, ve, ne) =
      check_key_value-ok n found (trim_space k) (unescape false (trim_space v)) kv h in
    (λ e. ne (ke ∙ e), λ key. rw (ke, ve))

-- What the loop keeps, from a state and from the one that it ends in.
abbrev Sound : Entries ℕ × List KeyValue → Type 0
Sound s = IsIndexed key_of s × All (λ kv. kv.key ≢ []) s.1

add_key_value-Sound :
    (s : Entries ℕ × List KeyValue) (kv : KeyValue)
    → kv.key ≢ []
    → Sound s
    → Sound (add_key_value s kv)
unfolding add_key_value
add_key_value-Sound s kv ne (inv, all) = (
  put-IsIndexed key_of s kv.key kv (replaced kv) refl (λ b e. e) inv,
  All-put key_of (λ g. g.key ≢ []) s kv.key kv (replaced kv) ne (λ b p. p) all,
)

or_else_assoc :
    (b : Bool) (later : Option Text) (v : Text) (before : Option Text)
    → or_else later (if b then some v else before)
      ≡ or_else (or_else later (if b then some v else none)) before
or_else_assoc b (some w) v before = refl
or_else_assoc true none v before = refl
or_else_assoc false none v before = refl

or_else-skip :
    (later before : Option Text) → or_else later before ≡ or_else (or_else later none) before
or_else-skip none before = refl
or_else-skip (some v) before = refl

or_else-none : (o : Option Text) → or_else o none ≡ o
or_else-none none = refl
or_else-none (some v) = refl

read_key_values-Sound :
    (n : ℕ) (s t : Entries ℕ × List KeyValue) (items : List Text)
    → read_key_values n s items ≡ ok t
    → Sound s
    → Sound t
      × ((key : Text) → value_in key t.1 ≡ or_else (last_value key items) (value_in key s.1))
unfolding read_key_values last_value
read_key_values-Sound n s t [] e inv =
    let same : s ≡ t = ground arith in rw (← same) (inv, λ key. refl)
read_key_values-Sound n s t (item ∷ items) e inv = elim (Bool-cases (is_empty (trim_space item))) [
  | inl blank ↦
      let (good, values) =
        read_key_values-Sound (n + 1) s t items (rw (blank, read_key_values) at e) inv in
      (good, λ key. rw (blank, values key) (or_else-skip (last_value key items) (value_in key s.1)))
  | inr full ↦
      let (kv, made, rest) = >>=-ok (read_key_value n item) _ (rw (full, read_key_values) at e) in
      let (ne, gives) = read_key_value-ok n item kv made in
      let (good, values) =
        read_key_values-Sound (n + 1) (add_key_value s kv) t items rest
          (add_key_value-Sound s kv ne inv) in
      (
        good,
        λ key.
            rw (full, gives key, values key, add_key_value-value key s kv inv.0)
              (or_else_assoc (kv.key == key) (last_value key items) kv.value (value_in key s.1)),
      )
]

-- What an accepted list is.
pub record IsPairs (l : List KeyValue) : Type 0 where
  pub distinct : IsDistinct (map (λ kv. kv.key) l)
  pub named : All (λ kv. kv.key ≢ []) l

-- An accepted list has no key twice and no empty key, and the value of a key is that of the key's
-- last item in the text.
pub read_list-IsPairs :
    (text : Text) (l : List KeyValue)
    → read_list text ≡ ok l
    → (key : Text) → IsPairs l × (value_in key l ≡ last_value key (split b',' text))
unfolding read_list lookup
read_list-IsPairs text l e key =
    let (t, read, made) = >>=-ok (read_key_values 1 ([], []) (split b',' text)) _ e in
    let ((inv, named), values) =
      read_key_values-Sound 1 ([], []) t (split b',' text) read (start, tt) in
    let same : t.1 ≡ l = ground arith in
    rw (← same) (
      record { distinct = inv.distinct; named = named },
      values key ∙ or_else-none (last_value key (split b',' text)),
    )
  where
    start : IsIndexed (λ (kv : KeyValue). kv.key) ([], [])
    start = record { found = λ key. refl; distinct = tt }
