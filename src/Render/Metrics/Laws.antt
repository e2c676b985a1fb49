-- ===== src/Render/Metrics/Laws.antt =====
-- Which keys a metric's datapoints keep, as the collector reads the statement.
use mathlib.Core.List.{append_assoc}
use otlp_collector_oidc.Prelude.{
  ◌≡◌, ◌↔◌, refl, sym, ap, ◌∙◌, Text, bytes, ◌==◌, ==_iff, List, [], ◌∷◌, ◌++◌, map, any, contains,
  some, All, Bool, true, false, not, ◌&&◌, Bool-cases, inl, inr, arith, has_prefix, join,
}
use otlp_collector_oidc.Render.Values.{KeyValue}
use otlp_collector_oidc.Render.Bounds.{control, escape_special, ottl_string}
use otlp_collector_oidc.Render.Bounds.Literal.{Literals, read-escape_special}
use otlp_collector_oidc.Render.Metrics.{ottl_list, identity_key, kept_keys, metric_keep_keys}

-- The text after a list's opening bracket is the literals of the items and the closing bracket.
abbrev pub IsItems : Literals → List Text → Text → Text → Type 0
IsItems l [] text rest = text ≡ b']' ∷ rest
IsItems l (a ∷ []) text rest = (t : Text) × (text ≡ b'"' ∷ t) × (l.read t ≡ some (a, b']' ∷ rest))
IsItems l (a ∷ b ∷ items) text rest =
    (t : Text) × (more : Text) × (text ≡ b'"' ∷ t)
    × (l.read t ≡ some (a, b',' ∷ b' ' ∷ more))
    × IsItems l (b ∷ items) more rest

regroup :
    {A : Type 0} (a b c d e : List A) → (((a ++ b) ++ c) ++ d) ++ e ≡ a ++ (b ++ (c ++ (d ++ e)))
regroup a b c d e =
    append_assoc ((a ++ b) ++ c) d e
    ∙ append_assoc (a ++ b) c (d ++ e)
    ∙ append_assoc a b (c ++ (d ++ e))

ottl_list-IsItems :
    (l : Literals) (items : List Text) (rest : Text)
    → All (λ s. control s ≡ false) items
    → IsItems l items (join (map ottl_string items) (bytes ", ") ++ b']' ∷ rest) rest
unfolding join ottl_string bytes
ottl_list-IsItems l [] rest h = refl
ottl_list-IsItems l (a ∷ []) rest (g, h) = (
  escape_special a ++ b'"' ∷ b']' ∷ rest,
  ap (λ x. b'"' ∷ x) (append_assoc (escape_special a) (b'"' ∷ []) (b']' ∷ rest)),
  read-escape_special l a (b']' ∷ rest) g,
)
ottl_list-IsItems l (a ∷ b ∷ items) rest (g, h) =
    let items_text = join (map ottl_string (b ∷ items)) (bytes ", ") in
    (
      escape_special a ++ b'"' ∷ b',' ∷ b' ' ∷ (items_text ++ b']' ∷ rest),
      items_text ++ b']' ∷ rest,
      ap (λ x. b'"' ∷ x)
          (regroup (escape_special a) (b'"' ∷ []) (b',' ∷ b' ' ∷ []) items_text (b']' ∷ rest)),
      read-escape_special l a (b',' ∷ b' ' ∷ (items_text ++ b']' ∷ rest)) g,
      ottl_list-IsItems l (b ∷ items) rest h,
    )

kept_keys-IsGraphic :
    (allowed : List Text) (claims : List KeyValue)
    → All (λ s. control s ≡ false) allowed
    → All (λ s. control s ≡ false) (kept_keys allowed claims)
unfolding kept_keys
kept_keys-IsGraphic [] claims h = tt
kept_keys-IsGraphic (key ∷ allowed) claims (g, h) = elim (Bool-cases (identity_key key claims)) [
  | inl e ↦ rw (e, kept_keys) (kept_keys-IsGraphic allowed claims h)
  | inr e ↦ rw (e, kept_keys) (g, kept_keys-IsGraphic allowed claims h)
]

and_not : (a b : Bool) → (a && not b ≡ true) ↔ ((a ≡ true) × (b ≡ false))
and_not true true = ground arith
and_not true false = ground arith
and_not false b = ground arith

and_false : (b : Bool) → (b && false) ≡ false
and_false true = refl
and_false false = refl

contains-kept_keys :
    (allowed : List Text) (claims : List KeyValue) (key : Text)
    → contains (kept_keys allowed claims) key
      ≡ (contains allowed key && not (identity_key key claims))
unfolding kept_keys contains
contains-kept_keys [] claims key = refl
contains-kept_keys (k ∷ allowed) claims key =
    let ih = contains-kept_keys allowed claims key in
    elim (Bool-cases (identity_key k claims)) [
      | inl e ↦ elim (Bool-cases (k == key)) [
        | inl same ↦
            let found = ap (λ x. identity_key x claims) (sym ((==_iff k key).0 same)) ∙ e in
            rw (e, same, kept_keys)
              (ih ∙ rw found (and_false (contains allowed key)) ∙ sym (ap not found))
        | inr differ ↦ rw (e, differ, kept_keys) ih
      ]
      | inr e ↦ elim (Bool-cases (k == key)) [
        | inl same ↦
            let found = ap (λ x. identity_key x claims) (sym ((==_iff k key).0 same)) ∙ e in
            rw (e, same, found, kept_keys, contains)
        | inr differ ↦ rw (e, differ, kept_keys, contains) ih
      ]
    ]

-- A key that may not be kept: a claim's attribute, or one whose prefix marks an identity.
identity_key-false_iff :
    (key : Text) (claims : List KeyValue)
    → (identity_key key claims ≡ false) ↔ (
        (any (λ kv. kv.value == key) claims ≡ false)
        × (has_prefix key (bytes "user.") ≡ false)
        × (has_prefix key (bytes "session.") ≡ false)
        × (has_prefix key (bytes "enduser.") ≡ false))
unfolding identity_key
identity_key-false_iff key claims = ground arith

-- The statement for datapoints, with allowed keys that have no control character, reads as the list
-- of the keys to keep, after which only the closing bracket is left. A key is in that list exactly
-- if it is allowed, no claim sets it, and it starts with none of user., session. and enduser..
pub metric_keep_keys-kept :
    (l : Literals) (allowed : List Text) (claims : List KeyValue) (key : Text)
    → All (λ s. control s ≡ false) allowed
    → ((text : Text) × (metric_keep_keys allowed claims
          ≡ bytes "keep_keys(datapoint.attributes, [" ++ text)
        × IsItems l (kept_keys allowed claims) text (bytes ")"))
      × ((contains (kept_keys allowed claims) key ≡ true) ↔ (
          (contains allowed key ≡ true)
          × (any (λ kv. kv.value == key) claims ≡ false)
          × (has_prefix key (bytes "user.") ≡ false)
          × (has_prefix key (bytes "session.") ≡ false)
          × (has_prefix key (bytes "enduser.") ≡ false)))
unfolding metric_keep_keys ottl_list bytes
metric_keep_keys-kept l allowed claims key h =
    let items_text = join (map ottl_string (kept_keys allowed claims)) (bytes ", ") in
    let allowed_iff = and_not (contains allowed key) (identity_key key claims) in
    let free_iff = identity_key-false_iff key claims in
    (
      (
        items_text ++ b']' ∷ bytes ")",
        ap (λ x. bytes "keep_keys(datapoint.attributes, [" ++ x)
            (append_assoc items_text (b']' ∷ []) (bytes ")")),
        ottl_list-IsItems l (kept_keys allowed claims) (bytes ")")
            (kept_keys-IsGraphic allowed claims h),
      ),
      rw (contains-kept_keys allowed claims key) (
        λ kept.
            let (a, free) = allowed_iff.0 kept in
            let (t, u, v, w) = free_iff.0 free in (a, t, u, v, w),
        λ (a, t, u, v, w). allowed_iff.1 (a, free_iff.1 (t, u, v, w)),
      ),
    )
