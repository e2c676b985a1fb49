-- ===== src/Upstream/Headers/Encoding.antt =====
-- internal/upstream/config.go: the comparable form of a header list, and the list again.
use otlp_collector_oidc.Prelude.{
  less, ◌≡◌, ◌≢◌, refl, ap, Text, bytes, List, [], ◌∷◌, ◌++◌, map, true, false, Bool-cases, inl,
  inr, All, All-append, split, join, Free, cut_of_Free, arith, is_empty, ℕ,
}
use mathlib.Core.List.{Perm, append_assoc}
use mathlib.Core.List.Perm
use otlp_collector_oidc.Prelude.Escape.{query_escape}
use otlp_collector_oidc.Prelude.Escape.Laws.{
  IsOctet, IsInner, query_escape-All, unescape-query_escape,
}
use otlp_collector_oidc.Upstream.Headers.{
  Header, sort, insert_header, encode_pair, new_headers, decode_pair, pairs, redact, redacted,
}

-- A header of bytes, which every string of the program is.
abbrev pub IsHeader : Header → Type 0
IsHeader h = All IsOctet h.name × All IsOctet h.value

inner-Free : (s : Text) → All IsInner s → Free b'&' s × Free b'=' s
inner-Free [] h = (tt, tt)
inner-Free (c ∷ s) ((p, q), h) = let (f, g) = inner-Free s h in ((p, f), (q, g))

decode-encode_pair : (p : Header) → IsHeader p → decode_pair (encode_pair p) ≡ p
unfolding decode_pair encode_pair
decode-encode_pair p (hn, hv) =
    let (_, f) = inner-Free (query_escape p.name) (query_escape-All p.name hn) in
    rw (
      cut_of_Free b'=' (query_escape p.name) (query_escape p.value) f,
      unescape-query_escape p.name hn,
      unescape-query_escape p.value hv,
    )

encode_pair-Free : (p : Header) → IsHeader p → Free b'&' (encode_pair p)
unfolding encode_pair
encode_pair-Free p (hn, hv) =
    let (f, _) = inner-Free (query_escape p.name) (query_escape-All p.name hn) in
    let (g, _) = inner-Free (query_escape p.value) (query_escape-All p.value hv) in
    All-append (λ c. c ≢ b'&') (query_escape p.name) (b'=' ∷ query_escape p.value) f
      ((λ e. omega (arith, e)), g)

split_of_Free : (sep : ℕ) (s : Text) → Free sep s → split sep s ≡ s ∷ []
unfolding split
split_of_Free sep [] h = refl
split_of_Free sep (c ∷ s) (n, h) = ground (arith, split_of_Free sep s h)

split-append : (sep : ℕ) (s t : Text) → Free sep s → split sep (s ++ sep ∷ t) ≡ s ∷ split sep t
unfolding split
split-append sep [] t h = ground arith
split-append sep (c ∷ s) t (n, h) = ground (arith, split-append sep s t h)

split-join :
    (p : Header) (ps : List Header)
    → All IsHeader (p ∷ ps)
    → split b'&' (join (map encode_pair (p ∷ ps)) (b'&' ∷ [])) ≡ map encode_pair (p ∷ ps)
unfolding join
split-join p [] (hp, _) = split_of_Free b'&' (encode_pair p) (encode_pair-Free p hp)
split-join p (q ∷ ps) (hp, h) = rw (
  append_assoc (encode_pair p) (b'&' ∷ []) (join (map encode_pair (q ∷ ps)) (b'&' ∷ [])),
  split-append b'&' (encode_pair p) (join (map encode_pair (q ∷ ps)) (b'&' ∷ []))
      (encode_pair-Free p hp),
  split-join q ps h,
)

decode-encode : (ps : List Header) → All IsHeader ps → map decode_pair (map encode_pair ps) ≡ ps
decode-encode [] h = refl
decode-encode (p ∷ ps) (hp, h) = rw (decode-encode_pair p hp, decode-encode ps h)

is_empty-append : (s : Text) (c : ℕ) (t : Text) → is_empty (s ++ c ∷ t) ≡ false
is_empty-append [] c t = refl
is_empty-append (x ∷ s) c t = refl

join_ne :
    (p : Header) (ps : List Header) → is_empty (join (map encode_pair (p ∷ ps)) (b'&' ∷ [])) ≡ false
unfolding join encode_pair
join_ne p [] = is_empty-append (query_escape p.name) b'=' (query_escape p.value)
join_ne p (q ∷ ps) =
    rw (append_assoc (encode_pair p) (b'&' ∷ []) (join (map encode_pair (q ∷ ps)) (b'&' ∷ [])))
      (is_empty-append (encode_pair p) b'&' _)

pairs-join :
    (ps : List Header) → All IsHeader ps → pairs (join (map encode_pair ps) (b'&' ∷ [])) ≡ ps
unfolding pairs join
pairs-join [] h = refl
pairs-join (p ∷ ps) h = rw (join_ne p ps, split-join p ps h, decode-encode (p ∷ ps) h)

All-insert_header :
    (P : Header → Type 0) (h : Header) (hs : List Header)
    → P h
    → All P hs
    → All P (insert_header h hs)
unfolding insert_header
All-insert_header P h [] p q = (p, tt)
All-insert_header P h (g ∷ gs) p (pg, q) = elim (Bool-cases (less g.name h.name)) [
  | inl e ↦ rw e (pg, All-insert_header P h gs p q)
  | inr e ↦ rw e (p, (pg, q))
]

pub All-sort : (P : Header → Type 0) (hs : List Header) → All P hs → All P (sort hs)
unfolding sort
All-sort P [] q = tt
All-sort P (h ∷ hs) (p, q) = All-insert_header P h (sort hs) p (All-sort P hs q)

pub pairs-new_headers_lem : (ps : List Header) → All IsHeader ps → pairs (new_headers ps) ≡ sort ps
unfolding new_headers
pairs-new_headers_lem ps h = pairs-join (sort ps) (All-sort IsHeader ps h)

insert_header-Perm : (h : Header) (hs : List Header) → Perm (insert_header h hs) (h ∷ hs)
unfolding insert_header
insert_header-Perm h [] = Perm.refl (h ∷ [])
insert_header-Perm h (g ∷ gs) = elim (Bool-cases (less g.name h.name)) [
  | inl e ↦ rw e (Perm.trans (Perm.cons g (insert_header-Perm h gs)) (Perm.swap h g gs))
  | inr e ↦ rw e (Perm.refl (h ∷ g ∷ gs))
]

sort-Perm : (hs : List Header) → Perm (sort hs) hs
unfolding sort
sort-Perm [] = Perm.nil
sort-Perm (h ∷ hs) = Perm.trans (insert_header-Perm h (sort hs)) (Perm.cons h (sort-Perm hs))

-- Each name is not after the next.
abbrev pub IsSorted : List Header → Type 0
IsSorted [] = Unit
IsSorted (h ∷ []) = Unit
IsSorted (h ∷ g ∷ gs) = (less g.name h.name ≡ false) × IsSorted (g ∷ gs)

less_asymm : (s t : Text) → less s t ≡ true → less t s ≡ false
unfolding less
less_asymm [] [] h = refl
less_asymm [] (y ∷ ys) h = refl
less_asymm (x ∷ xs) [] h = cc
less_asymm (x ∷ xs) (y ∷ ys) h = ground (arith, less_asymm xs ys)

insert_header-IsSorted :
    (h : Header) (hs : List Header) → IsSorted hs → IsSorted (insert_header h hs)
unfolding insert_header
insert_header-IsSorted h [] s = tt
insert_header-IsSorted h (g ∷ []) s = elim (Bool-cases (less g.name h.name)) [
  | inl e ↦ rw e (less_asymm g.name h.name e, tt)
  | inr e ↦ rw e (e, tt)
]
insert_header-IsSorted h (g ∷ f ∷ fs) (s, t) =
    let rest = insert_header-IsSorted h (f ∷ fs) t in
    elim (Bool-cases (less g.name h.name)) [
      | inl e ↦ elim (Bool-cases (less f.name h.name)) [
        | inl d ↦ rw (e, d) (s, (rw (insert_header, d) at rest))
        | inr d ↦ rw (e, d) (less_asymm g.name h.name e, (d, t))
      ]
      | inr e ↦ rw e (e, (s, t))
    ]

sort-IsSorted : (hs : List Header) → IsSorted (sort hs)
unfolding sort
sort-IsSorted [] = tt
sort-IsSorted (h ∷ hs) = insert_header-IsSorted h (sort hs) (sort-IsSorted hs)

-- The comparable form of a header list loses nothing but the order: its pairs are the list's,
-- sorted by name.
pub pairs-new_headers :
    (ps : List Header)
    → All IsHeader ps
    → Perm (pairs (new_headers ps)) ps × IsSorted (pairs (new_headers ps))
pairs-new_headers ps h = rw (pairs-new_headers_lem ps h) (sort-Perm ps, sort-IsSorted ps)

redact-IsHeader : (p : Header) → IsHeader p → IsHeader (redact p)
unfolding redact bytes
redact-IsHeader p (hn, hv) = (hn, omega arith)

All-redact : (ps : List Header) → All IsHeader ps → All IsHeader (map redact ps)
All-redact [] h = tt
All-redact (p ∷ ps) (hp, h) = (redact-IsHeader p hp, All-redact ps h)

-- Every value of a redacted list says so.
abbrev pub IsRedacted : Header → Type 0
IsRedacted p = p.value ≡ bytes "<redacted>"

redact-IsRedacted : (ps : List Header) → All IsRedacted (map redact ps)
unfolding redact
redact-IsRedacted [] = tt
redact-IsRedacted (p ∷ ps) = (refl, redact-IsRedacted ps)

pub names-redact : (ps : List Header) → map (λ r. r.name) (map redact ps) ≡ map (λ p. p.name) ps
unfolding redact
names-redact [] = refl
names-redact (p ∷ ps) = ap (λ ns. p.name ∷ ns) (names-redact ps)

-- A redacted list of headers of bytes has the names of the list, each as often, and no value of it.
pub pairs-redacted :
    (ps : List Header)
    → All IsHeader ps
    → let rs = pairs (redacted (new_headers ps)) in
      All IsRedacted rs × Perm (map (λ r. r.name) rs) (map (λ p. p.name) ps)
unfolding redacted
pairs-redacted ps h =
    rw
      (
        pairs-new_headers_lem ps h,
        pairs-new_headers_lem (map redact (sort ps))
            (All-redact (sort ps) (All-sort IsHeader ps h)),
      )
      (
        All-sort IsRedacted (map redact (sort ps)) (redact-IsRedacted (sort ps)),
        Perm.trans (Perm.map (λ r. r.name) (sort-Perm (map redact (sort ps))))
            (rw (names-redact (sort ps)) (Perm.map (λ p. p.name) (sort-Perm ps))),
      )
