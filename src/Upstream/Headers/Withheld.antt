-- ===== src/Upstream/Headers/Withheld.antt =====
-- internal/upstream/config.go: what the names of a header list decide.
use otlp_collector_oidc.Prelude.{
  less, ◌≡◌, refl, sym, ap, ◌∙◌, Text, bytes, List, [], ◌∷◌, map, Bool-cases, inl, inr, All,
}
use otlp_collector_oidc.Upstream.Headers.{
  Header, sort, insert_header, new_headers, redact, redacted, names,
}
use otlp_collector_oidc.Upstream.Headers.Encoding.{IsHeader, pairs-new_headers_lem, names-redact}

insert_header-redact :
    (h : Header) (hs : List Header)
    → map redact (insert_header h hs) ≡ insert_header (redact h) (map redact hs)
unfolding insert_header redact
insert_header-redact h [] = refl
insert_header-redact h (g ∷ gs) = elim (Bool-cases (less g.name h.name)) [
  | inl e ↦ rw (e, insert_header-redact h gs) refl
  | inr e ↦ rw e refl
]

sort-redact : (hs : List Header) → map redact (sort hs) ≡ sort (map redact hs)
unfolding sort
sort-redact [] = refl
sort-redact (h ∷ hs) =
    insert_header-redact h (sort hs) ∙ ap (insert_header (redact h)) (sort-redact hs)

abbrev blank : Text → Header
blank n = record { name = n; value = bytes "<redacted>" }

redact_of_names : (ps : List Header) → map redact ps ≡ map blank (map (λ p. p.name) ps)
unfolding redact
redact_of_names [] = refl
redact_of_names (p ∷ ps) = ap (λ rs. blank p.name ∷ rs) (redact_of_names ps)

-- Two lists of headers of bytes whose names are the same, one by one.
abbrev pub HaveSameNames : List Header → List Header → Type 0
HaveSameNames ps qs =
    All IsHeader ps × All IsHeader qs × map (λ p. p.name) ps ≡ map (λ q. q.name) qs

sort-alike :
    (ps qs : List Header) → HaveSameNames ps qs → map redact (sort ps) ≡ map redact (sort qs)
sort-alike ps qs (_, _, e) =
    sort-redact ps
    ∙ ap sort (redact_of_names ps ∙ ap (map blank) e ∙ sym (redact_of_names qs))
    ∙ sym (sort-redact qs)

pub redacted-alike :
    (ps qs : List Header)
    → HaveSameNames ps qs
    → redacted (new_headers ps) ≡ redacted (new_headers qs)
unfolding redacted
redacted-alike ps qs (hp, hq, e) =
    rw (pairs-new_headers_lem ps hp, pairs-new_headers_lem qs hq)
      (ap new_headers (sort-alike ps qs (hp, hq, e)))

pub names-alike :
    (ps qs : List Header) → HaveSameNames ps qs → names (new_headers ps) ≡ names (new_headers qs)
unfolding names
names-alike ps qs (hp, hq, e) =
    rw (pairs-new_headers_lem ps hp, pairs-new_headers_lem qs hq)
      (sym (names-redact (sort ps))
        ∙ ap (map (λ r. r.name)) (sort-alike ps qs (hp, hq, e))
        ∙ names-redact (sort qs))
