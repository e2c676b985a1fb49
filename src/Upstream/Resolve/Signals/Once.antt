-- ===== src/Upstream/Resolve/Signals/Once.antt =====
-- internal/upstream/resolve.go: every fault is reported, and none of them twice.
use otlp_collector_oidc.Prelude.{
  Text, contains, contains-append, List, [], ◌∷◌, ◌++◌, map, true, false, ◌≡◌, ◌≢◌, refl, sym, ap,
  ◌∙◌, inl, inr, arith, Bool-cases, eqb, length,
}
use otlp_collector_oidc.Prelude.Ordered.Laws.{IsDistinct, IsDistinct-concat}
use otlp_collector_oidc.Upstream.Enums.{Signal}
use otlp_collector_oidc.Upstream.Variables.{Fault, fault_text}
use otlp_collector_oidc.Upstream.Resolve.{Lookup, Resolver, new_resolver, Library, fail}
use otlp_collector_oidc.Upstream.Resolve.Signals.{
  resolve_signal, resolve_signals, Configs, resolve, joined, keep,
}
use otlp_collector_oidc.Upstream.Resolve.Signals.Reports.{
  Reaches, stays, reports, notes, resolve_signal-Reaches, across-Reaches,
}

concat_ne : {A : Type 0} (xs : List A) (x : A) → xs ++ x ∷ [] ≢ []
concat_ne [] x h = cc
concat_ne (y ∷ xs) x h = cc

map-concat :
    {A : Type 0} (f : A → Text) (xs : List A) (x : A) → map f (xs ++ x ∷ []) ≡ map f xs ++ f x ∷ []
map-concat f [] x = refl
map-concat f (y ∷ xs) x = ap (λ ys. f y ∷ ys) (map-concat f xs x)

found_ne : (f : Fault → Text) (xs : List Fault) (t : Text) → contains (map f xs) t ≡ true → xs ≢ []
unfolding contains
found_ne f [] t h e = cc
found_ne f (x ∷ xs) t h e = cc

contains-concat :
    (ks seen : List Text) (key t : Text)
    → contains seen t ≡ contains ks t
    → contains (key ∷ seen) t ≡ contains (ks ++ key ∷ []) t
unfolding contains
contains-concat ks seen key t h = rw (contains-append ks (key ∷ []) t) (ground (arith, h))

module _ (lib : Library) where
  abbrev pub texts : Resolver → List Text
  texts r = map (fault_text lib.quote) r.errs

  -- What the resolver keeps of its fields.
  pub record IsOrderly (r : Resolver) : Type 0 where
    pub seen : (t : Text) → contains r.seen t ≡ contains (texts r) t
    pub distinct : IsDistinct (texts r)
    pub reported : r.faulted ≡ true → r.errs ≢ []

  fail-IsOrderly : (r : Resolver) (e : Fault) → IsOrderly r → IsOrderly (fail lib r e)
  unfolding fail
  fail-IsOrderly r e inv = elim (Bool-cases (contains r.seen (fault_text lib.quote e))) [
    | inl old ↦ rw old (record {
      seen = inv.seen;
      distinct = inv.distinct;
      reported = λ _.
          found_ne (fault_text lib.quote) r.errs (fault_text lib.quote e) (sym (inv.seen _) ∙ old);
    })
    | inr new ↦ rw new (record {
      seen = λ t.
          rw (map-concat (fault_text lib.quote) r.errs e)
            (contains-concat (texts r) r.seen (fault_text lib.quote e) t (inv.seen t));
      distinct = rw (map-concat (fault_text lib.quote) r.errs e) (
          IsDistinct-concat (texts r) (fault_text lib.quote e) inv.distinct
            (sym (inv.seen _) ∙ new));
      reported = λ _. concat_ne r.errs e;
    })
  ]

  pub Reaches-IsOrderly : {r s : Resolver} → Reaches lib r s → IsOrderly r → IsOrderly s
  Reaches-IsOrderly (stays _) inv = inv
  Reaches-IsOrderly (reports _ s e steps) inv = fail-IsOrderly s e (Reaches-IsOrderly steps inv)
  Reaches-IsOrderly (notes _ s x y steps) inv =
      let before = Reaches-IsOrderly steps inv in
      record { seen = before.seen; distinct = before.distinct; reported = before.reported }

  pub fail-faulted : (r : Resolver) (e : Fault) → (fail lib r e).faulted ≡ true
  unfolding fail
  fail-faulted r e = elim (Bool-cases (contains r.seen (fault_text lib.quote e))) [
    | inl a ↦ rw a
    | inr a ↦ rw a
  ]

  fail_ne : (r : Resolver) (e : Fault) → IsOrderly r → (fail lib r e).errs ≢ []
  fail_ne r e inv = (fail-IsOrderly r e inv).reported (fail-faulted r e)

  -- Errors are never taken back.
  pub Reaches-nil :
      {r s : Resolver}
      → Reaches lib r s
      → IsOrderly r
      → s.errs ≡ []
      → (r.errs ≡ []) × (s.faulted ≡ r.faulted)
  Reaches-nil (stays _) inv h = (h, refl)
  Reaches-nil (notes _ s x y steps) inv h = Reaches-nil steps inv h
  Reaches-nil (reports _ s e steps) inv h = absurd (fail_ne s e (Reaches-IsOrderly steps inv) h)

  pub start-IsOrderly : (r : Resolver) → IsOrderly r → IsOrderly (record r { faulted = false })
  start-IsOrderly r inv = record { seen = inv.seen; distinct = inv.distinct; reported = λ h. cc }

  pub resolve_signals-IsOrderly :
      (sigs : List Signal) (r : Resolver) (lookup : Lookup) (out : Configs)
      → IsOrderly r
      → IsOrderly (resolve_signals lib r lookup out sigs).0
  unfolding resolve_signals
  resolve_signals-IsOrderly [] r lookup out inv = inv
  resolve_signals-IsOrderly (sig ∷ sigs) r lookup out inv =
      let (s, c) = resolve_signal lib r lookup sig in
      resolve_signals-IsOrderly sigs s lookup (keep lib sig c out)
        (Reaches-IsOrderly (resolve_signal-Reaches lib r lookup sig) (start-IsOrderly r inv))

  pub joined-errs : (errs : List Fault) (out : Configs) → (joined lib errs out).1 ≡ errs
  unfolding joined
  joined-errs [] out = refl
  joined-errs (e ∷ errs) out = refl

  pub new_resolver-IsOrderly : IsOrderly new_resolver
  unfolding new_resolver contains
  new_resolver-IsOrderly = record { seen = λ t. refl; distinct = tt; reported = λ h. cc }

  -- The errors of a resolution have texts that differ, each from all the others, whatever the
  -- variables and the signals are.
  pub resolve-IsDistinct :
      (lookup : Lookup) (sigs : List Signal)
      → IsDistinct (map (fault_text lib.quote) (resolve lib lookup sigs).1)
  unfolding resolve
  resolve-IsDistinct lookup sigs =
      let (r, out) = resolve_signals lib new_resolver lookup [] sigs in
      let inv = resolve_signals-IsOrderly sigs new_resolver lookup [] new_resolver-IsOrderly in
      rw (joined-errs _ out)
        (Reaches-IsOrderly (across-Reaches lib r lookup (eqb (length out) (length sigs)))
          inv).distinct
