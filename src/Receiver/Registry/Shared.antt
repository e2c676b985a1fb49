-- ===== src/Receiver/Registry/Shared.antt =====
-- The pipelines of one configuration share one receiver.
pub mod Calls
use otlp_collector_oidc.Prelude.{
  ◌≡◌, ◌≢◌, ◌<◌, refl, sym, ap, ◌∙◌, subst, ℕ, ◌+◌, Text, List, [], ◌∷◌, Option, none, some,
  if◌then◌else◌, Bool, true, false, ltb, ltb→lt, eqb, eqb_iff, Bool-cases, inl, inr, arith,
}
use otlp_collector_oidc.Prelude.Result.{Result, ok, err}
use otlp_collector_oidc.Receiver.Registry.{
  Opening, SharedReceiver, Registry, start_port, shutdown_port, start_once, start_shared,
  new_shared, new_registry, find, delete, assign, load_found, load, register_path, route_registered,
  create, start, shutdown_once, shutdown, Call, creates, starts, shuts_down, call, calls,
}

-- The registry has the receivers that were made and not shut down, each under its configuration.
record IsKept (l : List (ℕ × ℕ)) (made : ℕ → SharedReceiver) (n : ℕ) : Type 0 where
  live :
      (cfg ref : ℕ)
      → find cfg l ≡ some ref
      → (ref < n) × ((made ref).config ≡ cfg) × ((made ref).stopped ≡ none)
  kept : (ref : ℕ) → ref < n → (made ref).stopped ≡ none → find (made ref).config l ≡ some ref

same-IsKept :
    (l : List (ℕ × ℕ)) (made made' : ℕ → SharedReceiver) (n : ℕ)
    → ((k : ℕ) → (made' k).config ≡ (made k).config)
    → ((k : ℕ) → (made' k).stopped ≡ (made k).stopped)
    → IsKept l made n
    → IsKept l made' n
same-IsKept l made made' n c s w = record {
  live = λ cfg ref f. let (a, b, d) = w.live cfg ref f in (a, c ref ∙ b, s ref ∙ d);
  kept = λ ref h d. ap (λ x. find x l) (c ref) ∙ w.kept ref h (sym (s ref) ∙ d);
}

assign-config :
    (made : ℕ → SharedReceiver) (ref : ℕ) (s : SharedReceiver) (k : ℕ)
    → s.config ≡ (made ref).config
    → (assign made ref s k).config ≡ (made k).config
unfolding assign
assign-config made ref s k h = elim (Bool-cases (eqb k ref)) [
  | inl e ↦ rw e (h ∙ ap (λ x. (made x).config) (sym ((eqb_iff k ref).0 e)))
  | inr e ↦ rw e
]

assign-stopped :
    (made : ℕ → SharedReceiver) (ref : ℕ) (s : SharedReceiver) (k : ℕ)
    → s.stopped ≡ (made ref).stopped
    → (assign made ref s k).stopped ≡ (made k).stopped
unfolding assign
assign-stopped made ref s k h = elim (Bool-cases (eqb k ref)) [
  | inl e ↦ rw e (h ∙ ap (λ x. (made x).stopped) (sym ((eqb_iff k ref).0 e)))
  | inr e ↦ rw e
]

assign-IsKept :
    (l : List (ℕ × ℕ)) (made : ℕ → SharedReceiver) (n ref : ℕ) (s : SharedReceiver)
    → s.config ≡ (made ref).config
    → s.stopped ≡ (made ref).stopped
    → IsKept l made n
    → IsKept l (assign made ref s) n
assign-IsKept l made n ref s c d w =
    same-IsKept l made (assign made ref s) n (λ k. assign-config made ref s k c)
      (λ k. assign-stopped made ref s k d) w

assign_other :
    (made : ℕ → SharedReceiver) (ref : ℕ) (s : SharedReceiver) (k : ℕ)
    → k ≢ ref
    → assign made ref s k ≡ made k
unfolding assign
assign_other made ref s k n = elim (Bool-cases (eqb k ref)) [
  | inl e ↦ absurd (n ((eqb_iff k ref).0 e))
  | inr e ↦ rw e
]

assign_same : (made : ℕ → SharedReceiver) (ref : ℕ) (s : SharedReceiver) → assign made ref s ref ≡ s
unfolding assign
assign_same made ref s = rw ((eqb_iff ref ref).1 refl)

find-delete_same : (cfg : ℕ) (l : List (ℕ × ℕ)) → find cfg (delete cfg l) ≡ none
unfolding find delete
find-delete_same cfg [] = refl
find-delete_same cfg ((c, ref) ∷ l) = elim (Bool-cases (eqb c cfg)) [
  | inl e ↦ rw (e, delete) (find-delete_same cfg l)
  | inr e ↦ rw (e, delete, find) (rw e (find-delete_same cfg l))
]

find-delete_other :
    (cfg other : ℕ) (l : List (ℕ × ℕ)) → cfg ≢ other → find other (delete cfg l) ≡ find other l
unfolding find delete
find-delete_other cfg other [] n = refl
find-delete_other cfg other ((c, ref) ∷ l) n = elim (Bool-cases (eqb c cfg)) [
  | inl e ↦
      let f = other_key c cfg other ((eqb_iff c cfg).0 e) n in
      rw (e, delete, f) (find-delete_other cfg other l n)
  | inr e ↦ elim (Bool-cases (eqb c other)) [
    | inl f ↦ rw (e, delete, find, f)
    | inr f ↦ rw (e, delete, find, f) (find-delete_other cfg other l n)
  ]
]
  where
    other_key : (c cfg other : ℕ) → c ≡ cfg → cfg ≢ other → eqb c other ≡ false
    other_key c cfg other e n = ground arith

some_number : {A : Type 0} {a b : A} → some a ≡ some b → a ≡ b
some_number h = ground arith

no_number : {A : Type 0} {a : A} → none ≢ some a
no_number = λ h. ground arith

false-true : false ≢ true
false-true = λ h. cc

less_of : (n k : ℕ) → k < n + 1 → eqb k n ≡ false → k < n
less_of n k h e = ground arith

not_first :
    (cfg n c ref : ℕ) (l : List (ℕ × ℕ))
    → find cfg l ≡ none
    → find c l ≡ some ref
    → find c ((cfg, n) ∷ l) ≡ some ref
unfolding find
not_first cfg n c ref l free there = elim (Bool-cases (eqb cfg c)) [
  | inl e ↦ absurd (no_number (sym free ∙ ap (λ x. find x l) ((eqb_iff cfg c).0 e) ∙ there))
  | inr e ↦ rw e there
]

-- A new receiver, where the configuration has none.
add-IsKept :
    (l : List (ℕ × ℕ)) (made : ℕ → SharedReceiver) (n cfg : ℕ)
    → find cfg l ≡ none
    → IsKept l made n
    → IsKept ((cfg, n) ∷ l) (assign made n (new_shared cfg)) (n + 1)
unfolding find new_shared
add-IsKept l made n cfg free w = record {
  live = λ c ref f. elim (Bool-cases (eqb cfg c)) [
    | inl e ↦
        let same : n ≡ ref = some_number (rw (e, find) at f) in
        subst
          (λ k.
            (k < n + 1)
            × ((assign made n (new_shared cfg) k).config ≡ c)
            × ((assign made n (new_shared cfg) k).stopped ≡ none))
          same
          (
            omega arith,
            ap (λ x. x.config) (assign_same made n (new_shared cfg)) ∙ (eqb_iff cfg c).0 e,
            ap (λ x. x.stopped) (assign_same made n (new_shared cfg)),
          )
    | inr e ↦
        let (a, b, d) = w.live c ref (rw (e, find) at f) in
        let old = assign_other made n (new_shared cfg) ref (λ x. omega (arith, a, x)) in
        (omega (arith, a), ap (λ x. x.config) old ∙ b, ap (λ x. x.stopped) old ∙ d)
  ];
  kept = λ ref h d. elim (Bool-cases (eqb ref n)) [
    | inl e ↦
        subst (λ k. find (assign made n (new_shared cfg) k).config ((cfg, n) ∷ l) ≡ some k)
          (sym ((eqb_iff ref n).0 e))
          (ap (λ x. find x.config ((cfg, n) ∷ l)) (assign_same made n (new_shared cfg))
            ∙ rw ((eqb_iff cfg cfg).1 refl))
    | inr e ↦
        let old =
          assign_other made n (new_shared cfg) ref
            (λ x. false-true (sym e ∙ (eqb_iff ref n).1 x)) in
        let there = w.kept ref (less_of n ref h e) (ap (λ x. x.stopped) (sym old) ∙ d) in
        ap (λ x. find x.config ((cfg, n) ∷ l)) old
        ∙ not_first cfg n (made ref).config ref l free there
  ];
}

-- The first shutdown of a receiver.
remove-IsKept :
    (l : List (ℕ × ℕ)) (made : ℕ → SharedReceiver) (n ref : ℕ) (s : SharedReceiver)
    (e : Option Text)
    → ref < n
    → (made ref).stopped ≡ none
    → s.stopped ≡ some e
    → IsKept l made n
    → IsKept (delete (made ref).config l) (assign made ref s) n
remove-IsKept l made n ref s e h d t w = record {
  live = λ c k f. elim (Bool-cases (eqb (made ref).config c)) [
    | inl g ↦
        let gone =
          ap (λ x. find x (delete (made ref).config l)) (sym ((eqb_iff (made ref).config c).0 g))
          ∙ find-delete_same (made ref).config l in
        absurd (no_number (sym gone ∙ f))
    | inr g ↦
        let apart : (made ref).config ≢ c =
          λ x. false-true (sym g ∙ (eqb_iff (made ref).config c).1 x) in
        let (a, b, u) = w.live c k (sym (find-delete_other (made ref).config c l apart) ∙ f) in
        let old = assign_other made ref s k (λ x. apart (ap (λ y. (made y).config) (sym x) ∙ b)) in
        (a, ap (λ x. x.config) old ∙ b, ap (λ x. x.stopped) old ∙ u)
  ];
  kept = λ k a u. elim (Bool-cases (eqb k ref)) [
    | inl g ↦
        let same = ap (assign made ref s) ((eqb_iff k ref).0 g) ∙ assign_same made ref s in
        absurd (no_number (sym u ∙ ap (λ x. x.stopped) same ∙ t))
    | inr g ↦
        let n' : k ≢ ref = λ x. false-true (sym g ∙ (eqb_iff k ref).1 x) in
        let old = assign_other made ref s k n' in
        let there = w.kept k a (ap (λ x. x.stopped) (sym old) ∙ u) in
        let apart : (made ref).config ≢ (made k).config =
          λ x. n' (some_number (sym there ∙ ap (λ y. find y l) (sym x) ∙ w.kept ref h d)) in
        ap (λ x. find x.config (delete (made ref).config l)) old
        ∙ find-delete_other (made ref).config (made k).config l apart
        ∙ there
  ];
}
