-- ===== src/Render/Tests/Disk.antt =====
-- The rendered file on a disk in memory.
use otlp_collector_oidc.Prelude.{
  ◌≡◌, ◌≢◌, ◌⊎◌, refl, sym, ap, ◌∙◌, ℕ, ◌+◌, Text, bytes, ◌==◌, ==_refl, [], ◌++◌, Option, none,
  some, if◌then◌else◌, ltb, eqb, eqb_iff, Bool-cases, inl, inr, arith,
}
use otlp_collector_oidc.Render.Run.Exclusive.{
  removed, not_removed, Opened, opened, not_opened, Files, write_exclusive,
}
use otlp_collector_oidc.Render.Run.Exclusive.Laws.{
  FilesLaws, IsWritten, masked, write_exclusive-kept,
}

-- Files that are numbered in the order in which they were made.
record Disk : Type 0 where
  next : ℕ
  entry : Text → Option ℕ
  data_of : ℕ → ℕ × Text

contents : Disk → ℕ → Option (ℕ × Text)
contents d f = if ltb f d.next then some (d.data_of f) else none

-- 0o022.
abbrev mask : ℕ
mask = 18

made : Disk → Text → ℕ → Disk
made d path mode = record {
  next = d.next + 1;
  entry = λ p. if path == p then some d.next else d.entry p;
  data_of = λ f. if eqb f d.next then (masked 9 mode mask, []) else d.data_of f;
}

open_new : Disk → Text → ℕ → Option ℕ → Disk × Opened
unfolding made
open_new d path mode none = (made d path mode, opened d.next)
open_new d path mode (some f) = (d, not_opened (bytes "file exists"))

added : Disk → ℕ → Text → Disk
added d f text = record d {
  data_of = λ g. if eqb g f then ((d.data_of f).0, (d.data_of f).1 ++ text) else d.data_of g;
}

abbrev disks : Files
disks = record {
  State = Disk;
  remove = λ d path. (record d { entry = λ p. if path == p then none else d.entry p }, removed);
  open_exclusive = λ d path mode. open_new d path mode (d.entry path);
  write = λ d f text. (added d f text, none);
  close = λ d f. (d, none);
}

some_same : {A : Type 0} {a b : A} → some a ≡ some b → a ≡ b
some_same h = ground arith

none-some : {A : Type 0} {a : A} → none ≢ some a
none-some = λ h. ground arith

opened_same : {m n : ℕ} → opened m ≡ opened n → m ≡ n
opened_same h = ground arith

made-laws :
    (d : Disk) (path : Text) (mode : ℕ)
    → (contents d d.next ≡ none)
      × ((made d path mode).entry path ≡ some d.next)
      × (contents (made d path mode) d.next ≡ some (masked 9 mode mask, []))
unfolding contents made
made-laws d path mode = (ground arith, rw (==_refl path), ground arith)

made-other :
    (d : Disk) (path : Text) (mode g : ℕ)
    → d.next ≢ g
    → contents (made d path mode) g ≡ contents d g
unfolding contents made
made-other d path mode g n = ground arith

open_new-opens :
    (d d' : Disk) (path : Text) (mode f : ℕ) (o : Option ℕ)
    → open_new d path mode o ≡ (d', opened f)
    → (o ≡ none)
      × (contents d f ≡ none)
      × (d'.entry path ≡ some f)
      × (contents d' f ≡ some (masked 9 mode mask, []))
      × ((g : ℕ) → f ≢ g → contents d' g ≡ contents d g)
unfolding open_new
open_new-opens d d' path mode f (some g) h = absurd cc
open_new-opens d d' path mode f none h =
    let same : made d path mode ≡ d' = ap (λ x. x.0) h in
    let number : d.next ≡ f = opened_same (ap (λ x. x.1) h) in
    rw (← same, ← number)
      (let (a, b, c) = made-laws d path mode in (refl, a, b, c, made-other d path mode))

open_new-refuses :
    (d d' : Disk) (path : Text) (mode : ℕ) (e : Text) (o : Option ℕ)
    → open_new d path mode o ≡ (d', not_opened e)
    → d' ≡ d
unfolding open_new
open_new-refuses d d' path mode e (some g) h = sym (ap (λ x. x.0) h)
open_new-refuses d d' path mode e none h = absurd cc

added-writes :
    (d : Disk) (f : ℕ) (text : Text) (mode : ℕ) (old : Text)
    → contents d f ≡ some (mode, old)
    → contents (added d f text) f ≡ some (mode, old ++ text)
unfolding contents added
added-writes d f text mode old h = elim (Bool-cases (ltb f d.next)) [
  | inl e ↦
      rw (e, (eqb_iff f f).1 refl)
        (ap (λ x. some (x.0, x.1 ++ text)) (some_same (rw (e, contents) at h)))
  | inr e ↦ absurd (none-some (rw (e, contents) at h))
]

added-other :
    (d : Disk) (f g : ℕ) (text : Text) → f ≢ g → contents (added d f text) g ≡ contents d g
unfolding contents added
added-other d f g text n = ground arith

added-entry : (d : Disk) (f : ℕ) (text path : Text) → (added d f text).entry path ≡ d.entry path
unfolding added
added-entry d f text path = refl

abbrev disks-FilesLaws : FilesLaws disks
disks-FilesLaws = record {
  entry = λ d path. d.entry path;
  content = contents;
  umask = mask;
  opens = λ d d' path mode f h. open_new-opens d d' path mode f (d.entry path) h;
  refuses = λ d d' path mode e h. open_new-refuses d d' path mode e (d.entry path) h;
  writes = λ d d' f text mode old h w.
      ap (λ x. contents x f) (sym (ap (λ x. x.0) w)) ∙ added-writes d f text mode old h;
  writes_other = λ d f g text n. added-other d f g text n;
  writes_entry = λ d f text path. added-entry d f text path;
  closes = λ d f g path. (refl, refl);
}

-- The file of an earlier run.
abbrev used : Disk
used = record {
  next = 1;
  entry = λ p. if p == bytes "/tmp/x.yaml" then some 0 else none;
  data_of = λ f. (384, bytes "old");
}

abbrev emptied : Disk
emptied = record used { entry = λ p. if bytes "/tmp/x.yaml" == p then none else used.entry p }

write_exclusive-kept_example :
    (((contents emptied 0 ≡ none)
        ⊎ (contents (write_exclusive disks (λ d. d) used (bytes "/tmp/x.yaml") (bytes "new")).0 0
            ≡ contents emptied 0))
      × IsWritten disks disks-FilesLaws emptied
          (bytes "/tmp/x.yaml")
          (bytes "new")
          (write_exclusive disks (λ d. d) used (bytes "/tmp/x.yaml") (bytes "new")))
    ⊎ ((e : Text) × (removed ≡ not_removed e)
        × (write_exclusive disks (λ d. d) used (bytes "/tmp/x.yaml") (bytes "new")
            ≡ (emptied, some (bytes "removing the previous file: " ++ e))))
unfolding contents
write_exclusive-kept_example =
    write_exclusive-kept disks disks-FilesLaws (λ d. d) used emptied removed (bytes "/tmp/x.yaml")
      (bytes "new") 0 refl
