-- ===== src/Render/Run/Exclusive/Laws.antt =====
-- What is at the path once the rendered file is written, and what is never written to.
use otlp_collector_oidc.Prelude.{
  ◌≡◌, ◌≢◌, ◌⊎◌, inl, inr, refl, sym, ap, ◌∙◌, ℕ, zero, suc, ◌+◌, ◌*◌, ◌-◌, ◌/◌, ◌%◌, ◌<◌, Text,
  bytes, [], ◌++◌, Option, Option-cases, none, some, arith,
}
use otlp_collector_oidc.Render.Run.Exclusive.{
  Removed, removed, not_exist, not_removed, Opened, opened, not_opened, Files, private_mode,
  close_file, write_file, with_file, create_file, after_remove, write_exclusive,
}

-- The permissions of a new file: those of the mode's lowest `bits` bits that the umask does not
-- have.
abbrev pub masked : (bits mode umask : ℕ) → ℕ
masked zero mode umask = 0
masked (suc n) mode umask = mode % 2 * (1 - umask % 2) + 2 * masked n (mode / 2) (umask / 2)

-- Permissions that let the owner read and write at most, and nobody else do anything: of the nine
-- bits, the two highest at most.
abbrev pub IsPrivate : ℕ → Type 0
IsPrivate perm = (perm % 128 ≡ 0) × (perm < 512)

masked-IsPrivate : (umask : ℕ) → IsPrivate (masked 9 private_mode umask)
masked-IsPrivate umask = (omega arith, omega arith)

-- What the operating system documents of these calls: the file at a path, or none where there is no
-- entry of any kind, and a file's permissions and content.
pub record FilesLaws (fs : Files) : Type 0 where
  pub entry : fs.State → Text → Option ℕ
  pub content : fs.State → ℕ → Option (ℕ × Text)
  -- The process's file mode creation mask.
  pub umask : ℕ
  -- An exclusive open makes a new and empty file where there was no entry, and else changes nothing.
  pub opens :
      (s s' : fs.State) (path : Text) (mode f : ℕ)
      → fs.open_exclusive s path mode ≡ (s', opened f)
      → (entry s path ≡ none)
        × (content s f ≡ none)
        × (entry s' path ≡ some f)
        × (content s' f ≡ some (masked 9 mode umask, []))
        × ((g : ℕ) → f ≢ g → content s' g ≡ content s g)
  pub refuses :
      (s s' : fs.State) (path : Text) (mode : ℕ) (e : Text)
      → fs.open_exclusive s path mode ≡ (s', not_opened e)
      → s' ≡ s
  -- A write adds to its own file, and leaves the entries as they are.
  pub writes :
      (s s' : fs.State) (f : ℕ) (text : Text) (mode : ℕ) (old : Text)
      → content s f ≡ some (mode, old)
      → fs.write s f text ≡ (s', none)
      → content s' f ≡ some (mode, old ++ text)
  pub writes_other :
      (s : fs.State) (f g : ℕ) (text : Text) → f ≢ g → content (fs.write s f text).0 g ≡ content s g
  pub writes_entry :
      (s : fs.State) (f : ℕ) (text path : Text) → entry (fs.write s f text).0 path ≡ entry s path
  pub closes :
      (s : fs.State) (f g : ℕ) (path : Text)
      → (content (fs.close s f).0 g ≡ content s g) × (entry (fs.close s f).0 path ≡ entry s path)

none-some : {A : Type 0} {a : A} → none ≢ some a
none-some = λ h. ground arith

module _ (fs : Files) (laws : FilesLaws fs) where
  open fs use {State}
  open laws use {entry, content}

  -- The permissions of the file.
  abbrev perm : ℕ
  perm = masked 9 private_mode laws.umask

  -- What was done with the file: an error, or a private file of its own with the whole text.
  unfoldable pub IsWritten : State → Text → Text → State × Option Text → Type 0
  IsWritten before path yaml (s, some e) = Unit
  IsWritten before path yaml (s, none) =
      (f m : ℕ) × (entry before path ≡ none)
      × (content before f ≡ none)
      × (entry s path ≡ some f)
      × (content s f ≡ some (m, yaml))
      × IsPrivate m

  close_file-IsWritten :
      (before s : State) (path yaml : Text) (f : ℕ) (r : State × Option Text)
      → entry before path ≡ none
      → content before f ≡ none
      → entry s path ≡ some f
      → content s f ≡ some (perm, yaml)
      → fs.close s f ≡ r
      → IsWritten before path yaml (close_file fs r)
  unfolding close_file IsWritten
  close_file-IsWritten before s path yaml f (t, some e) free new at has c = tt
  close_file-IsWritten before s path yaml f (t, none) free new at has c = (
    f,
    perm,
    free,
    new,
    ap (λ x. entry x.0 path) (sym c) ∙ (laws.closes s f f path).1 ∙ at,
    ap (λ x. content x.0 f) (sym c) ∙ (laws.closes s f f path).0 ∙ has,
    masked-IsPrivate laws.umask,
  )

  close_file-content :
      (s : State) (f g : ℕ) (r : State × Option Text)
      → fs.close s f ≡ r
      → content (close_file fs r).0 g ≡ content s g
  unfolding close_file
  close_file-content s f g (t, none) c = ap (λ x. content x.0 g) (sym c) ∙ (laws.closes s f g []).0
  close_file-content s f g (t, some e) c =
      ap (λ x. content x.0 g) (sym c) ∙ (laws.closes s f g []).0

  write_file-IsWritten :
      (before s : State) (path yaml : Text) (f : ℕ) (r : State × Option Text)
      → entry before path ≡ none
      → content before f ≡ none
      → entry s path ≡ some f
      → content s f ≡ some (perm, [])
      → fs.write s f yaml ≡ r
      → IsWritten before path yaml (write_file fs f r)
  unfolding write_file IsWritten
  write_file-IsWritten before s path yaml f (t, some e) free new at has w = tt
  write_file-IsWritten before s path yaml f (t, none) free new at has w =
      close_file-IsWritten before t path yaml f (fs.close t f) free new
        (ap (λ x. entry x.0 path) (sym w) ∙ laws.writes_entry s f yaml path ∙ at)
        (laws.writes s t f yaml perm [] has w) refl

  write_file-content :
      (s : State) (yaml : Text) (f g : ℕ) (r : State × Option Text)
      → f ≢ g
      → fs.write s f yaml ≡ r
      → content (write_file fs f r).0 g ≡ content s g
  unfolding write_file
  write_file-content s yaml f g (t, none) n w =
      close_file-content t f g (fs.close t f) refl
      ∙ ap (λ x. content x.0 g) (sym w)
      ∙ laws.writes_other s f g yaml n
  write_file-content s yaml f g (t, some e) n w =
      (laws.closes t f g []).0 ∙ ap (λ x. content x.0 g) (sym w) ∙ laws.writes_other s f g yaml n

  with_file-kept :
      (before : State) (path yaml : Text) (g : ℕ) (r : State × Opened)
      → fs.open_exclusive before path private_mode ≡ r
      → ((content before g ≡ none) ⊎ (content (with_file fs yaml r).0 g ≡ content before g))
        × IsWritten before path yaml (with_file fs yaml r)
  unfolding with_file IsWritten
  with_file-kept before path yaml g (t, not_opened e) o =
      (inr (ap (λ x. content x g) (laws.refuses before t path private_mode e o)), tt)
  with_file-kept before path yaml g (t, opened f) o =
      let (free, new, at, has, rest) = laws.opens before t path private_mode f o in
      (
        elim (Option-cases (content before g)) [
          | inl e ↦ inl e
          | inr (c, e) ↦
              let other : f ≢ g = λ q. none-some (sym new ∙ ap (content before) q ∙ e) in
              inr (write_file-content t yaml f g (fs.write t f yaml) other refl ∙ rest g other)
        ],
        write_file-IsWritten before t path yaml f (fs.write t f yaml) free new at has refl,
      )

  -- Whatever another process does between the two calls, and whatever the umask, no file that is
  -- there when the rendered file is created is written to, and without an error the path, at which
  -- there was no entry, has a new file with the whole text, which its owner at most can read and
  -- write. Where the entry that was there before
  -- could not be removed, nothing more is done.
  pub write_exclusive-kept :
      (meanwhile : State → State) (s t : State) (r : Removed) (path yaml : Text) (g : ℕ)
      → fs.remove s path ≡ (t, r)
      → (((content (meanwhile t) g ≡ none)
            ⊎ (content (write_exclusive fs meanwhile s path yaml).0 g ≡ content (meanwhile t) g))
          × IsWritten (meanwhile t) path yaml (write_exclusive fs meanwhile s path yaml))
        ⊎ ((e : Text) × (r ≡ not_removed e)
            × (write_exclusive fs meanwhile s path yaml
                ≡ (t, some (bytes "removing the previous file: " ++ e))))
  unfolding write_exclusive after_remove create_file
  write_exclusive-kept meanwhile s t removed path yaml g h =
      inl (rw h (with_file-kept (meanwhile t) path yaml g _ refl))
  write_exclusive-kept meanwhile s t not_exist path yaml g h =
      inl (rw h (with_file-kept (meanwhile t) path yaml g _ refl))
  write_exclusive-kept meanwhile s t (not_removed e) path yaml g h = inr (e, refl, rw h)
