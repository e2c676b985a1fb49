-- ===== src/Render/Run/Exclusive.antt =====
-- internal/render/run.go: writing the rendered file where a directory may be shared.
pub mod Laws
use otlp_collector_oidc.Prelude.{ℕ, Text, bytes, ◌++◌, [], Option, none, some}

-- What os.Remove comes to.
pub data Removed : Type 0 where
  removed not_exist : Removed
  not_removed : Text → Removed

-- What os.OpenFile comes to: a file that is open, or an error.
pub data Opened : Type 0 where
  opened : ℕ → Opened
  not_opened : Text → Opened

-- The calls of package os on a state of the files, each file under a number of its own.
pub record Files : Type 1 where
  pub State : Type 0
  pub remove : State → Text → State × Removed
  -- With O_WRONLY, O_CREATE and O_EXCL, and the permissions.
  pub open_exclusive : State → Text → (mode : ℕ) → State × Opened
  pub write : State → ℕ → Text → State × Option Text
  pub close : State → ℕ → State × Option Text

-- What only the user can read and write, 0o600.
abbrev pub private_mode : ℕ
private_mode = 384

module _ (fs : Files) where
  open fs use {State}

  close_file : State × Option Text → State × Option Text
  close_file (s, none) = (s, none)
  close_file (s, some e) = (s, some (bytes "closing the file: " ++ e))

  -- `f.Close()` is called either way, and its error counts where the write succeeded.
  write_file : ℕ → State × Option Text → State × Option Text
  unfolding close_file
  write_file f (s, none) = close_file (fs.close s f)
  write_file f (s, some e) = ((fs.close s f).0, some (bytes "writing the file: " ++ e))

  with_file : Text → State × Opened → State × Option Text
  unfolding write_file
  with_file yaml (s, opened f) = write_file f (fs.write s f yaml)
  with_file yaml (s, not_opened e) = (s, some (bytes "creating the file: " ++ e))

  create_file : (State → State) → Text → Text → State → State × Option Text
  unfolding with_file
  create_file meanwhile path yaml s =
      with_file yaml (fs.open_exclusive (meanwhile s) path private_mode)

  after_remove : (State → State) → Text → Text → State × Removed → State × Option Text
  unfolding create_file
  after_remove meanwhile path yaml (s, removed) = create_file meanwhile path yaml s
  after_remove meanwhile path yaml (s, not_exist) = create_file meanwhile path yaml s
  after_remove meanwhile path yaml (s, not_removed e) =
      (s, some (bytes "removing the previous file: " ++ e))

  -- `writeExclusive`; `meanwhile` is what another process does to the files between the two calls.
  unfoldable pub write_exclusive : (State → State) → State → Text → Text → State × Option Text
  unfolding after_remove
  write_exclusive meanwhile s path yaml = after_remove meanwhile path yaml (fs.remove s path)
