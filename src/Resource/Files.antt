-- ===== src/Resource/Files.antt =====
-- `write_file` and `read_file` of src/resource_manager.cpp.
use mini_container.Prelude.{ℕ, ◌-◌, [], ◌∷◌, Exec, pure, fail, ◌>>=◌, ◌>>◌, lift}
use mini_container.Text.{Text}
use mini_container.Kernel.{Kernel, read_only, write_only, or_fail}

module _ (K : Kernel) where
  open K use {World}

  abbrev close_file : ℕ → World → Unit {0} × World
  close_file fd w = (tt, K.close fd w)

  unfoldable pub write_file : Text → Text → Exec World (Unit {0})
  write_file path value = do
    opened ← lift (K.open_file write_only path)
    fd ← or_fail opened
    written ← lift (K.write fd value)
    lift (close_file fd)
    or_fail written
    pure tt

  abbrev not_empty : Text → Exec World Text
  not_empty [] = fail
  not_empty (c ∷ s) = pure (c ∷ s)

  -- The buffer's text, from at most size - 1 bytes. An empty file is an error.
  unfoldable pub read_file : Text → ℕ → Exec World Text
  read_file path size = do
    opened ← lift (K.open_file read_only path)
    fd ← or_fail opened
    bytes ← lift (K.read fd (size - 1))
    lift (close_file fd)
    buffer ← or_fail bytes
    not_empty buffer
