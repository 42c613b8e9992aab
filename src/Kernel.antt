-- ===== src/Kernel.antt =====
-- The operating system that the program runs on: a state and the calls that the source makes of
-- it. Nothing is assumed of a call but its type; a theorem that needs more names it.
use mini_container.Prelude.{
  ◌≡◌, refl, ◌⊎◌, inl, inr, ℕ, Bool, true, false, List, Option, ℤ, Exec, pure, fail,
}
use mini_container.Text.{Text}

-- The errors that the source tells apart.
pub data Errno : Type 0 where
  eexist enoent ebusy einval enotempty esrch : Errno
  other_errno : ℕ → Errno

-- What a call returns: a value, or -1 with `errno` set.
pub data Returned (A : Type 0) : Type 0 where
  returned : A → Returned A
  error : Errno → Returned A

pub Returned-cases :
    {A : Type 0} (r : Returned A) → ((a : A) × (r ≡ returned a)) ⊎ ((e : Errno) × (r ≡ error e))
Returned-cases (returned a) = inl (a, refl)
Returned-cases (error e) = inr (e, refl)

abbrev pub is_returned : {A : Type 0} → Returned A → Bool
is_returned (returned a) = true
is_returned (error e) = false

-- The return value 0, or an error that the caller accepts.
abbrev pub returned_or : {A : Type 0} → (Errno → Bool) → Returned A → Bool
returned_or ok (returned a) = true
returned_or ok (error e) = ok e

-- The value that a call returns, or the end of the caller with -1.
abbrev pub or_fail : {S A : Type 0} → Returned A → Exec S A
or_fail (returned a) = pure a
or_fail (error e) = fail

abbrev pub is_eexist : Errno → Bool
is_eexist e = elim e [ eexist ↦ true | _ ↦ false ]

abbrev pub is_ebusy : Errno → Bool
is_ebusy e = elim e [ ebusy ↦ true | _ ↦ false ]

abbrev pub is_enotempty : Errno → Bool
is_enotempty e = elim e [ enotempty ↦ true | _ ↦ false ]

pub data AccessMode : Type 0 where
  f_ok r_ok : AccessMode

pub data OpenMode : Type 0 where
  read_only write_only : OpenMode
  -- O_WRONLY | O_CREAT | O_TRUNC
  create_truncate : OpenMode

pub data Signal : Type 0 where
  -- signal 0, which only asks whether the process is there
  signal_probe sigterm sigkill : Signal

-- The value 0 of a call that only succeeds or fails.
abbrev pub Done : Type 0
Done = Returned (Unit {0})

pub record Kernel : Type 1 where
  pub World : Type 0
  -- whether malloc, calloc, realloc or strdup gives memory
  pub alloc : World → Bool × World
  pub time : World → ℤ × World
  pub usleep : ℕ → World → World
  pub access : AccessMode → Text → World → Bool
  pub stat : Text → World → Bool
  pub mkdir : Text → World → Done × World
  pub rmdir : Text → World → Done × World
  -- path, mode, major and minor number
  pub mknod : Text → ℕ → ℕ → ℕ → World → Done × World
  pub open_file : OpenMode → Text → World → Returned ℕ × World
  -- up to so many bytes; no byte at the end of the file
  pub read : ℕ → ℕ → World → Returned Text × World
  -- the number of bytes written
  pub write : ℕ → Text → World → Returned ℕ × World
  pub close : ℕ → World → World
  pub chdir : Text → World → Done × World
  pub chroot : Text → World → Done × World
  -- source, target, type, flags
  pub mount : Option Text → Text → Option Text → ℕ → World → Done × World
  -- with MNT_DETACH
  pub umount : Text → World → Done × World
  -- opendir, readdir to the end, closedir
  pub read_dir : Text → World → Option (List Text) × World
  -- a whole file by stdio
  pub read_text : Text → World → Option Text × World
  pub write_text : Text → Text → World → Bool × World
  pub kill : ℤ → Signal → World → Done × World
  -- pid and WNOHANG; the result and the status
  pub waitpid : ℤ → Bool → World → (ℤ × ℕ) × World
  -- flags and the command that the child runs; the child's pid or -1
  pub clone : ℕ → List (Option Text) → World → ℤ × World
  pub setns : ℕ → ℕ → World → Done × World
  -- true if the process now runs the command
  pub execvp : List (Option Text) → World → Bool × World
  -- the value that the parent sees: the child's pid or -1
  pub fork : World → ℤ × World
