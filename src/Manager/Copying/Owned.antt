-- ===== src/Manager/Copying/Owned.antt =====
-- The memory that `copy_container_config` and `free_container_config` of src/container_manager.cpp
-- take and give back. A block is a number, and using or freeing one that is not there is undefined.
pub mod Blocks
pub mod Entries
pub mod Faults
pub mod Ends
pub mod Outcome
pub mod Balance
use mini_container.Prelude.{
  ℕ, suc, ◌+◌, Bool, true, false, List, [], ◌∷◌, ◌++◌, Option, none, some, Exec, pure, ◌>>=◌, ◌>>◌,
  if◌then◌else◌, ltb, ◌==◌, is_positive, to_ℕ, take,
}
use mini_container.Text.{Text}
use mini_container.Kernel.{Kernel}
use mini_container.Config.{ContainerConfig}

-- Null, or a block.
abbrev pub Pointer : Type 0
Pointer = Option ℕ

-- The blocks in use, and the number of the next one.
pub record Heap (W : Type 0) : Type 0 where
  pub world : W
  pub blocks : List ℕ
  pub next : ℕ

-- How often a block is in a list.
abbrev pub count : ℕ → List ℕ → ℕ
count p [] = 0
count p (q ∷ qs) = if p == q then suc (count p qs) else count p qs

abbrev pub remove : ℕ → List ℕ → List ℕ
remove p [] = []
remove p (q ∷ qs) = if p == q then qs else q ∷ remove p qs

-- A `container_config_t` on the heap: its block, its pointers, and the array of its command with
-- the first `command_argc` entries.
pub record Copy : Type 0 where
  pub self : ℕ
  pub id : Pointer
  pub root_path : Pointer
  pub fs_root : Pointer
  pub command : Option (ℕ × List Pointer)

-- What `calloc` leaves in the block.
abbrev pub empty_copy : ℕ → Copy
empty_copy p = record { self = p; id = none; root_path = none; fs_root = none; command = none }

module _ (K : Kernel) where
  -- The failure of a `Mem` is undefined behaviour; a null pointer is a value.
  abbrev pub Mem : Type 0 → Type 0
  Mem A = Exec (Heap K.World) A

  abbrev pub malloc : Mem Pointer
  malloc h =
      let (ok, w) = K.alloc h.world in
      if ok
      then (
        some (some h.next),
        record h { world = w; blocks = h.next ∷ h.blocks; next = h.next + 1 },
      )
      else (some none, record h { world = w })

  -- A read or a write of a block.
  abbrev pub touch : ℕ → Mem (Unit {0})
  touch p h = (if ltb 0 (count p h.blocks) then some tt else none, h)

  abbrev pub free : ℕ → Mem (Unit {0})
  free p h =
      (if ltb 0 (count p h.blocks) then some tt else none, record h { blocks = remove p h.blocks })

  -- if (p) free(p);
  abbrev pub free_pointer : Pointer → Mem (Unit {0})
  free_pointer none = pure tt
  free_pointer (some p) = free p

  -- The loop ends at the first null.
  pub free_entries : ℕ → List Pointer → Mem (Unit {0})
  free_entries array [] = pure tt
  free_entries array (none ∷ ps) = touch array
  free_entries array (some p ∷ ps) = do touch array; free p; free_entries array ps

  pub free_command : Option (ℕ × List Pointer) → Mem (Unit {0})
  unfolding free_entries
  free_command none = pure tt
  free_command (some (array, ps)) = do free_entries array ps; free array

  unfoldable pub free_container_config : Copy → Mem (Unit {0})
  unfolding free_command
  free_container_config c = do
    touch c.self
    free_pointer c.id
    free_pointer c.root_path
    free_pointer c.fs_root
    free_command c.command
    free c.self

  -- free_container_config(dst); return nullptr;
  pub discard : Copy → Mem (Option Copy)
  unfolding free_container_config
  discard c = do free_container_config c; pure none

  abbrev or_refused : Pointer → Option Pointer
  or_refused none = none
  or_refused (some p) = some (some p)

  -- strdup, of a text that may be null; none where memory is refused.
  pub strdup : Option Text → Mem (Option Pointer)
  strdup none = pure (some none)
  strdup (some t) = do p ← malloc; pure (or_refused p)

  -- The entries that are copied, and whether all are.
  pub own_entries : List (Option Text) → Mem (List Pointer × Bool)
  unfolding strdup
  own_entries [] = pure ([], true)
  own_entries (t ∷ ts) = strdup t >>= λ r. elim r [
    | none ↦ pure ([], false)
    | some p ↦ (do (ps, all) ← own_entries ts; pure (p ∷ ps, all))
  ]

  -- The loop over `j < i`.
  pub undo_entries : List Pointer → Mem (Unit {0})
  undo_entries [] = pure tt
  undo_entries (p ∷ ps) = do free_pointer p; undo_entries ps

  -- Where an entry is refused, its place in the array is null, and `dst->command` stays.
  pub end_entries : Copy → ℕ → List Pointer × Bool → Mem (Option Copy)
  unfolding undo_entries discard
  end_entries c array (ps, true) = pure (some (record c { command = some (array, ps) }))
  end_entries c array (ps, false) = do
    undo_entries ps
    free array
    discard (record c { command = some (array, ps ++ (none ∷ [])) })

  pub own_array : List (Option Text) → Copy → Mem (Option Copy)
  unfolding own_entries end_entries
  own_array ts c = malloc >>= λ r. elim r [
    | none ↦ discard c
    | some array ↦ (do ended ← own_entries ts; end_entries c array ended)
  ]

  pub own_command : ContainerConfig → Copy → Mem (Option Copy)
  unfolding own_array
  own_command src c = elim src.command [
    | none ↦ pure (some c)
    | some ts ↦
        if is_positive src.command_argc
        then own_array (take (to_ℕ src.command_argc) ts) c
        else pure (some c)
  ]

  pub own_fs_root : ContainerConfig → Copy → Mem (Option Copy)
  unfolding own_command
  own_fs_root src c = strdup src.fs_config.root_path >>= λ r. elim r [
    | none ↦ discard c
    | some p ↦ own_command src (record c { fs_root = p })
  ]

  pub own_root_path : ContainerConfig → Copy → Mem (Option Copy)
  unfolding own_fs_root
  own_root_path src c = strdup src.root_path >>= λ r. elim r [
    | none ↦ discard c
    | some p ↦ own_fs_root src (record c { root_path = p })
  ]

  -- Only the block itself is freed here.
  pub own_id : ContainerConfig → Copy → Mem (Option Copy)
  unfolding own_root_path
  own_id src c = strdup src.id >>= λ r. elim r [
    | none ↦ (do free c.self; pure none)
    | some p ↦ own_root_path src (record c { id = p })
  ]

  -- `copy_container_config` with its blocks; a null pointer is none.
  unfoldable pub own_copy : ContainerConfig → Mem (Option Copy)
  unfolding own_id
  own_copy src = malloc >>= λ r. elim r [ none ↦ pure none | some p ↦ own_id src (empty_copy p) ]
