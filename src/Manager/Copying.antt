-- ===== src/Manager/Copying.antt =====
-- `copy_container_config` of src/container_manager.cpp. The texts are values here, and what the
-- copy allocates succeeds or fails; Owned has the blocks of memory.
pub mod Laws
pub mod Owned
use mini_container.Prelude.{
  List, [], ◌∷◌, Option, none, some, Exec, pure, guard, lift, ◌>>=◌, ◌>>◌, if◌then◌else◌, ℤ, pos,
  is_positive, to_ℕ, take,
}
use mini_container.Text.{Text}
use mini_container.Kernel.{Kernel}
use mini_container.Config.{ContainerConfig}

module _ (K : Kernel) where
  open K use {World}

  abbrev allocate : Exec World (Unit {0})
  allocate = do ok ← lift K.alloc; guard ok

  -- strdup, of a text that may be null
  pub copy_text : Option Text → Exec World (Option Text)
  copy_text none = pure none
  copy_text (some t) = do allocate; pure (some t)

  pub copy_entries : List (Option Text) → Exec World (List (Option Text))
  unfolding copy_text
  copy_entries [] = pure []
  copy_entries (t ∷ ts) = do t' ← copy_text t; ts' ← copy_entries ts; pure (t' ∷ ts')

  -- The first `argc` entries of the array, and no array where there are none.
  pub copy_command : Option (List (Option Text)) → ℤ → Exec World (Option (List (Option Text)) × ℤ)
  unfolding copy_entries
  copy_command none argc = pure (none, pos 0)
  copy_command (some command) argc =
      if is_positive argc
      then (do allocate; copied ← copy_entries (take (to_ℕ argc) command); pure (some copied, argc))
      else pure (none, pos 0)

  unfoldable pub copy_container_config : ContainerConfig → Exec World ContainerConfig
  unfolding copy_text copy_command
  copy_container_config src = do
    allocate
    id ← copy_text src.id
    root_path ← copy_text src.root_path
    fs_root ← copy_text src.fs_config.root_path
    command ← copy_command src.command src.command_argc
    pure (record src {
      id = id;
      root_path = root_path;
      fs_config = record src.fs_config { root_path = fs_root };
      command = command.0;
      command_argc = command.1;
    })
