-- ===== src/Namespace.antt =====
-- src/namespace_handler.cpp: the isolated process of a container.
pub mod Child
use Prim.Native.Nat.{bit_or}
use mini_container.Prelude.{
  ℕ, ◌++◌, List, Option, none, some, Exec, fail, guard, lift, ◌>>=◌, ◌>>◌, if◌then◌else◌, ◌==◌, ℤ,
  negsuc, is_positive,
}
use mini_container.Text.{Text, text, snprintf, decimal}
use mini_container.Kernel.{
  Kernel, Returned, returned, error, read_only, is_returned, returned_or, is_ebusy,
}
use mini_container.Config.{NamespaceConfig}

-- CLONE_NEWPID, CLONE_NEWNS, SIGCHLD
abbrev pub ns_pid : ℕ
ns_pid = 0x20000000

abbrev pub ns_mnt : ℕ
ns_mnt = 0x00020000

abbrev pub sigchld : ℕ
sigchld = 17

unfoldable pub namespace_config_init : NamespaceConfig
namespace_config_init = record { flags = bit_or ns_pid ns_mnt }

-- MS_REC | MS_PRIVATE and MS_NOSUID | MS_NOEXEC | MS_NODEV
abbrev pub ms_rec_private : ℕ
ms_rec_private = 0x44000

abbrev pub ms_nosuid_noexec_nodev : ℕ
ms_nosuid_noexec_nodev = 14

-- How the child process of a clone goes on.
pub data ChildOutcome : Type 0 where
  exits_with_failure : ChildOutcome
  runs : List (Option Text) → ChildOutcome

module _ (K : Kernel) where
  open K use {World}

  unfoldable pub mount_or_ignore_ebusy : Text → Text → Text → ℕ → Exec World (Unit {0})
  mount_or_ignore_ebusy source target fstype flags = do
    r ← lift (K.mount (some source) target (some fstype) flags)
    guard (returned_or is_ebusy r)

  unfoldable pub setup_container_filesystem : Exec World (Unit {0})
  unfolding mount_or_ignore_ebusy
  setup_container_filesystem = do
    private ← lift (K.mount none (text "/") none ms_rec_private)
    guard (is_returned private)
    mount_or_ignore_ebusy (text "proc") (text "/proc") (text "proc") 0
    mount_or_ignore_ebusy (text "sysfs") (text "/sys") (text "sysfs") ms_nosuid_noexec_nodev
    mount_or_ignore_ebusy (text "tmpfs") (text "/tmp") (text "tmpfs") 0
    mount_or_ignore_ebusy (text "dev") (text "/dev") (text "devtmpfs") 0

  unfoldable pub namespace_setup_isolation : Exec World (Unit {0})
  unfolding setup_container_filesystem
  namespace_setup_isolation = setup_container_filesystem

  -- What the child does: a failed set-up or a failed execvp ends it with EXIT_FAILURE.
  unfoldable pub container_child : List (Option Text) → World → ChildOutcome × World
  unfolding namespace_setup_isolation
  container_child command w =
      let (ready, w') = namespace_setup_isolation w in
      let (running, w'') = K.execvp command w' in
      elim ready [
        | none ↦ (exits_with_failure, w')
        | some u ↦ if running then (runs command, w'') else (exits_with_failure, w'')
      ]

  unfoldable pub namespace_clone_process : ℕ → List (Option Text) → World → ℤ × World
  namespace_clone_process flags command = K.clone (bit_or flags sigchld) command

  -- The new process is put into its groups after a millisecond. -1 is a failure.
  after_clone : Option (ℤ → World → World) → ℤ → World → World
  after_clone none pid w = w
  after_clone (some add_to_cgroup) pid w =
      if is_positive pid then add_to_cgroup pid (K.usleep 1000 w) else w

  clone_with : NamespaceConfig → List (Option Text) → Option (ℤ → World → World) → World → ℤ × World
  unfolding namespace_clone_process after_clone
  clone_with config command callback w =
      let (pid, w') = namespace_clone_process config.flags command w in
      (pid, after_clone callback pid w')

  unfoldable pub namespace_create_container_with_cgroup :
      NamespaceConfig
      → Option (List (Option Text))
      → ℤ
      → Option (ℤ → World → World)
      → World
      → ℤ × World
  unfolding clone_with
  namespace_create_container_with_cgroup config none argc callback w = (negsuc 0, w)
  namespace_create_container_with_cgroup config (some command) argc callback w =
      if is_positive argc then clone_with config command callback w else (negsuc 0, w)

  unfoldable pub namespace_create_container :
      NamespaceConfig → Option (List (Option Text)) → ℤ → World → ℤ × World
  unfolding namespace_create_container_with_cgroup
  namespace_create_container config command argc =
      namespace_create_container_with_cgroup config command argc none

  abbrev ns_name : ℕ → Text
  ns_name ns_type =
      if ns_type == ns_pid
      then text "pid"
      else if ns_type == ns_mnt
      then text "mnt"
      else text "unknown"

  join_opened : Returned ℕ → ℕ → Exec World (Unit {0})
  join_opened (error e) ns_type = fail
  join_opened (returned fd) ns_type = do
    r ← lift (K.setns fd ns_type)
    lift (λ w. (tt, K.close fd w))
    guard (is_returned r)

  unfoldable pub namespace_join : ℤ → ℕ → Exec World (Unit {0})
  unfolding join_opened
  namespace_join target_pid ns_type = do
    opened ← lift (
        K.open_file read_only (
          snprintf 256 (text "/proc/" ++ (decimal target_pid ++ (text "/ns/" ++ ns_name ns_type)))))
    join_opened opened ns_type
