-- ===== src/Filesystem/Roots.antt =====
-- The functions of src/filesystem_manager.cpp.
pub mod Contents
pub mod Parents
use mini_container.Prelude.{
  ℕ, zero, suc, ◌++◌, false, List, [], ◌∷◌, Option, none, some, Exec, pure, fail, guard, lift,
  attempt, ◌>>=◌, ◌>>◌, ◌==◌, length,
}
use mini_container.Text.{Text, text, snprintf, dirname}
use mini_container.Kernel.{
  Kernel, Done, Returned, returned, error, eexist, enoent, read_only, create_truncate, is_returned,
  returned_or, is_eexist, is_enotempty, or_fail,
}
use mini_container.Config.{FsConfig, fs_chroot}

abbrev pub path_max : ℕ
path_max = 4096

unfoldable pub fs_config_init : FsConfig
fs_config_init = record { root_path = none; method = fs_chroot; create_minimal_fs = false }

abbrev pub essential_dirs : List Text
essential_dirs =
    text "/bin"
    ∷ text "/sbin"
    ∷ text "/lib"
    ∷ text "/lib64"
    ∷ text "/usr"
    ∷ text "/usr/bin"
    ∷ text "/usr/sbin"
    ∷ text "/usr/lib"
    ∷ text "/usr/lib64"
    ∷ text "/etc"
    ∷ text "/proc"
    ∷ text "/sys"
    ∷ text "/dev"
    ∷ text "/tmp"
    ∷ text "/var"
    ∷ text "/var/tmp"
    ∷ []

pub record Device : Type 0 where
  pub path : Text
  pub mode : ℕ
  pub major : ℕ
  pub minor : ℕ

-- S_IFCHR | 0666
abbrev character_device : Text → ℕ → ℕ → Device
character_device path major minor = record {
  path = path;
  mode = 0o20666;
  major = major;
  minor = minor;
}

abbrev pub essential_devices : List Device
essential_devices =
    character_device (text "/dev/null") 1 3
    ∷ character_device (text "/dev/zero") 1 5
    ∷ character_device (text "/dev/random") 1 8
    ∷ character_device (text "/dev/urandom") 1 9
    ∷ character_device (text "/dev/tty") 5 0
    ∷ record { path = text "/dev/console"; mode = 0o20600; major = 5; minor = 1 }
    ∷ []

abbrev pub essential_files : List Text
essential_files =
    text "/bin/sh"
    ∷ text "/bin/bash"
    ∷ text "/lib/ld-linux.so.2"
    ∷ text "/lib64/ld-linux-x86-64.so.2"
    ∷ []

abbrev pub mounts_to_unmount : List Text
mounts_to_unmount = text "/dev" ∷ text "/tmp" ∷ text "/sys" ∷ text "/proc" ∷ []

-- The loops over the tables stop at the first -1.
unfoldable pub for_all {ℓ} : {A S : Type ℓ} → (A → Exec S (Unit {ℓ})) → List A → Exec S (Unit {ℓ})
for_all body [] = pure tt
for_all body (x ∷ xs) = do body x; for_all body xs

abbrev pub in_root : Text → Text → Text
in_root root_path rest = snprintf path_max (root_path ++ rest)

module _ (K : Kernel) where
  open K use {World}

  -- What follows a failed mkdir: the parents on ENOENT, success on EEXIST.
  abbrev after_mkdir : Done → Exec World (Unit {0}) → Exec World (Unit {0})
  after_mkdir (returned u) parents = pure tt
  after_mkdir (error e) parents = elim e [ enoent ↦ parents | eexist ↦ pure tt | _ ↦ fail ]

  -- The recursion goes to the parent directory; the fuel bounds the number of names in the path.
  unfoldable pub mkdir_p : ℕ → Text → Exec World (Unit {0})
  mkdir_p zero path = fail
  mkdir_p (suc fuel) path = do
    r ← lift (K.mkdir path)
    after_mkdir r
        do mkdir_p fuel (dirname path); again ← lift (K.mkdir path); guard (is_returned again)

  abbrev close_file : ℕ → World → Unit {0} × World
  close_file fd w = (tt, K.close fd w)

  -- A chunk is written whole, or the copy fails; an empty one is the end of the file.
  copy_chunk : ℕ → Text → Exec World (Unit {0}) → Exec World (Unit {0})
  copy_chunk dst [] rest = pure tt
  copy_chunk dst (c ∷ bytes) rest = do
    written ← lift (K.write dst (c ∷ bytes))
    n ← or_fail written
    guard (n == length (c ∷ bytes))
    rest

  -- The loop of `copy_file`; the fuel bounds the number of reads.
  unfoldable pub copy_loop : ℕ → ℕ → ℕ → Exec World (Unit {0})
  unfolding copy_chunk
  copy_loop zero src dst = fail
  copy_loop (suc fuel) src dst = do
    r ← lift (K.read src 8192)
    bytes ← or_fail r
    copy_chunk dst bytes (copy_loop fuel src dst)

  copy_to : ℕ → ℕ → Returned ℕ → Exec World (Unit {0})
  unfolding copy_loop
  copy_to fuel src (error e) = do lift (close_file src); fail
  copy_to fuel src (returned dst) = do
    copied ← attempt (copy_loop fuel src dst)
    lift (close_file src)
    lift (close_file dst)
    guard copied

  unfoldable pub copy_file : ℕ → Text → Text → Exec World (Unit {0})
  unfolding copy_to
  copy_file fuel src dst = do
    opened ← lift (K.open_file read_only src)
    src_fd ← or_fail opened
    created ← lift (K.open_file create_truncate dst)
    copy_to fuel src_fd created

  make_device : Text → Device → Exec World (Unit {0})
  make_device root_path d = do
    r ← lift (K.mknod (in_root root_path d.path) d.mode d.major d.minor)
    guard (returned_or is_eexist r)

  -- The directories take a name each and those of the root; `fuel` bounds the names of a path.
  unfoldable pub fs_create_minimal_root : ℕ → Option Text → Exec World (Unit {0})
  unfolding make_device mkdir_p for_all
  fs_create_minimal_root fuel none = fail
  fs_create_minimal_root fuel (some root_path) = do
    for_all (λ d. mkdir_p fuel (in_root root_path d)) essential_dirs
    for_all (make_device root_path) essential_devices

  unfoldable pub fs_setup_chroot : Option Text → Exec World (Unit {0})
  fs_setup_chroot none = fail
  fs_setup_chroot (some root_path) = do
    at_root ← lift (K.chdir root_path)
    guard (is_returned at_root)
    jailed ← lift (K.chroot root_path)
    guard (is_returned jailed)
    at_new_root ← lift (K.chdir (text "/"))
    guard (is_returned at_new_root)

  mount_in : Text → Text → Text → Text → Exec World (Unit {0})
  mount_in root_path source target fstype = do
    r ← lift (K.mount (some source) (in_root root_path target) (some fstype) 0)
    guard (is_returned r)

  unfoldable pub fs_mount_container_filesystems : Option Text → Exec World (Unit {0})
  unfolding mount_in
  fs_mount_container_filesystems none = fail
  fs_mount_container_filesystems (some root_path) = do
    mount_in root_path (text "proc") (text "/proc") (text "proc")
    mount_in root_path (text "sysfs") (text "/sys") (text "sysfs")
    mount_in root_path (text "tmpfs") (text "/tmp") (text "tmpfs")
    mount_in root_path (text "dev") (text "/dev") (text "devtmpfs")

  copy_from_host : ℕ → Text → Text → Text → Exec World (Unit {0})
  unfolding copy_file
  copy_from_host fuel root_path host_root file = do
    attempt (copy_file fuel (in_root host_root file) (in_root root_path file))
    pure tt

  -- A file that cannot be copied is only reported.
  unfoldable pub fs_populate_container_root : ℕ → Option Text → Option Text → Exec World (Unit {0})
  unfolding copy_from_host for_all
  fs_populate_container_root fuel none host_root = fail
  fs_populate_container_root fuel (some root_path) none = fail
  fs_populate_container_root fuel (some root_path) (some host_root) =
      for_all (copy_from_host fuel root_path host_root) essential_files

  unmount_in : Text → Text → Exec World (Unit {0})
  unmount_in root_path mounted w = (some tt, (K.umount (in_root root_path mounted) w).1)

  unfoldable pub fs_cleanup_container_root : Option Text → Exec World (Unit {0})
  unfolding unmount_in for_all
  fs_cleanup_container_root none = fail
  fs_cleanup_container_root (some root_path) = do
    for_all (unmount_in root_path) mounts_to_unmount
    r ← lift (K.rmdir root_path)
    guard (returned_or is_enotempty r)
