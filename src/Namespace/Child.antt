-- ===== src/Namespace/Child.antt =====
-- What a child has done before its command runs: the mounts, and the namespaces joined.
use mini_container.Prelude.{ℕ, ◌++◌, ◌≡◌, true, List, [], ◌∷◌, ◌⊎◌, none, some, arith, ℤ}
use mini_container.Text.{Text, text, snprintf, decimal}
use mini_container.Kernel.{Kernel, returned, error, ebusy, is_returned, read_only}
use mini_container.Namespace.{ns_name, namespace_join}

-- What is mounted in the new process: source, target, type and flags.
abbrev own_mounts : List (Text × Text × Text × ℕ)
own_mounts =
    (text "proc", text "/proc", text "proc", 0)
    ∷ (text "sysfs", text "/sys", text "sysfs", 14)
    ∷ (text "tmpfs", text "/tmp", text "tmpfs", 0)
    ∷ (text "dev", text "/dev", text "devtmpfs", 0)
    ∷ []

-- The file of a namespace of a process.
abbrev pub ns_file : ℤ → Text → Text
ns_file pid name = snprintf 256 (text "/proc/" ++ (decimal pid ++ (text "/ns/" ++ name)))

module _ (K : Kernel) where
  -- Each mount, in order, returned or failed with EBUSY, which takes the system from `w` to `v`.
  pub Mounted : List (Text × Text × Text × ℕ) → K.World → K.World → Type 0
  Mounted [] w v = v ≡ w
  Mounted ((source, target, fstype, flags) ∷ mounts) w v =
      let (r, u) = K.mount (some source) target (some fstype) flags w in
      ((is_returned r ≡ true) ⊎ (r ≡ error ebusy)) × Mounted mounts u v

  -- The tree was made private and then the own file systems were mounted.
  abbrev pub IsSetUp : K.World → K.World → Type 0
  IsSetUp w v =
      let (r, u) = K.mount none (text "/") none 0x44000 w in
      (is_returned r ≡ true) × Mounted own_mounts u v

  -- The process entered the namespace behind a file: opened, `setns`, closed.
  abbrev pub Joins : Text → ℕ → K.World → K.World → Type 0
  Joins path ns_type w v =
      let (opened, u) = K.open_file read_only path w in
      (fd : ℕ) × (opened ≡ returned fd)
      × (is_returned (K.setns fd ns_type u).0 ≡ true)
      × (v ≡ K.close fd (K.setns fd ns_type u).1)

  pub namespace_join-Joins :
      (pid : ℤ) (ns_type : ℕ) (w : K.World)
      → (namespace_join K pid ns_type w).0 ≡ some tt
      → Joins (ns_file pid (ns_name K ns_type)) ns_type w (namespace_join K pid ns_type w).1
  unfolding namespace_join
  namespace_join-Joins pid ns_type w h = ground arith

  pub Joins-namespace_join :
      (pid : ℤ) (ns_type : ℕ) (w v : K.World)
      → Joins (ns_file pid (ns_name K ns_type)) ns_type w v
      → namespace_join K pid ns_type w ≡ (some tt, v)
  unfolding namespace_join
  Joins-namespace_join pid ns_type w v h = ground arith
