-- ===== src/Resource/Cgroups.antt =====
-- The operations of src/resource_manager.cpp on the control groups.
pub mod Creation
use mini_container.Prelude.{
  ◌++◌, Bool, true, false, not, ◌&&◌, ◌||◌, List, [], ◌∷◌, Option, none, some, Exec, pure, guard,
  when, lift, gets, succeeds, attempt, ◌>>=◌, ◌>>◌, ltb, if◌then◌else◌, ℤ, is_positive, take,
}
use mini_container.Text.{Text, text, snprintf, decimal, contains, is_hidden}
use mini_container.Kernel.{Kernel, f_ok, returned_or, is_eexist}
use mini_container.Config.{ResourceLimits, ResourceManager, CgroupVersion, cgroup_v1, cgroup_v2}
use mini_container.Resource.Paths.{
  buf_size, cgroup_root, cgroup_v2_controllers, cpu_cgroup_path, cpuacct_cgroup_path,
  cpu_cpuacct_cgroup_path, memory_cgroup_path, group_file, group_dir,
}
use mini_container.Resource.Files.{write_file, read_file}
use mini_container.Resource.Limits.{set_cpu_limits, set_memory_limits}

-- A listing that cannot be read is not checked.
unfoldable pub controllers_listed : Option Text → Bool
controllers_listed none = true
controllers_listed (some buffer) = contains buffer (text "cpu") && contains buffer (text "memory")

module _ (K : Kernel) where
  open K use {World}

  -- access(path, F_OK) == 0
  abbrev exists : Text → Exec World Bool
  exists path = gets (K.access f_ok path)

  unfoldable pub detect_cgroup_version : World → CgroupVersion
  detect_cgroup_version w =
      if K.access f_ok cgroup_v2_controllers w
      then cgroup_v2
      else if K.access f_ok cpu_cgroup_path w && K.access f_ok memory_cgroup_path w
      then cgroup_v1
      else cgroup_v1

  read_or_nothing : Text → Exec World (Option Text)
  read_or_nothing path w = let (r, w') = read_file K path buf_size w in (some r, w')

  unfoldable pub check_controllers : CgroupVersion → Exec World (Unit {0})
  unfolding controllers_listed read_or_nothing
  check_controllers cgroup_v2 = do
    present ← exists cgroup_v2_controllers
    guard present
    listing ← read_or_nothing cgroup_v2_controllers
    guard (controllers_listed listing)
  check_controllers cgroup_v1 = do
    cpu ← exists cpu_cgroup_path
    guard cpu
    memory ← exists memory_cgroup_path
    guard memory

  -- The manager, or -1; `cgroup_path` is a copy of `base_path`.
  unfoldable pub resource_manager_init : Text → Exec World ResourceManager
  resource_manager_init base_path = do
    available ← exists cgroup_root
    guard available
    version ← gets detect_cgroup_version
    check_controllers version
    copied ← lift K.alloc
    guard copied
    pure (record { cgroup_path = base_path; initialized = true; version = version })

  -- mkdir(path, 0755) != -1 || errno == EEXIST
  unfoldable pub make_dir : Text → World → Bool × World
  make_dir path w = let (r, w') = K.mkdir path w in (returned_or is_eexist r, w')

  abbrev ignore_dir : Text → Exec World Bool
  ignore_dir path = lift (make_dir path)

  module _ (rm : ResourceManager) (container_id : Text) where
    abbrev dir : Text → Text
    dir base = group_dir base rm container_id

    unfoldable pub make_cpu_dirs_v1 : Exec World (Unit {0})
    unfolding make_dir
    make_cpu_dirs_v1 = do
      joint ← lift (make_dir (dir cpu_cpuacct_cgroup_path))
      when (not joint) do
        cpu ← lift (make_dir (dir cpu_cgroup_path))
        guard cpu
        ignore_dir (dir cpuacct_cgroup_path)
        pure tt

    unfoldable pub make_group_dirs : CgroupVersion → Exec World (Unit {0})
    unfolding make_cpu_dirs_v1
    make_group_dirs cgroup_v2 = do made ← lift (make_dir (dir cgroup_root)); guard made
    make_group_dirs cgroup_v1 = do
      make_cpu_dirs_v1
      made ← lift (make_dir (dir memory_cgroup_path))
      guard made

    -- A limit that cannot be set is only reported.
    apply_limits : ResourceLimits → Exec World (Unit {0})
    apply_limits limits = do
      when (is_positive limits.cpu.shares || is_positive limits.cpu.quota_us)
          (do attempt (set_cpu_limits K rm container_id limits.cpu); pure tt)
      when (ltb 0 limits.memory.limit_bytes)
          (do attempt (set_memory_limits K rm container_id limits.memory); pure tt)

    unfoldable pub resource_manager_create_cgroup : ResourceLimits → Exec World (Unit {0})
    unfolding make_group_dirs apply_limits
    resource_manager_create_cgroup limits = do
      guard rm.initialized
      make_group_dirs rm.version
      apply_limits limits

    remove_dir : Text → World → World
    remove_dir base w = (K.rmdir (dir base) w).1

    unfoldable pub remove_group_dirs : CgroupVersion → World → World
    unfolding remove_dir
    remove_group_dirs cgroup_v2 w = remove_dir cgroup_root w
    remove_group_dirs cgroup_v1 w = remove_dir memory_cgroup_path (
        remove_dir cpuacct_cgroup_path
          (remove_dir cpu_cgroup_path (remove_dir cpu_cpuacct_cgroup_path w)))

    unfoldable pub resource_manager_destroy_cgroup : Exec World (Unit {0})
    unfolding remove_group_dirs
    resource_manager_destroy_cgroup = do
      guard rm.initialized
      lift (λ w. (tt, remove_group_dirs rm.version w))

  -- The entries of /proc/<pid>/task; true if one was written.
  unfoldable pub add_threads : Text → List Text → World → Bool × World
  add_threads path [] w = (false, w)
  add_threads path (name ∷ names) w =
      let (written, w') =
        (if is_hidden name then (false, w) else succeeds (write_file K path (take 31 name)) w) in
      let (added, w'') = add_threads path names w' in (written || added, w'')

  thread_listing : Text → ℤ → Option (List Text) → Exec World (Unit {0})
  unfolding add_threads
  thread_listing path pid none = write_file K path (decimal pid)
  thread_listing path pid (some names) = do added ← lift (add_threads path names); guard added

  unfoldable pub add_all_threads_to_cgroup : ℤ → Text → Exec World (Unit {0})
  unfolding thread_listing
  add_all_threads_to_cgroup pid path = do
    listing ← lift (K.read_dir (snprintf buf_size (text "/proc/" ++ (decimal pid ++ text "/task"))))
    thread_listing path pid listing

  module _ (rm : ResourceManager) (container_id : Text) where
    add_threads_below : ℤ → Text → Exec World Bool
    add_threads_below pid base =
        attempt (add_all_threads_to_cgroup pid (group_file base rm container_id (text "/tasks")))

    -- The joint group, or else both the cpu and the cpuacct group.
    unfoldable pub add_to_cpu_groups : ℤ → Exec World (Unit {0})
    unfolding add_threads_below
    add_to_cpu_groups pid = do
      joint ← add_threads_below pid cpu_cpuacct_cgroup_path
      when (not joint) do
        cpu ← add_threads_below pid cpu_cgroup_path
        cpuacct ← add_threads_below pid cpuacct_cgroup_path
        guard (cpu || cpuacct)

    add_process_at : CgroupVersion → ℤ → Exec World (Unit {0})
    unfolding add_to_cpu_groups
    add_process_at cgroup_v2 pid =
        write_file K (group_file cgroup_root rm container_id (text "/cgroup.procs")) (decimal pid)
    add_process_at cgroup_v1 pid = do
      add_to_cpu_groups pid
      memory ← add_threads_below pid memory_cgroup_path
      guard memory

    unfoldable pub resource_manager_add_process : ℤ → Exec World (Unit {0})
    unfolding add_process_at
    resource_manager_add_process pid = do
      guard (rm.initialized && is_positive pid)
      add_process_at rm.version pid

-- The process stays in its group.
abbrev pub resource_manager_remove_process : ResourceManager → Text → ℤ → Option (Unit {0})
resource_manager_remove_process rm container_id pid = some tt

-- The name is freed; what is left is a manager that every call refuses.
unfoldable pub resource_manager_cleanup : ResourceManager → ResourceManager
resource_manager_cleanup rm = record rm { cgroup_path = []; initialized = false }
