-- ===== src/Resource/Cgroups/Creation.antt =====
-- What `resource_manager_create_cgroup` needs, and which limits it applies.
use mini_container.Prelude.{◌≡◌, ◌↔◌, Bool, true, false, ◌||◌, some, arith, if◌then◌else◌}
use mini_container.Text.{Text}
use mini_container.Kernel.{Kernel, Returned, returned, error, eexist}
use mini_container.Config.{cgroup_v1, cgroup_v2, ResourceLimits, ResourceManager}
use mini_container.Resource.Paths.{
  cgroup_root, cpu_cgroup_path, cpu_cpuacct_cgroup_path, cpuacct_cgroup_path, memory_cgroup_path,
  group_dir,
}
use mini_container.Resource.Cgroups.{
  make_dir, make_cpu_dirs_v1, make_group_dirs, apply_limits, resource_manager_create_cgroup,
}

-- A directory is there after a `mkdir` that succeeded or failed with EEXIST.
abbrev pub is_there : {A : Type 0} → Returned A → Bool
is_there (returned a) = true
is_there (error eexist) = true
is_there (error _) = false

module _ (K : Kernel) (rm : ResourceManager) (id : Text) where
  -- What `mkdir` answers for the group's directory under a root, and the system after the call.
  abbrev pub made : Text → K.World → Bool
  made base v = is_there (K.mkdir (group_dir base rm id) v).0

  abbrev pub after : Text → K.World → K.World
  after base v = (K.mkdir (group_dir base rm id) v).1

  module _ (limits : ResourceLimits) (w : K.World) where
    -- Under cgroup v2 `resource_manager_create_cgroup` returns 0 exactly if the manager is
    -- initialized and `mkdir` of the one directory of the group succeeded or failed with EEXIST: a
    -- limit that cannot be written is no failure.
    pub create_cgroup_v2 :
        rm.version ≡ cgroup_v2
        → ((resource_manager_create_cgroup K rm id limits w).0 ≡ some tt)
          ↔ ((rm.initialized ≡ true) × (made cgroup_root w ≡ true))
    unfolding resource_manager_create_cgroup make_group_dirs make_dir apply_limits
    create_cgroup_v2 e = ground arith

    -- Under cgroup v1, with the manager initialized, it returns 0 exactly if `mkdir` of the joint
    -- cpu,cpuacct directory or else of the cpu directory, and then of the memory directory, each
    -- succeeded or failed with EEXIST.
    pub create_cgroup_v1 :
        rm.version ≡ cgroup_v1
        → rm.initialized ≡ true
        → ((resource_manager_create_cgroup K rm id limits w).0 ≡ some tt) ↔ (
            ((made cpu_cpuacct_cgroup_path w
                || made cpu_cgroup_path (after cpu_cpuacct_cgroup_path w))
              ≡ true)
            × (made memory_cgroup_path (
                  if made cpu_cpuacct_cgroup_path w
                  then after cpu_cpuacct_cgroup_path w
                  else after cpuacct_cgroup_path
                      (after cpu_cgroup_path (after cpu_cpuacct_cgroup_path w)))
                ≡ true))
    unfolding resource_manager_create_cgroup make_group_dirs make_cpu_dirs_v1 make_dir apply_limits
    create_cgroup_v1 e on = ground arith
