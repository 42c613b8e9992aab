-- ===== src/Resource/Paths.antt =====
-- The paths of src/resource_manager.cpp, as `snprintf` leaves them in a buffer of BUF_SIZE bytes.
use mini_container.Prelude.{ℕ, ◌++◌}
use mini_container.Text.{Text, text, snprintf}
use mini_container.Config.{ResourceManager}

abbrev pub buf_size : ℕ
buf_size = 512

abbrev pub cgroup_root : Text
cgroup_root = text "/sys/fs/cgroup"

abbrev pub cgroup_v2_controllers : Text
cgroup_v2_controllers = text "/sys/fs/cgroup/cgroup.controllers"

abbrev pub cpu_cgroup_path : Text
cpu_cgroup_path = text "/sys/fs/cgroup/cpu"

abbrev pub cpuacct_cgroup_path : Text
cpuacct_cgroup_path = text "/sys/fs/cgroup/cpuacct"

abbrev pub cpu_cpuacct_cgroup_path : Text
cpu_cpuacct_cgroup_path = text "/sys/fs/cgroup/cpu,cpuacct"

abbrev pub memory_cgroup_path : Text
memory_cgroup_path = text "/sys/fs/cgroup/memory"

-- "%s/%s_%s" and a file name behind it, before the buffer cuts it.
unfoldable pub group_name : Text → ResourceManager → Text → Text → Text
group_name base rm container_id file =
    base ++ (text "/" ++ (rm.cgroup_path ++ (text "_" ++ (container_id ++ file))))

unfoldable pub group_file : Text → ResourceManager → Text → Text → Text
unfolding group_name
group_file base rm container_id file = snprintf buf_size (group_name base rm container_id file)

-- The directory of a container's group.
unfoldable pub group_dir : Text → ResourceManager → Text → Text
unfolding group_file
group_dir base rm container_id = group_file base rm container_id (text "")
