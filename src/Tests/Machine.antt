-- ===== src/Tests/Machine.antt =====
-- A small machine: a clock that every call moves on, and calls that all succeed. A process is the
-- clock's value when it is cloned.
use mini_container.Prelude.{ℕ, ◌+◌, true, [], ◌∷◌, none, some, pos, length}
use mini_container.Kernel.{Kernel, returned}
use mini_container.Config.{ContainerConfig, ContainerManager, cgroup_v2}
use mini_container.Resource.{resource_limits_init}
use mini_container.Namespace.{namespace_config_init}
use mini_container.Filesystem.{fs_config_init}
use mini_container.Manager.Table.{Sys}
use mini_container.Manager.Lifecycle.{Fuel}

abbrev pub machine : Kernel
machine = record {
  World = ℕ;
  alloc = λ w. (true, w);
  time = λ w. (pos w, w + 1);
  usleep = λ n w. w;
  access = λ mode path w. true;
  stat = λ path w. true;
  mkdir = λ path w. (returned tt, w);
  rmdir = λ path w. (returned tt, w);
  mknod = λ path mode major minor w. (returned tt, w);
  open_file = λ mode path w. (returned 3, w);
  read = λ fd size w. (returned [], w);
  write = λ fd bytes w. (returned (length bytes), w);
  close = λ fd w. w;
  chdir = λ path w. (returned tt, w);
  chroot = λ path w. (returned tt, w);
  mount = λ source target fstype flags w. (returned tt, w);
  umount = λ path w. (returned tt, w);
  read_dir = λ path w. (none, w);
  read_text = λ path w. (none, w);
  write_text = λ path contents w. (true, w);
  kill = λ pid signal w. (returned tt, w);
  waitpid = λ pid nohang w. ((pid, 256), w);
  clone = λ flags command w. (pos w, w + 1);
  setns = λ fd ns_type w. (returned tt, w);
  execvp = λ command w. (true, w);
  fork = λ w. (pos w, w + 1);
}

abbrev pub fuel : Fuel
fuel = record { tree_depth = 4; path_names = 8; file_reads = 2 }

abbrev pub empty_manager : ContainerManager
empty_manager = record {
  rm = record { cgroup_path = b'm' ∷ []; initialized = true; version = cgroup_v2 };
  containers = [];
  max_containers = 1;
}

abbrev pub at_start : Sys machine
at_start = record { manager = empty_manager; world = 100 }

unfoldable pub config : ContainerConfig
unfolding resource_limits_init namespace_config_init fs_config_init
config = record {
  id = none;
  root_path = none;
  ns_config = namespace_config_init;
  res_limits = resource_limits_init;
  fs_config = fs_config_init;
  command = some (some (b'x' ∷ []) ∷ []);
  command_argc = pos 1;
}
