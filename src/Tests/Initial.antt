-- ===== src/Tests/Initial.antt =====
-- `container_manager_init` at concrete inputs.
use mini_container.Prelude.{◌≡◌, refl, [], some, true, pos}
use mini_container.Text.{text}
use mini_container.Config.{ContainerManager, cgroup_v2}
use mini_container.Resource.{
  resource_manager_init, check_controllers, detect_cgroup_version, read_file,
}
use mini_container.Manager.StateFile.{load_state}
use mini_container.Manager.Runs.{container_manager_init}
use mini_container.Manager.Runs.Initial.{IsInitial, container_manager_init-IsInitial}
use mini_container.Tests.Machine.{machine}

abbrev fresh : ContainerManager
fresh = record {
  rm = record { cgroup_path = text "mini_container"; initialized = true; version = cgroup_v2 };
  containers = [];
  max_containers = 2;
}

initialized : (container_manager_init machine (pos 2) 5).0 ≡ some fresh
unfolding container_manager_init resource_manager_init load_state check_controllers
    detect_cgroup_version read_file
initialized = refl

container_manager_init-IsInitial_example : IsInitial machine fresh
container_manager_init-IsInitial_example =
    container_manager_init-IsInitial machine (pos 2) 5 fresh initialized
