-- ===== src/Manager/Lifecycle.antt =====
-- The operations of src/container_manager.cpp on a container: create, start, stop, destroy, run,
-- exec. The pointer to the manager is never null here; that of a configuration may be.
pub mod Frame
pub mod Told
pub mod Creation
pub mod Starting
pub mod Stopping
use mini_container.Prelude.{
  ℕ, zero, suc, Bool, true, false, not, ◌||◌, List, Option, none, some, Exec, pure, fail, guard,
  when, lift, gets, if_ok, attempt, is_some, ◌>>=◌, ◌>>◌, if◌then◌else◌, ℤ, pos, eqℤ, is_positive,
  minus_one,
}
use mini_container.Text.{Text, text, scan_ints}
use mini_container.Kernel.{Kernel, signal_probe, sigkill, is_returned}
use mini_container.Config.{
  CgroupVersion, cgroup_v1, cgroup_v2, ContainerConfig, ContainerInfo, created, running, stopped,
  is_running, is_created, is_stopped, is_destroyed, ResourceManager,
}
use mini_container.Resource.{
  cgroup_root, cpu_cpuacct_cgroup_path, group_file, resource_manager_create_cgroup,
  resource_manager_destroy_cgroup, resource_manager_add_process,
}
use mini_container.Process.{each, send, kill_process_tree}
use mini_container.Namespace.{namespace_create_container_with_cgroup}
use mini_container.Filesystem.{fs_create_minimal_root, fs_populate_container_root}
use mini_container.Manager.Table.{
  Found, find_container, container_manager_get_info, Sys, on_world, lift_world, containers_of,
  generate_container_id, add_container, remove_container, update_at,
}
use mini_container.Manager.Copying.{copy_container_config}
use mini_container.Manager.StateFile.{save_state}

-- What bounds the loops and recursions whose length the system decides.
pub record Fuel : Type 0 where
  pub tree_depth : ℕ
  pub path_names : ℕ
  pub file_reads : ℕ

-- The entry that `container_manager_create` fills in.
abbrev pub new_info : Text → ℤ → ContainerConfig → ContainerInfo
new_info id now saved = record {
  id = id;
  pid = pos 0;
  state = created;
  created_at = now;
  started_at = pos 0;
  stopped_at = pos 0;
  saved_config = some saved;
}

module _ (K : Kernel) (fuel : Fuel) where
  abbrev S : Type 0
  S = Sys K

  abbrev pub saving : Exec S (Unit {0})
  saving = lift λ s. (tt, save_state K s)

  abbrev pub writing : ℕ → (ContainerInfo → ContainerInfo) → Exec S (Unit {0})
  writing i f = lift λ s. (tt, update_at K i f s)

  -- A container that the table holds, as the lookup finds it.
  abbrev pub finding : (List ContainerInfo → Found) → Exec S (ℕ × ContainerInfo)
  finding look s = (look (containers_of K s), s)

  -- A step whose failure is undone before -1 is returned.
  abbrev or_undo : {A : Type 0} → Exec S A → Exec S (Unit {0}) → Exec S A
  or_undo m undo s =
      let (r, s') = m s in elim r [ none ↦ (none, (undo s').1) | some a ↦ (some a, s') ]

  unfoldable pub destroying_cgroup : Text → Exec S (Unit {0})
  destroying_cgroup id s = on_world K (resource_manager_destroy_cgroup K s.manager.rm id) s

  unfoldable pub creating_cgroup : Text → ContainerConfig → Exec S (Unit {0})
  creating_cgroup id config s =
      on_world K (resource_manager_create_cgroup K s.manager.rm id config.res_limits) s

  abbrev allocating : Exec S (Unit {0})
  allocating = do ok ← lift_world K K.alloc; guard ok

  choose_id : Option Text → Exec S Text
  choose_id none = generate_container_id K
  choose_id (some id) = do allocating; pure id

  unfoldable pub make_root : ContainerConfig → Exec S (Unit {0})
  make_root config = when config.fs_config.create_minimal_fs do
    on_world K (fs_create_minimal_root K fuel.path_names config.fs_config.root_path)
    attempt (
        on_world K (
          fs_populate_container_root K fuel.file_reads config.fs_config.root_path
            (some (text "/"))))
    pure tt

  create_as : ContainerConfig → Text → Exec S (Unit {0})
  unfolding creating_cgroup destroying_cgroup make_root
  create_as config id = do
    known ← gets λ s. is_some (find_container (containers_of K s) id)
    guard (not known)
    allocating
    now ← lift_world K K.time
    saved ← on_world K (copy_container_config K config)
    creating_cgroup id config
    or_undo (make_root config) (destroying_cgroup id)
    or_undo (add_container K (new_info id now saved)) (destroying_cgroup id)
    saving

  unfoldable pub container_manager_create : Option ContainerConfig → Exec S (Unit {0})
  unfolding create_as choose_id
  container_manager_create none = fail
  container_manager_create (some config) = do id ← choose_id config.id; create_as config id

  -- The process of a container, put into the groups that `id` names; -1 is a failure.
  unfoldable pub cloning : Text → ContainerConfig → Exec S ℤ
  cloning id config s =
      (do
        pid ← lift_world K (
            namespace_create_container_with_cgroup K config.ns_config config.command
              config.command_argc
              (some λ pid w. (resource_manager_add_process K s.manager.rm id pid w).1))
        guard (not (eqℤ pid minus_one))
        pure pid)
        s

  unfoldable pub container_manager_start : Text → Exec S (Unit {0})
  container_manager_start container_id = do
    found ← finding λ cs. container_manager_get_info cs container_id
    let info = found.1
    guard (not (is_running info.state))
    guard (not (is_destroyed info.state))
    guard (is_created info.state || is_stopped info.state)
    config ← if_ok info.saved_config
    creating_cgroup container_id config
    pid ← cloning container_id config
    now ← lift_world K K.time
    writing found.0
        λ c. record c { pid = pid; state = running; started_at = now; stopped_at = pos 0 }
    saving

  -- Up to 50 polls, a tenth of a second apart.
  unfoldable pub wait_loop : ℕ → ℤ → K.World → Bool × K.World
  wait_loop zero pid w = (false, w)
  wait_loop (suc n) pid w =
      let (waited, w') = K.waitpid pid true w in
      let rest = wait_loop n pid (K.usleep 100000 w') in
      if eqℤ waited.0 pid then (true, w') else rest

  unfoldable pub kill_unless_waited : ℤ → Bool × K.World → K.World
  kill_unless_waited pid (true, w) = w
  kill_unless_waited pid (false, w) =
      let (there, w') = K.kill pid signal_probe w in
      if is_returned there
      then (K.waitpid pid true (K.usleep 200000 (send K sigkill pid w'))).1
      else w'

  unfoldable pub procs_path : CgroupVersion → ResourceManager → Text → Text
  procs_path cgroup_v2 rm id = group_file cgroup_root rm id (text "/cgroup.procs")
  procs_path cgroup_v1 rm id = group_file cpu_cpuacct_cgroup_path rm id (text "/tasks")

  kill_listed : Option Text → K.World → K.World
  unfolding each
  kill_listed none w = w
  kill_listed (some contents) w =
      each (λ pid w. if is_positive pid then kill_process_tree K fuel.tree_depth pid w else w)
        (scan_ints contents) w

  -- The processes of the group, then that of the container, then the wait for it.
  unfoldable pub stop_processes : ResourceManager → Text → ℤ → K.World → K.World
  unfolding procs_path kill_listed
  stop_processes rm id pid w =
      let (contents, w') = K.read_text (procs_path rm.version rm id) w in
      kill_unless_waited pid
        (wait_loop 50 pid (kill_process_tree K fuel.tree_depth pid (kill_listed contents w')))

  unfoldable pub container_manager_stop : Text → Exec S (Unit {0})
  container_manager_stop container_id = do
    found ← finding λ cs. container_manager_get_info cs container_id
    let info = found.1
    guard (is_running info.state)
    lift λ s. (tt, record s { world = stop_processes s.manager.rm info.id info.pid s.world })
    now ← lift_world K K.time
    writing found.0 λ c. record c { state = stopped; stopped_at = now }
    saving

  stop_if_running : ContainerInfo → Exec S (Unit {0})
  stop_if_running info =
      when (is_running info.state) (do attempt (container_manager_stop info.id); pure tt)

  unfoldable pub container_manager_destroy : Text → Exec S (Unit {0})
  unfolding stop_if_running
  container_manager_destroy container_id = do
    found ← finding λ cs. container_manager_get_info cs container_id
    stop_if_running found.1
    attempt (destroying_cgroup found.1.id)
    lift λ s. (tt, remove_container K container_id s)
    saving
