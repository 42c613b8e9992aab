-- ===== src/Manager/Runs.antt =====
-- The operations of src/container_manager.cpp that put others together: init, run, exec, list,
-- cleanup.
pub mod Laws
pub mod Executing
pub mod Started
pub mod Outcome
pub mod Initial
use mini_container.Prelude.{
  ℕ, ◌/◌, ◌%◌, false, not, List, [], Option, none, some, Exec, pure, fail, guard, lift, attempt,
  ◌>>=◌, ◌>>◌, if◌then◌else◌, ltb, length, ℤ, eqℤ, to_ℕ, is_positive, minus_one,
}
use mini_container.Text.{Text, text}
use mini_container.Kernel.{Kernel}
use mini_container.Config.{ContainerConfig, ContainerInfo, ContainerManager, is_running, running}
use mini_container.Resource.{resource_manager_init}
use mini_container.Namespace.{
  ChildOutcome, exits_with_failure, runs, ns_pid, ns_mnt, namespace_join,
}
use mini_container.Manager.Table.{
  default_max_containers, find_container, Sys, lift_world, containers_of, generate_container_id,
}
use mini_container.Manager.StateFile.{save_state, load_state}
use mini_container.Manager.Lifecycle.{
  Fuel, saving, writing, cloning, container_manager_create, container_manager_destroy,
}

-- The processes that a call of `container_manager_exec` may return in: the caller, with -1 or the
-- exit status of the command, or the child that runs the command.
unfoldable pub exec_status : ℕ → ℕ
exec_status status = status / 256 % 256

module _ (K : Kernel) where
  open K use {World}

  -- The system that `container_manager_init` hands to `load_state`, and the end of both.
  load_and_save : ContainerManager → World → ContainerManager × World
  load_and_save manager w =
      let (loaded, s) = load_state K (record { manager = manager; world = w }) in
      let s' = save_state K s in
      if ltb 0 loaded then (s'.manager, s'.world) else (s.manager, s.world)

  unfoldable pub container_manager_init : ℤ → Exec World ContainerManager
  unfolding load_and_save
  container_manager_init max_containers = do
    for_rm ← lift K.alloc
    guard for_rm
    for_table ← lift K.alloc
    guard for_table
    rm ← resource_manager_init K (text "mini_container")
    lift (
        load_and_save (record {
          rm = rm;
          containers = [];
          max_containers =
              if is_positive max_containers then to_ℕ max_containers else default_max_containers;
        }))

  unfoldable pub container_manager_list : Sys K → List ContainerInfo × ℕ
  container_manager_list s = (containers_of K s, length (containers_of K s))

  -- The child that `container_manager_exec` forks.
  unfoldable pub exec_child : ℤ → List (Option Text) → World → ChildOutcome × World
  exec_child target command w =
      let (joined_pid, w1) = namespace_join K target ns_pid w in
      let (joined_mnt, w2) = namespace_join K target ns_mnt w1 in
      let (replaced, w3) = K.execvp command w2 in
      elim joined_pid [
        | none ↦ (exits_with_failure, w1)
        | some u ↦ elim joined_mnt [
          | none ↦ (exits_with_failure, w2)
          | some v ↦ if replaced then (runs command, w3) else (exits_with_failure, w3)
        ]
      ]

  -- The caller's side: the lookup is by identifier alone.
  unfoldable pub container_manager_exec : Text → Exec (Sys K) ℕ
  container_manager_exec container_id s =
      (do
        found ← (λ s. (find_container (containers_of K s) container_id, s))
        guard (is_running found.1.state)
        pid ← lift_world K K.fork
        guard (not (eqℤ pid minus_one))
        waited ← lift_world K (K.waitpid pid false)
        guard (not (eqℤ waited.0 minus_one))
        pure (exec_status waited.1))
        s

  -- The state file is written, the resource manager given up and the table freed.
  unfoldable pub container_manager_cleanup : Sys K → World
  container_manager_cleanup s = (save_state K s).world

module _ (K : Kernel) (fuel : Fuel) where
  -- -1 after the container that cannot run is destroyed.
  pub giving_up : Text → Exec (Sys K) (Unit {0})
  giving_up id = do attempt (container_manager_destroy K fuel id); fail

  pub start_new : Text → ℕ → ContainerConfig → Exec (Sys K) (Unit {0})
  start_new id i saved s =
      let (started, s') = cloning K fuel id saved s in
      elim started [
        | none ↦ giving_up id s'
        | some pid ↦
            (do
              now ← lift_world K K.time
              writing K fuel i λ c. record c { pid = pid; state = running; started_at = now }
              saving K fuel)
              s'
      ]

  -- Without a saved configuration, or a command in it, the container is given up.
  start_saved : Text → ℕ → Option ContainerConfig → Exec (Sys K) (Unit {0})
  unfolding start_new giving_up
  start_saved id i none = giving_up id
  start_saved id i (some saved) = elim saved.command [
    | none ↦ giving_up id
    | some command ↦ start_new id i saved
  ]

  pub start_found : Text → Option (ℕ × ContainerInfo) → Exec (Sys K) (Unit {0})
  unfolding start_saved
  start_found id none = giving_up id
  start_found id (some (i, info)) = start_saved id i info.saved_config

  run_as : Text → ContainerConfig → Exec (Sys K) (Unit {0})
  unfolding start_found
  run_as id config = do
    container_manager_create K fuel (some (record config { id = some id }))
    found ← (λ s. (some (find_container (containers_of K s) id), s))
    start_found id found

  -- A configuration without an identifier gets a generated one.
  pub identify : Option Text → Exec (Sys K) Text
  identify none = generate_container_id K
  identify (some id) = pure id

  run_named : Option Text → ContainerConfig → Exec (Sys K) Text
  unfolding run_as identify
  run_named o config = do id ← identify o; run_as id config; pure id

  -- The result is the identifier that the call leaves in `config->id`.
  unfoldable pub container_manager_run : Option ContainerConfig → Exec (Sys K) Text
  unfolding run_named
  container_manager_run none = fail
  container_manager_run (some config) = run_named config.id config
