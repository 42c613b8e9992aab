-- ===== src/Tests/Calls.antt =====
-- The calls of the manager at concrete inputs.
use mini_container.Prelude.{
  ◌≡◌, ◌↔◌, true, refl, ◌≢◌, ◌∷◌, [], none, some, pos, arith, List, Option, ℕ, int_of_long,
}
use mini_container.Text.{Text, text, text_eq, strtol}
use mini_container.Config.{ContainerInfo, running, created}
use mini_container.Namespace.{runs, ns_pid, ns_mnt}
use mini_container.Manager.Table.{
  Sys, find_container, container_manager_get_info, find_container_by_pid,
}
use mini_container.Manager.Copying.{copy_container_config}
use mini_container.Manager.Copying.Laws.{deep_copy, copy_container_config-eq}
use mini_container.Manager.Lifecycle.{
  container_manager_create, container_manager_start, container_manager_stop,
  container_manager_destroy,
}
use mini_container.Manager.Lifecycle.Creation.{Creates, chosen_id, container_manager_create-Creates}
use mini_container.Manager.Lifecycle.Starting.{Starts, found_by, container_manager_start-Starts}
use mini_container.Manager.Lifecycle.Stopping.{Stops, container_manager_stop-Stops}
use mini_container.Manager.Runs.{exec_child}
use mini_container.Manager.Runs.Executing.{exec_child-runs}
use mini_container.Namespace.Child.{Joins, ns_file}
use mini_container.Manager.Removal.{container_manager_destroy-view, destroy_by_pid}
use mini_container.Manager.Table.Lookup.{info_of}
use mini_container.Manager.Spec.{view, put, view-found}
use mini_container.Manager.Validity.{IsValid}
use mini_container.Manager.StateFile.{load_state}
use mini_container.Manager.Reload.{load_state-container_manager_start}
use mini_container.Tests.Machine.{machine, fuel, at_start, config, empty_manager}

abbrev one : Text
one = b'1' ∷ []

abbrev live : ContainerInfo
live = record {
  id = one;
  pid = pos 9;
  state = running;
  created_at = pos 1;
  started_at = pos 2;
  stopped_at = pos 0;
  saved_config = some config;
}

abbrev idle : ContainerInfo
idle = record live { state = created; pid = pos 0; started_at = pos 0 }

abbrev sys : ContainerInfo → Sys machine
sys c = record { manager = record empty_manager { containers = c ∷ [] }; world = 100 }

sys-IsValid : (c : ContainerInfo) → IsValid (sys c).manager
unfolding info_of
sys-IsValid c = record { distinct = (refl, tt); fits = omega arith; room = omega arith }

container_manager_create-Creates_example :
    Creates machine fuel config at_start
      (chosen_id machine fuel config config.id at_start)
      (container_manager_create machine fuel (some config) at_start)
container_manager_create-Creates_example =
    container_manager_create-Creates machine fuel config at_start

container_manager_start-Starts_example :
    Starts machine fuel (sys idle) one (container_manager_start machine fuel one (sys idle))
container_manager_start-Starts_example = container_manager_start-Starts machine fuel (sys idle) one

container_manager_stop-Stops_example :
    Stops machine fuel
      (sys live)
      (found_by machine fuel (sys live) one)
      (container_manager_stop machine fuel one (sys live))
container_manager_stop-Stops_example = container_manager_stop-Stops machine fuel (sys live) one

container_manager_destroy-view_example :
    ((container_manager_destroy machine fuel one (sys live)).0 ≡ some tt)
    × (view (container_manager_destroy machine fuel one (sys live)).1.manager
        ≡ put (view (sys live).manager) one none)
container_manager_destroy-view_example =
    container_manager_destroy-view machine fuel (sys live) (sys-IsValid live) one live
      (view-found (sys live).manager 0 live refl (sys-IsValid live))

abbrev nine : Text
nine = b'9' ∷ []

one_only : find_container (sys live).manager.containers nine ≡ none
unfolding find_container text_eq
one_only = refl

found_by_pid : container_manager_get_info (sys live).manager.containers nine ≡ some (0, live)
unfolding container_manager_get_info find_container text_eq find_container_by_pid strtol int_of_long
found_by_pid = refl

destroy_by_pid_example :
    ((container_manager_destroy machine fuel nine (sys live)).0 ≡ some tt)
    × (view (container_manager_destroy machine fuel nine (sys live)).1.manager one ≢ none)
destroy_by_pid_example =
    destroy_by_pid machine fuel (sys live) (sys-IsValid live) nine 0 live one_only found_by_pid

copied : (copy_container_config machine config 5).0 ≡ some (deep_copy config)
unfolding copy_container_config deep_copy config
copied = refl

copy_container_config-eq_example : deep_copy config ≡ deep_copy config
copy_container_config-eq_example = copy_container_config-eq machine config 5 copied

abbrev command : List (Option Text)
command = some (b'l' ∷ b's' ∷ []) ∷ []

exec_child-runs_example : ((exec_child machine (pos 9) command 5).0 ≡ runs command) ↔ (
    (command ≡ command)
    × ((u : ℕ) × (v : ℕ) × Joins machine (ns_file (pos 9) (text "pid")) ns_pid 5 u
        × Joins machine (ns_file (pos 9) (text "mnt")) ns_mnt u v
        × ((machine.execvp command v).0 ≡ true)))
exec_child-runs_example = exec_child-runs machine (pos 9) command command 5

load_state-container_manager_start_example :
    (container_manager_start machine fuel one (load_state machine at_start).1).0 ≡ none
load_state-container_manager_start_example =
    load_state-container_manager_start machine fuel at_start refl one
