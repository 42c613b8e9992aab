-- ===== src/Command/Shutdown.antt =====
-- `signal_handler` of src/main.cpp, up to the `exit(0)` at its end.
pub mod Loops
pub mod Quiet
use mini_container.Prelude.{
  ℕ, zero, suc, Bool, true, false, ◌||◌, List, Option, none, some, if◌then◌else◌, ℤ, is_positive,
  get_elem?, length,
}
use mini_container.Text.{Text, scan_ints}
use mini_container.Kernel.{Kernel, Signal, sigterm, sigkill}
use mini_container.Config.{
  ContainerInfo, ContainerState, created, running, stopped, destroyed, unnamed, is_running,
}
use mini_container.Process.{each, send}
use mini_container.Manager.Table.{Sys, containers_of, update_at}
use mini_container.Manager.Lifecycle.{Fuel, procs_path, container_manager_stop}
use mini_container.Manager.Runs.{container_manager_cleanup}

-- `for (int i = 0; i < count; i++)`: the rounds left, and the index.
unfoldable pub count_up {ℓ} : {S : Type ℓ} → (ℕ → S → S) → ℕ → ℕ → S → S
count_up body zero i s = s
count_up body (suc n) i s = count_up body n (suc i) (body i s)

module _ (K : Kernel) (fuel : Fuel) where
  -- The body of a loop over the table: what it does to the entry that stands at the index now.
  unfoldable pub at_entry : (ℕ → ContainerInfo → Sys K → Sys K) → ℕ → Sys K → Sys K
  at_entry body i s = elim (get_elem? (containers_of K s) i) [ none ↦ s | some c ↦ body i c s ]

  -- The signal, to the processes that the group of the container lists.
  unfoldable pub signal_group : Signal → ContainerInfo → Sys K → Sys K
  unfolding procs_path
  signal_group signal info s =
      let rm = s.manager.rm in
      let (contents, w) = K.read_text (procs_path K fuel rm.version rm info.id) s.world in
      record s {
        world = elim contents [
          | none ↦ w
          | some file ↦
              each (λ pid v. if is_positive pid then send K signal pid v else v) (scan_ints file) w
        ];
      }

  abbrev stopping : ContainerInfo → Sys K → Sys K
  stopping info s = (container_manager_stop K fuel info.id s).1

  unfoldable pub ask_to_end : ℕ → ContainerInfo → Sys K → Sys K
  ask_to_end i info s = if is_running info.state then signal_group sigterm info s else s

  unfoldable pub stop_running_entry : ℕ → ContainerInfo → Sys K → Sys K
  stop_running_entry i info s = if is_running info.state then stopping info s else s

  unfoldable pub kill_entry : ℕ → ContainerInfo → Sys K → Sys K
  kill_entry i info s =
      let s' = signal_group sigkill info s in
      if is_running info.state then stopping info s' else if is_positive info.pid then s' else s

  -- A container that was never started counts as stopped now.
  settle_in : ContainerState → ℕ → ContainerInfo → Sys K → Sys K
  settle_in created i info s =
      let (now, w) = K.time s.world in
      update_at K i (λ c. record c { state = stopped; stopped_at = now }) (record s { world = w })
  settle_in running i info s = stopping info s
  settle_in _ i info s = s

  unfoldable pub settle_entry : ℕ → ContainerInfo → Sys K → Sys K
  unfolding settle_in
  settle_entry i info s = settle_in info.state i info s

  unfoldable pub over_table : (ℕ → ContainerInfo → Sys K → Sys K) → Sys K → Sys K
  unfolding count_up at_entry
  over_table body s = count_up (at_entry body) (length (containers_of K s)) 0 s

  abbrev pause : ℕ → Sys K → Sys K
  pause n s = record s { world = K.usleep n s.world }

  -- The four loops over the table, with the waits between them.
  unfoldable pub signal_handler : Sys K → Sys K
  signal_handler s =
      let asked = pause 500000 (over_table ask_to_end s) in
      let halted = pause 1000000 (over_table stop_running_entry asked) in
      over_table settle_entry (over_table kill_entry halted)

  -- What the system is when the handler exits.
  unfoldable pub shut_down : Sys K → K.World
  shut_down s = container_manager_cleanup K (signal_handler s)
