-- ===== src/Command/Handlers.antt =====
-- The commands of src/main.cpp. Each handler gets the argument vector from the command's word on.
-- EXIT_SUCCESS is true. What is printed is modelled for `list` and `info` alone.
pub mod Laws
pub mod Detached
use mini_container.Prelude.{
  ℕ, zero, suc, Bool, true, false, not, ◌||◌, List, [], ◌∷◌, Option, none, some, Exec, succeeds,
  ◌==◌, if◌then◌else◌, ℤ, is_positive,
}
use mini_container.Text.{Text}
use mini_container.Kernel.{Kernel}
use mini_container.Config.{ContainerInfo}
use mini_container.Manager.Table.{Sys, containers_of, container_manager_get_info, Found}
use mini_container.Manager.Lifecycle.{
  Fuel, container_manager_start, container_manager_stop, container_manager_destroy,
}
use mini_container.Manager.Runs.{container_manager_run, container_manager_exec}
use mini_container.Command.Options.{Library, RunOptions, parse_run_options}
use mini_container.Command.Listing.{info_text}

-- How `handle_run` ends: with a code, or in `while (running) sleep(1);`, which only the signal
-- handler ends, and that exits the program.
pub data RunEnd : Type 0 where
  exits : Bool → RunEnd
  sleeps : RunEnd

module _ (K : Kernel) (fuel : Fuel) (lib : Library) where
  abbrev pub Handler : Type 0
  Handler = List Text → Sys K → Bool × Sys K

  -- The code of a call that takes the identifier in `argv[1]`.
  with_id : (Text → Exec (Sys K) (Unit {0})) → Handler
  with_id call (word ∷ id ∷ rest) s = succeeds (call id) s
  with_id call (word ∷ []) s = (false, s)
  with_id call [] s = (false, s)

  unfoldable pub handle_start : Handler
  unfolding with_id
  handle_start = with_id (container_manager_start K fuel)

  unfoldable pub handle_stop : Handler
  unfolding with_id
  handle_stop = with_id (container_manager_stop K fuel)

  unfoldable pub handle_destroy : Handler
  unfolding with_id
  handle_destroy = with_id (container_manager_destroy K fuel)

  abbrev is_zero : Option ℕ → Bool
  is_zero none = false
  is_zero (some n) = n == 0

  unfoldable pub handle_exec : Handler
  handle_exec (word ∷ id ∷ command ∷ rest) s =
      let (result, s') = container_manager_exec K id s in (is_zero result, s')
  handle_exec (word ∷ id ∷ []) s = (false, s)
  handle_exec (word ∷ []) s = (false, s)
  handle_exec [] s = (false, s)

  -- The output, or none for EXIT_FAILURE.
  unfoldable pub handle_info : List Text → Sys K → Option Text × Sys K
  handle_info (word ∷ id ∷ rest) s = elim (container_manager_get_info (containers_of K s) id) [
    | none ↦ (none, s)
    | some (i, info) ↦
        let (output, w) = info_text K lib s.manager.rm id info s.world in
        (some output, record s { world = w })
  ]
  handle_info (word ∷ []) s = (none, s)
  handle_info [] s = (none, s)

  -- After the container runs: with -d at once, and without it after its process has ended, the
  -- program sleeps until a signal.
  wait_for : Bool → Found → Sys K → RunEnd × Sys K
  wait_for detach none s = (exits true, s)
  wait_for true (some (i, info)) s = (sleeps, s)
  wait_for false (some (i, info)) s =
      if is_positive info.pid
      then (sleeps, record s { world = (K.waitpid info.pid false s.world).1 })
      else (exits true, s)

  unfoldable pub run_options : Option RunOptions → Sys K → RunEnd × Sys K
  unfolding wait_for
  run_options none s = (exits false, s)
  run_options (some o) s =
      let (started, s') = container_manager_run K fuel (some o.config) s in
      elim started [
        | none ↦ (exits false, s')
        | some id ↦ wait_for o.detach (container_manager_get_info (containers_of K s') id) s'
      ]

  unfoldable pub handle_run : List Text → Sys K → RunEnd × Sys K
  unfolding run_options
  handle_run argv s =
      let (options, w) = parse_run_options K lib argv s.world in
      run_options options (record s { world = w })
