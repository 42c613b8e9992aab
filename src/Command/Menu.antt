-- ===== src/Command/Menu.antt =====
-- `interactive_menu` of src/main.cpp. The terminal is a list of rounds: the key that `read` gives,
-- if one came within the five seconds, and what is then typed.
pub mod Laws
use mini_container.Prelude.{
  ℕ, zero, suc, ◌*◌, Bool, true, false, not, ◌||◌, List, [], ◌∷◌, ◌++◌, Option, none, some, Exec,
  pure, fail, guard, lift, is_some, ◌>>=◌, ◌>>◌, ◌==◌, if◌then◌else◌, ℤ, pos, eqℤ, is_positive,
  length, map, ◌-◌,
}
use mathlib.Core.List.{reverse}
use mini_container.Text.{Text, text, atoi, is_empty}
use mini_container.Kernel.{Kernel}
use mini_container.Config.{
  ContainerConfig, ContainerInfo, CpuLimits, MemoryLimits, ResourceLimits, ContainerState, created,
  running, stopped, is_running,
}
use mini_container.Resource.{resource_limits_init}
use mini_container.Namespace.{namespace_config_init}
use mini_container.Filesystem.{fs_config_init}
use mini_container.Resource.Stats.{resource_manager_get_stats}
use mini_container.Manager.Table.{Sys, containers_of, container_manager_get_info}
use mini_container.Manager.Lifecycle.{Fuel}
use mini_container.Manager.Runs.{container_manager_run}
use mini_container.Command.Words.{split_words}
use mini_container.Command.Options.{Library, memory_bytes, ulong_of_int, duplicate}
use mini_container.Command.Listing.{info_text}
use mini_container.Command.Handlers.{
  Handler, handle_start, handle_stop, handle_destroy, handle_info,
}
use mini_container.Command.Shutdown.{over_table, stop_running_entry}
use mini_container.Command.Monitor.{Sort, display_compact_monitor, display_monitor}
use mini_container.Command.Workloads.{run_memory_cpu_test}
use mini_container.Command.Form.{fgets, chomp, typed_id, interactive_create_container}

-- What one turn of the menu reads: the key, the input behind it, and the keys of the full monitor.
pub record Round : Type 0 where
  pub key : Option ℕ
  pub typed : Text
  pub keys : List (Option ℕ)

module _ (K : Kernel) (fuel : Fuel) (lib : Library) where
  open K use {World}

  -- A handler under the word of its command, for one identifier.
  abbrev calling : Handler K fuel lib → Text → Text → Sys K → Sys K
  calling handler word id s = (handler (word ∷ id ∷ []) s).1

  -- The menu of option 7: 1 stops a RUNNING container and starts a STOPPED one.
  edit_in : ContainerState → Text → Sys K → Sys K
  edit_in running id s = calling (handle_stop K fuel lib) (text "stop") id s
  edit_in stopped id s = calling (handle_start K fuel lib) (text "start") id s
  edit_in _ id s = s

  chosen_edit : Option Text → ContainerState → Text → Sys K → Sys K
  unfolding edit_in
  chosen_edit none state id s = s
  chosen_edit (some option) state id s = if eqℤ (atoi option) (pos 1) then edit_in state id s else s

  -- What is shown of the container asks for the statistics of a RUNNING one.
  show_world : ContainerInfo → Text → Sys K → World
  show_world info id s =
      if is_running info.state
      then (resource_manager_get_stats K s.manager.rm id s.world).1
      else s.world

  edit : ContainerInfo → Text → Text → Sys K → Sys K
  unfolding chosen_edit show_world
  edit info id typed s =
      chosen_edit (fgets 10 typed).0 info.state id (record s { world = show_world info id s })

  -- What an option does with the identifier, if one is typed, and with its container, if there is
  -- one.
  abbrev Dialog : Type 0
  Dialog = Text → Text → Sys K → Sys K

  if_typed : Dialog → Text → Sys K → Sys K
  if_typed dialog typed s = elim (typed_id typed) [ none ↦ s | some (id, rest) ↦ dialog id rest s ]

  if_known : (ContainerInfo → Dialog) → Dialog
  if_known dialog id rest s = elim (container_manager_get_info (containers_of K s) id) [
    | none ↦ s
    | some (i, info) ↦ dialog info id rest s
  ]

  -- Option 6 does not take the blanks off.
  info_option : Option Text → Sys K → Sys K
  unfolding chomp
  info_option none s = s
  info_option (some line) s = (handle_info K fuel lib (text "info" ∷ chomp line ∷ []) s).1

  stop_option : Text → Sys K → Sys K
  unfolding if_typed
  stop_option = if_typed (λ id rest. calling (handle_stop K fuel lib) (text "stop") id)

  abbrev pub destroy_entry : ContainerInfo → Dialog
  destroy_entry info id rest = calling (handle_destroy K fuel lib) (text "destroy") id

  destroy_known : Dialog
  unfolding if_known
  destroy_known = if_known destroy_entry

  destroy_option : Text → Sys K → Sys K
  unfolding if_typed destroy_known
  destroy_option = if_typed destroy_known

  edit_option : Text → Sys K → Sys K
  unfolding if_typed if_known edit
  edit_option = if_typed (if_known edit)

  abbrev pub start_entry : ContainerInfo → Dialog
  start_entry info id rest = calling (handle_start K fuel lib) (text "start") id

  start_known : Dialog
  unfolding if_known
  start_known = if_known start_entry

  start_option : Text → Sys K → Sys K
  unfolding if_typed start_known
  start_option = if_typed start_known

  -- `sysinfo` and the sorting are the C and C++ libraries'.
  menu_option : Sort → Option ℕ → ℕ → Round → Sys K → Sys K
  unfolding stop_option destroy_option info_option edit_option start_option fgets
  menu_option sort sysinfo c round s =
      if c == b'1'
      then interactive_create_container K fuel lib round.typed s
      else if c == b'2'
      then display_monitor K sort round.keys s
      else if c == b'4'
      then stop_option round.typed s
      else if c == b'5'
      then destroy_option round.typed s
      else if c == b'6'
      then info_option (fgets 256 round.typed).0 s
      else if c == b'7'
      then edit_option round.typed s
      else if c == b'8'
      then start_option round.typed s
      else if c == b'9'
      then run_memory_cpu_test K fuel lib sysinfo s
      else if c == b'0'
      then over_table K fuel (stop_running_entry K fuel) s
      else s

  -- A turn of the loop, after which the menu goes on unless the option was 0.
  unfoldable pub menu_round : Sort → Option ℕ → Round → Sys K → Bool × Sys K
  unfolding menu_option
  menu_round sort sysinfo round s =
      let (screen, shown) = display_compact_monitor K sort s in
      elim round.key [
        | none ↦ (true, shown)
        | some c ↦ (not (c == b'0'), menu_option sort sysinfo c round shown)
      ]

  -- The list ends with the signal that ends the program.
  unfoldable pub interactive_menu : Sort → Option ℕ → List Round → Sys K → Sys K
  unfolding menu_round
  interactive_menu sort sysinfo [] s = s
  interactive_menu sort sysinfo (round ∷ rounds) s =
      let (goes_on, t) = menu_round sort sysinfo round s in
      let rest = interactive_menu sort sysinfo rounds t in if goes_on then rest else t
