-- ===== src/Command/Dispatch.antt =====
-- `main` of src/main.cpp.
pub mod Laws
use Prim.Native.String.{String}
use mini_container.Prelude.{
  ℕ, Bool, true, false, ◌||◌, List, [], ◌∷◌, Option, none, some, ◌==◌, if◌then◌else◌, ℤ, pos,
}
use mini_container.Text.{Text, text, text_eq}
use mini_container.Kernel.{Kernel}
use mini_container.Manager.Table.{Sys}
use mini_container.Manager.Lifecycle.{Fuel}
use mini_container.Manager.Runs.{container_manager_init, container_manager_cleanup}
use mini_container.Command.Options.{Library}
use mini_container.Command.Handlers.{
  RunEnd, exits, sleeps, handle_run, handle_start, handle_stop, handle_exec, handle_destroy,
  handle_info,
}
use mini_container.Command.Monitor.{Sort, display_monitor}
use mini_container.Command.Menu.{Round, interactive_menu}

-- What comes from outside while the program runs: what `sysinfo` reports, the rounds of the menu
-- and the keys of the monitor.
pub record Terminal : Type 0 where
  pub sysinfo : Option ℕ
  pub rounds : List Round
  pub keys : List (Option ℕ)

abbrev is_known : Option Text → Bool
is_known none = false
is_known (some output) = true

module _ (K : Kernel) (fuel : Fuel) (lib : Library) (sort : Sort) (terminal : Terminal) where
  open K use {World}

  abbrev exits_with : Bool × Sys K → RunEnd × Sys K
  exits_with r = (exits r.0, r.1)

  abbrev menu : Sys K → Sys K
  menu = interactive_menu K fuel lib sort terminal.sysinfo terminal.rounds

  -- The chain on the command's word, which the handler sees as its first argument.
  unfoldable pub dispatch_command : Text → List Text → Sys K → RunEnd × Sys K
  dispatch_command command args s =
      let is : String → Bool = λ word. text_eq command (text word) in
      let argv = command ∷ args in
      let (output, told) = handle_info K fuel lib argv s in
      if is "run"
      then handle_run K fuel lib argv s
      else if is "start"
      then exits_with (handle_start K fuel lib argv s)
      else if is "stop"
      then exits_with (handle_stop K fuel lib argv s)
      else if is "list"
      then (exits true, s)
      else if is "exec"
      then exits_with (handle_exec K fuel lib argv s)
      else if is "destroy"
      then exits_with (handle_destroy K fuel lib argv s)
      else if is "info"
      then (exits (is_known output), told)
      else if is "monitor" || is "htop"
      then (exits true, display_monitor K sort terminal.keys s)
      else if is "interactive" || is "menu"
      then (exits true, menu s)
      else (exits (is "help" || is "-h" || is "--help"), s)

  -- `argv` without the program's name. Without a command the menu runs.
  unfoldable pub dispatch : List Text → Sys K → RunEnd × Sys K
  unfolding dispatch_command
  dispatch [] s = (exits true, menu s)
  dispatch (command ∷ args) s = dispatch_command command args s

  -- The clean-up is left out behind `run`.
  is_run : List Text → Bool
  is_run [] = false
  is_run (command ∷ args) = text_eq command (text "run")

  unfoldable pub main : List Text → World → RunEnd × World
  unfolding is_run dispatch
  main args w =
      let (manager, w') = container_manager_init K (pos 10000) w in
      elim manager [
        | none ↦ (exits false, w')
        | some m ↦
            let (end, s) = dispatch args (record { manager = m; world = w' }) in
            (end, if is_run args then s.world else container_manager_cleanup K s)
      ]
