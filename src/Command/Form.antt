-- ===== src/Command/Form.antt =====
-- `interactive_create_container` of src/main.cpp, and how a line is typed.
pub mod Laws
use mini_container.Prelude.{
  ℕ, zero, suc, ◌*◌, Bool, true, false, not, ◌||◌, List, [], ◌∷◌, ◌++◌, Option, none, some, Exec,
  pure, fail, guard, lift, is_some, ◌>>=◌, ◌>>◌, ◌==◌, if◌then◌else◌, ℤ, pos, eqℤ, is_positive,
  length, map, ◌-◌,
}
use mathlib.Core.List.{reverse}
use mini_container.Text.{Text, text, atoi, is_empty}
use mini_container.Kernel.{Kernel}
use mini_container.Config.{
  ContainerConfig, ContainerInfo, CpuLimits, MemoryLimits, ResourceLimits, ContainerState, created,
  running, stopped, is_running,
}
use mini_container.Resource.{resource_limits_init}
use mini_container.Namespace.{namespace_config_init}
use mini_container.Filesystem.{fs_config_init}
use mini_container.Resource.Stats.{resource_manager_get_stats}
use mini_container.Manager.Table.{Sys, containers_of, container_manager_get_info}
use mini_container.Manager.Lifecycle.{Fuel}
use mini_container.Manager.Runs.{container_manager_run}
use mini_container.Command.Words.{split_words}
use mini_container.Command.Options.{Library, memory_bytes, ulong_of_int, duplicate}
use mini_container.Command.Listing.{info_text}
use mini_container.Command.Handlers.{
  Handler, handle_start, handle_stop, handle_destroy, handle_info,
}
use mini_container.Command.Shutdown.{over_table, stop_running_entry}
use mini_container.Command.Monitor.{Sort, display_compact_monitor, display_monitor}
use mini_container.Command.Workloads.{run_memory_cpu_test}

-- `fgets` with room for so many bytes: the line up to and with its newline, and what is behind; no
-- line at the end of the input.
unfoldable pub line_of : ℕ → Text → Text × Text
line_of zero s = ([], s)
line_of (suc room) [] = ([], [])
line_of (suc room) (c ∷ s) =
    let (line, rest) = line_of room s in if c == 10 then (c ∷ [], s) else (c ∷ line, rest)

unfoldable pub fgets : ℕ → Text → Option Text × Text
unfolding line_of
fgets size [] = (none, [])
fgets size (c ∷ s) = let (line, rest) = line_of (size - 1) (c ∷ s) in (some line, rest)

-- The last byte goes if it is a newline.
unfoldable pub chomp : Text → Text
chomp [] = []
chomp (c ∷ []) = if c == 10 then [] else c ∷ []
chomp (c ∷ d ∷ s) = c ∷ chomp (d ∷ s)

abbrev is_blank : ℕ → Bool
is_blank c = c == 32 || c == 9

unfoldable pub drop_blanks : Text → Text
drop_blanks [] = []
drop_blanks (c ∷ s) = if is_blank c then drop_blanks s else c ∷ s

-- Without the blanks before and behind.
unfoldable pub trimmed : Text → Text
unfolding drop_blanks
trimmed s = reverse (drop_blanks (reverse (drop_blanks s)))

-- What is typed for a new container.
pub record Form : Type 0 where
  pub container_name : Text
  pub command : Text
  pub memory : ℤ
  pub cpu : ℤ
  pub root_path : Text

-- The number of a line, where it is positive.
abbrev number_or : ℤ → Option Text → ℤ
number_or default none = default
number_or default (some line) = let n = atoi line in if is_positive n then n else default

abbrev chomp_or : Text → Option Text → Text
chomp_or default none = default
chomp_or default (some line) = let s = chomp line in if is_empty s then default else s

-- No form if there is no line for the command.
unfoldable pub read_form : Text → Option Form
unfolding fgets chomp
read_form typed =
    let (name, rest1) = fgets 256 typed in
    let (command, rest2) = fgets 1024 rest1 in
    let (memory, rest3) = fgets 64 rest2 in
    let (cpu, rest4) = fgets 64 rest3 in
    let (root, rest5) = fgets 512 rest4 in
    elim command [
      | none ↦ none
      | some line ↦ some (record {
        container_name = chomp_or [] name;
        command = chomp line;
        memory = number_or (pos 128) memory;
        cpu = number_or (pos 1024) cpu;
        root_path = chomp_or (text "/") root;
      })
    ]

module _ (K : Kernel) where
  open K use {World}

  unfoldable pub copy_words : List Text → Exec World (List (Option Text))
  copy_words [] = pure []
  copy_words (word ∷ words) = do s ← duplicate K word; rest ← copy_words words; pure (some s ∷ rest)

  -- No name for the empty one.
  abbrev copy_name : Text → Exec World (Option Text)
  copy_name name = if is_empty name then pure none else (do s ← duplicate K name; pure (some s))

  unfoldable pub form_config : Library → Form → Exec World ContainerConfig
  unfolding copy_words split_words namespace_config_init resource_limits_init fs_config_init
  form_config lib form = do
    command ← copy_words (split_words form.command)
    id ← copy_name form.container_name
    root ← duplicate K form.root_path
    pure (record {
      id = id;
      root_path = lib.unset_root_path;
      ns_config = namespace_config_init;
      res_limits = record resource_limits_init {
        memory = record resource_limits_init.memory { limit_bytes = memory_bytes form.memory };
        cpu = record resource_limits_init.cpu { shares = form.cpu };
      };
      fs_config = record fs_config_init { root_path = some root };
      command = some command;
      command_argc = pos (length command);
    })

module _ (K : Kernel) (fuel : Fuel) (lib : Library) where
  open K use {World}

  run_form : Option Form → Sys K → Sys K
  run_form none s = s
  run_form (some form) s =
      let (made, w) = form_config K lib form s.world in
      let s' = record s { world = w } in
      elim made [ none ↦ s' | some config ↦ (container_manager_run K fuel (some config) s').1 ]

  unfoldable pub interactive_create_container : Text → Sys K → Sys K
  unfolding run_form read_form
  interactive_create_container typed s = run_form (read_form typed) s

-- The identifier that is typed, without blanks around it, and the input behind it; none if there is
-- no line or nothing on it.
unfoldable pub typed_id : Text → Option (Text × Text)
unfolding fgets chomp trimmed
typed_id typed =
    let (line, rest) = fgets 256 typed in
    elim line [
      | none ↦ none
      | some l ↦ let id = trimmed (chomp l) in if is_empty id then none else some (id, rest)
    ]
