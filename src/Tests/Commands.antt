-- ===== src/Tests/Commands.antt =====
-- The program of src/main.cpp at concrete inputs.
use mini_container.Prelude.{
  ◌≡◌, refl, List, [], ◌∷◌, some, none, true, pos, arith, All, ltb, if◌then◌else◌, ◌*◌, ◌+◌, ◌-◌,
  ◌^◌,
}
use mini_container.Text.{Text, text}
use mini_container.Config.{ContainerInfo, created}
use mini_container.Manager.Spec.{view}
use mini_container.Command.Words.{split_words}
use mini_container.Command.Words.Quoting.{
  quoted_line, plain_words, split_words-quoted_line, split_words-plain_words,
}
use mini_container.Command.Options.{Library, RunOptions, memory_bytes, parse_run_options}
use mini_container.Command.Options.Limits.{memory_bytes-pos}
use mini_container.Command.Handlers.{run_options}
use mini_container.Command.Handlers.Detached.{FailsOrSleeps, run_options-FailsOrSleeps}
use mini_container.Command.Shutdown.{signal_handler}
use mini_container.Command.Shutdown.Quiet.{IsQuiet, signal_handler-IsQuiet}
use mini_container.Command.Monitor.{Sort}
use mini_container.Command.Dispatch.{Terminal}
use mini_container.Manager.Table.{Sys}
use mini_container.Manager.Table.Lookup.{info_of}
use mini_container.Manager.Validity.{IsValid}
use mini_container.Tests.Tables.{empty_manager-IsValid}
use mini_container.Tests.Machine.{machine, fuel, at_start, config, empty_manager}

-- A word with a blank in it.
abbrev two_words : List Text
two_words = (b'a' ∷ 32 ∷ b'b' ∷ []) ∷ (b'c' ∷ []) ∷ []

split_words-quoted_line_example : split_words (quoted_line two_words) ≡ two_words
split_words-quoted_line_example = split_words-quoted_line two_words (ground arith)

abbrev plain : Text
plain = b'l' ∷ b's' ∷ 32 ∷ 32 ∷ b'-' ∷ b'l' ∷ []

split_words-plain_words_example : split_words plain ≡ plain_words plain
split_words-plain_words_example = split_words-plain_words plain (ground arith)

memory_bytes-pos_example :
    memory_bytes (pos 2048)
    ≡ (if ltb 2048 2048 then 2048 * 1048576 else 2 ^ 64 - 2 ^ 32 + 2048 * 1048576)
memory_bytes-pos_example = memory_bytes-pos 2048 (omega arith)

abbrev shell_args : List Text
shell_args = (b's' ∷ b'h' ∷ []) ∷ []

-- `getopt_long` for one command line with -d: the option, and the operand behind it.
abbrev library : Library
library = record {
  options = λ argv. (b'd', []) ∷ [];
  operands = λ argv. shell_args;
  hms = λ t. none;
  ctime = λ t. [];
  unset_root_path = none;
}

abbrev parsed : RunOptions
parsed = record {
  config = record config {
    fs_config = record config.fs_config { root_path = some (b'/' ∷ []) };
    command = some (some (b's' ∷ b'h' ∷ []) ∷ []);
  };
  detach = true;
}

parses : (parse_run_options machine library [] 5).0 ≡ some parsed
unfolding parse_run_options config text
parses = refl

run_options-FailsOrSleeps_example :
    FailsOrSleeps machine
      (view at_start.manager)
      (run_options machine fuel library (some parsed) at_start)
run_options-FailsOrSleeps_example =
    run_options-FailsOrSleeps machine fuel library parsed at_start refl empty_manager-IsValid

abbrev created_one : ContainerInfo
created_one = record {
  id = b'1' ∷ [];
  pid = pos 0;
  state = created;
  created_at = pos 1;
  started_at = pos 0;
  stopped_at = pos 0;
  saved_config = some config;
}

abbrev with_one : Sys machine
with_one = record { manager = record empty_manager { containers = created_one ∷ [] }; world = 100 }

with_one-IsValid : IsValid with_one.manager
unfolding info_of
with_one-IsValid = record { distinct = (refl, tt); fits = omega arith; room = omega arith }

signal_handler-IsQuiet_example :
    All IsQuiet (signal_handler machine fuel with_one).manager.containers
signal_handler-IsQuiet_example = signal_handler-IsQuiet machine fuel with_one with_one-IsValid

abbrev as_it_is : Sort
as_it_is = λ before cs. cs

abbrev terminal : Terminal
terminal = record { sysinfo = none; rounds = []; keys = [] }

abbrev stop_command : List Text
stop_command = text "stop" ∷ (b'1' ∷ []) ∷ []
