-- ===== src/Command/Options.antt =====
-- `parse_run_options` of src/main.cpp. `getopt_long` and `strftime` are the C library's, and enter
-- as a record.
pub mod Limits
use mini_container.Prelude.{
  ℕ, suc, ◌*◌, ◌-◌, ◌^◌, Bool, true, false, List, [], ◌∷◌, Option, none, some, Exec, pure, fail,
  guard, lift, is_some, ◌>>=◌, ◌>>◌, ◌==◌, if◌then◌else◌, ℤ, pos, negsuc, int_of_long, length, map,
}
use mini_container.Text.{Text, text, atoi}
use mini_container.Kernel.{Kernel}
use mini_container.Config.{ContainerConfig, ResourceLimits}
use mini_container.Resource.{resource_limits_init}
use mini_container.Namespace.{namespace_config_init}
use mini_container.Filesystem.{fs_config_init}

-- What the program takes from the C library: the options that `getopt_long` returns for an argument
-- vector until -1, each with its argument, and the operands from `optind` on that it leaves; and
-- the texts of a time by `strftime` with "%H:%M:%S", if `localtime` gives one, and by `ctime`. The
-- program never sets `config.root_path` of a `container_config_t` on its stack, and its copy reads
-- it: `unset_root_path` is what the pointer then shows, null or a text.
pub record Library : Type 0 where
  pub options : List Text → List (ℕ × Text)
  pub operands : List Text → List Text
  pub hms : ℤ → Option Text
  pub ctime : ℤ → Text
  pub unset_root_path : Option Text

-- A product of an `int` by a positive constant.
abbrev pub times_int : ℤ → ℕ → ℤ
times_int (pos n) k = int_of_long (pos (n * k))
times_int (negsuc n) k = int_of_long (negsuc (suc n * k - 1))

-- An `int` stored in an `unsigned long`.
abbrev pub ulong_of_int : ℤ → ℕ
ulong_of_int (pos n) = n
ulong_of_int (negsuc n) = 2 ^ 64 - suc n

-- Megabytes as the limit in bytes.
unfoldable pub memory_bytes : ℤ → ℕ
memory_bytes megabytes = ulong_of_int (times_int (times_int megabytes 1024) 1024)

pub record RunOptions : Type 0 where
  pub config : ContainerConfig
  pub detach : Bool

-- Before the loop. The command is set behind it.
unfoldable pub initial_options : Library → RunOptions
unfolding namespace_config_init resource_limits_init fs_config_init
initial_options lib = record {
  config = record {
    id = none;
    root_path = lib.unset_root_path;
    ns_config = namespace_config_init;
    res_limits = resource_limits_init;
    fs_config = fs_config_init;
    command = none;
    command_argc = pos 0;
  };
  detach = false;
}

abbrev with_limits : (ResourceLimits → ResourceLimits) → RunOptions → RunOptions
with_limits f o = record o { config = record o.config { res_limits = f o.config.res_limits } }

abbrev pub with_root : Option Text → RunOptions → RunOptions
with_root path o = record o {
  config = record o.config { fs_config = record o.config.fs_config { root_path = path } };
}

module _ (K : Kernel) where
  open K use {World}

  -- strdup
  abbrev pub duplicate : Text → Exec World Text
  duplicate s = do ok ← lift K.alloc; guard ok; pure s

  -- The body of the loop: -h, an option that is not known and a failed copy end it with -1.
  unfoldable pub apply_option : ℕ × Text → RunOptions → Exec World RunOptions
  apply_option (c, optarg) o =
      if c == b'h'
      then fail
      else if c == b'm'
      then pure (
          with_limits
            (λ l. record l {
              memory = record l.memory { limit_bytes = memory_bytes (atoi optarg) };
            })
            o)
      else if c == b'c'
      then pure (with_limits (λ l. record l { cpu = record l.cpu { shares = atoi optarg } }) o)
      else if c == b'r'
      then (do path ← duplicate optarg; pure (with_root (some path) o))
      else if c == b'd'
      then pure (record o { detach = true })
      else fail

  unfoldable pub apply_options : List (ℕ × Text) → RunOptions → Exec World RunOptions
  unfolding apply_option
  apply_options [] o = pure o
  apply_options (option ∷ options) o = do o' ← apply_option option o; apply_options options o'

  abbrev default_root : RunOptions → Exec World RunOptions
  default_root o =
      if is_some o.config.fs_config.root_path
      then pure o
      else (do path ← duplicate (text "/"); pure (with_root (some path) o))

  abbrev pub with_command : List Text → RunOptions → RunOptions
  with_command words o = record o {
    config = record o.config {
      command = some (map (λ w. some w) words);
      command_argc = pos (length words);
    };
  }

  abbrev is_given : List Text → Bool
  is_given [] = false
  is_given (w ∷ words) = true

  -- `argv[0]` is the word `run`.
  unfoldable pub parse_run_options : Library → List Text → Exec World RunOptions
  unfolding apply_options initial_options
  parse_run_options lib argv = do
    o ← apply_options (lib.options argv) (initial_options lib)
    guard (is_given (lib.operands argv))
    default_root (with_command (lib.operands argv) o)
