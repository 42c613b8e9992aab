-- ===== src/Tests/Store.antt =====
-- The state file at a concrete table: saved and loaded.
use mini_container.Prelude.{
  ◌≡◌, refl, [], ◌∷◌, none, some, true, arith, pos, All, length, is_negative, int_of_long,
}
use mini_container.Text.{Text, text_eq, decimal, strtol, snprintf}
use mini_container.Kernel.{Kernel, returned}
use mini_container.Config.{ContainerInfo, ContainerManager, running, stopped}
use mini_container.Process.{is_pid_alive}
use mini_container.Manager.Table.{Sys, extract_numeric_id, max_numeric_id, next_id}
use mini_container.Manager.StateText.{Loader, fresh_loader}
use mini_container.Manager.StateFile.Repeats.{finish_container-repeats}
use mini_container.Manager.StateText.Stored.{IsStored}
use mini_container.Manager.StateFile.{load_state, save_state, finish_container}
use mini_container.Manager.StateFile.Live.{live_ones, HasProcess}
use mini_container.Manager.StateFile.RoundTrip.{load_state-save_state}
use mini_container.Manager.Table.Lookup.{info_of, DistinctIds}
use mini_container.Manager.Validity.{IsValid}
use mini_container.Manager.Spec.{view}
use mini_container.Manager.Restart.{carried, load_state-IsValid}
use mini_container.Tests.Machine.{machine, at_start, empty_manager}

-- A machine that keeps the last file written.
abbrev store : Kernel
store = record {
  World = Text;
  alloc = λ w. (true, w);
  time = λ w. (pos 9, w);
  usleep = λ n w. w;
  access = λ mode path w. true;
  stat = λ path w. true;
  mkdir = λ path w. (returned tt, w);
  rmdir = λ path w. (returned tt, w);
  mknod = λ path mode major minor w. (returned tt, w);
  open_file = λ mode path w. (returned 3, w);
  read = λ fd size w. (returned [], w);
  write = λ fd bytes w. (returned (length bytes), w);
  close = λ fd w. w;
  chdir = λ path w. (returned tt, w);
  chroot = λ path w. (returned tt, w);
  mount = λ source target fstype flags w. (returned tt, w);
  umount = λ path w. (returned tt, w);
  read_dir = λ path w. (none, w);
  read_text = λ path w. (some w, w);
  write_text = λ path contents w. (true, contents);
  kill = λ pid signal w. (returned tt, w);
  waitpid = λ pid nohang w. ((pid, 256), w);
  clone = λ flags command w. (pos 7, w);
  setns = λ fd ns_type w. (returned tt, w);
  execvp = λ command w. (true, w);
  fork = λ w. (pos 7, w);
}

abbrev ended : ContainerInfo
ended = record {
  id = decimal (pos 1);
  pid = pos 0;
  state = stopped;
  created_at = pos 100;
  started_at = pos 101;
  stopped_at = pos 102;
  saved_config = none;
}

abbrev alive : ContainerInfo
alive = record ended { id = decimal (pos 12); pid = pos 40; state = running; stopped_at = pos 0 }

abbrev saved : Sys store
saved = record {
  manager = record empty_manager { containers = ended ∷ alive ∷ []; max_containers = 2 };
  world = [];
}

stored : All IsStored (ended ∷ alive ∷ [])
stored = (
  record {
    id = (1, refl, omega arith, omega arith);
    pid = (0, refl, omega arith);
    state = refl;
    created_at = (100, refl, omega arith);
    started_at = (101, refl, omega arith);
    stopped_at = (102, refl, omega arith);
  },
  (
    record {
      id = (12, refl, omega arith, omega arith);
      pid = (40, refl, omega arith);
      state = refl;
      created_at = (100, refl, omega arith);
      started_at = (101, refl, omega arith);
      stopped_at = (0, refl, omega arith);
    },
    tt,
  ),
)

processes : All (HasProcess store) (ended ∷ alive ∷ [])
unfolding is_pid_alive
processes = (λ e w. cc e, (λ e w. refl, tt))

load_state-save_state_example :
    ((load_state store
        (record { manager = empty_manager; world = (save_state store saved).world })).0
      ≡ length (live_ones (ended ∷ alive ∷ [])))
    × ((load_state store (record {
      manager = empty_manager;
      world = (save_state store saved).world;
    })).1.manager.containers
        ≡ live_ones (ended ∷ alive ∷ []))
load_state-save_state_example =
    load_state-save_state store (λ w. refl) (λ w. refl) (λ t w. refl) saved empty_manager stored
      processes refl

saved-IsValid : IsValid saved.manager
unfolding info_of text_eq decimal
saved-IsValid = record { distinct = (refl, (refl, tt)); fits = omega arith; room = omega arith }

abbrev restarted : ContainerManager
restarted =
    (load_state store
      (record { manager = empty_manager; world = (save_state store saved).world })).1.manager

load_state-IsValid_example :
    IsValid restarted × ((id : Text) → view restarted id ≡ carried (view saved.manager id))
load_state-IsValid_example =
    load_state-IsValid store (λ w. refl) (λ w. refl) (λ t w. refl) saved empty_manager stored
      processes saved-IsValid refl (omega arith, omega arith)

-- A CREATED container with a word for its identifier, and one with the number 1.
abbrev word : Loader
word = record (fresh_loader 0) { container_id = b'w' ∷ []; in_container = true }

abbrev number : Loader
number = record (fresh_loader 0) { container_id = b'1' ∷ []; in_container = true }

word_negative : is_negative (extract_numeric_id word.container_id) ≡ true
unfolding extract_numeric_id strtol int_of_long
word_negative = refl

one_next : number.container_id ≡ next_id []
unfolding next_id max_numeric_id decimal snprintf int_of_long
one_next = refl

no_number : max_numeric_id (pos 0) [] ≡ pos 0
unfolding max_numeric_id
no_number = refl

finish_container-repeats_example :
    ¬ DistinctIds
      (finish_container machine
        (number, (finish_container machine (word, at_start)).1)).1.manager.containers
finish_container-repeats_example =
    finish_container-repeats machine (λ w. refl) word number at_start 0 refl refl refl refl
      word_negative no_number (omega arith) one_next
