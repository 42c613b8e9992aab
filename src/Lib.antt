-- ===== src/Lib.antt =====
-- The verification library of mini-container, a small container runtime in C++.
--
-- The program and its parts. A container manager (src/container_manager.cpp) keeps an array of
-- containers. It calls the resource manager (src/resource_manager.cpp), which keeps a cgroup for
-- each container, the namespace handler (src/namespace_handler.cpp), which clones the process of
-- a container or joins its namespaces, and the file system manager (src/filesystem_manager.cpp),
-- which makes a root directory. It writes its table to a state file after each change and reads
-- it when it starts. Two programs use the manager: the command line with its menu and monitor
-- (src/main.cpp), and a web server (src/web_server_simple.cpp) that reports the table, alone
-- (src/web_server_main.cpp) or beside the command line. All parts work through system calls, and
-- the manager ignores many of their failures.
--
-- The files.
-- - Prelude: shared names, the integers over the native numbers, lemmas on lists and options,
--   and `Exec`, the code that changes a state and returns 0 with a result or -1 (none); the
--   state comes back with a failure too. Text: strings as lists of bytes, `snprintf` with its
--   cut at the buffer, `%d`, `strtol`, `strtoul`, `sscanf`, `fgets`; Decimal and Lines have what
--   is read of printed numbers and lines.
-- - Kernel: the operating system as a record of a state and calls. The record assumes nothing of
--   a call but its type: a theorem holds whatever the system answers, unless it names a premise.
-- - Doubles: the operations on `double`, of which nothing is assumed but their types.
-- - Config: the types of include/*.hpp.
-- - Resource: src/resource_manager.cpp. Paths, Files (`read_file`, `write_file`), Limits
--   (`set_cpu_limits`, `set_memory_limits`), Cgroups (init, create, destroy, add), Stats; the
--   lemmas are in Quotas, Cgroups/Creation, Stats/Counts.
-- - Process: `is_pid_alive` and `kill_process_tree` of src/container_manager.cpp.
-- - Namespace: src/namespace_handler.cpp. `ChildOutcome` is how a child ends: it runs a command
--   or exits with a code. Child has the calls that must have succeeded before it runs a command.
-- - Filesystem: src/filesystem_manager.cpp, in Roots; Roots/Contents and Roots/Parents have the
--   lemmas. `Streams` and the premise on `mkdir` say what a theorem there relies on of the
--   system.
-- - Manager: src/container_manager.cpp. Table (identifiers, lookup, add, remove), Copying
--   (`copy_container_config` as a value), Copying/Owned (the same and `free_container_config`
--   with the blocks of memory that they take and give back), StateText (the lines of the state
--   file), StateFile (`save_state`, `load_state`, with the round trip), Lifecycle (create,
--   start, stop, destroy), Runs (run, exec, init, cleanup). `Sys` is the manager with the state
--   of the system. The abstract view is in Spec: a map from identifiers to containers and the
--   steps of a container's life; Steps shows that the operations go by them, and Lifecycle/Told
--   has the numbers that the system gives, a time and a cloned process. Validity has the
--   invariant of the table, History the sequences of calls, Reload what any state file brings
--   back, Restart what the program's own one carries over, Runs/Initial what init returns,
--   Runs/Outcome what run leaves.
-- - Command: src/main.cpp. Words (a typed command cut into words), Options
--   (`parse_run_options`), Listing (what `list` and `info` print), Handlers, Monitor, Figures
--   (`format_bytes`, `calculate_cpu_percent`), Workloads and Trials (the containers that the
--   program runs by itself), Form (a container that is typed), Menu, Shutdown (the signal
--   handler), Dispatch (`main`). The record `Library` is what the program takes of the C
--   library: `getopt_long`, `strftime`, `ctime`; the order of `std::sort` is an argument. It has
--   as well what the pointer `root_path` of a configuration holds that main.cpp builds on the
--   stack: no code sets it and `copy_container_config` reads it. Any text or null is allowed
--   for, the same for all of a run; a pointer to no text is undefined behaviour that is not
--   modelled. The terminal is a list of rounds: a key, and what is then typed. A list that ends
--   stands for the signal that ends the program.
-- - Web: src/web_server_simple.cpp, and the port of src/web_server_main.cpp. Request (the answer
--   to a request), Quota (the limits read from cgroup files), Containers and System (the two
--   reports), Server (`start`, `stop`, what the thread does before, in and behind its loop). An
--   exception is none, and nothing catches one. The socket calls and the text of the page are
--   arguments.
-- - Tests: runs of the code and the theorems at concrete inputs.
--
-- How the code is read. The pointers to the managers are not null; a text or a configuration
-- that may be null is an option. The array of containers is the list of its first
-- `container_count` entries, and a pointer into it is a position. An allocation may fail where
-- the source tests it. An `int` that overflows wraps: the casts and the product of
-- `set_cpu_limits` are written out modulo 2^32, a `long` is cut as `strtol` cuts it. Texts are
-- cut to their buffers as `snprintf` does. A `container_state_t` that the state file sets to
-- another number keeps that number. The child of a `clone` or `fork` is a function of its own,
-- since it shares no memory with the parent: `container_child`, `exec_child`.
--
-- Fuel. Loops over lists and the 50 polls of stop are structural. Three lengths are the
-- system's: `Fuel.tree_depth` bounds the depth of the process tree in `kill_process_tree`:
-- process numbers are used again and the tree changes during the calls, so no length is shown to
-- be enough, and the properties hold at every depth. `path_names` bounds the names of a path in
-- `mkdir_p`, where the length of the path is enough, and `file_reads` the reads of `copy_file`,
-- where the bytes of the source are. Without fuel these two end as a failure does, with -1,
-- which the properties of the manager allow for at any fuel.
--
-- Memory. Copying/Owned keeps a heap: a list of the blocks in use. `malloc` gives the next
-- number, and using or freeing a block that is not in use is undefined behaviour, which ends the
-- model's code with none. A null pointer is a value there. The manager itself uses the copy as a
-- value.
--
-- Not modelled. The frees and the ownership of memory outside the copies of a configuration; log
-- and error messages, and what the menu and the monitor print; the settings of the terminal; the
-- threads: `stop` and the thread of the web server use one `int` for the socket at once, and
-- which of them closes it, or both, depends on a schedule that no definition fixes. So neither a
-- whole life of the web server, nor the one beside the menu, nor a signal in the middle of a
-- call is stated.
pub mod Prelude
pub mod Text
pub mod Kernel
pub mod Doubles
pub mod Config
pub mod Resource
pub mod Process
pub mod Namespace
pub mod Filesystem
pub mod Manager
pub mod Command
pub mod Web
mod Tests
