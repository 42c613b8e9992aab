-- ===== src/Command/Trials.antt =====
-- `init_containers` and `run_tests` of src/main.cpp, which the program does not call.
pub mod Laws
use mini_container.Prelude.{
  ℕ, zero, suc, ◌*◌, ◌/◌, ◌%◌, ◌^◌, Bool, true, false, not, ◌&&◌, ◌||◌, List, [], ◌∷◌, ◌++◌, Option,
  none, some, Exec, pure, guard, lift, ◌>>=◌, ◌>>◌, if◌then◌else◌, ℤ, pos, eqℤ, map, is_some,
  length,
}
use mini_container.Text.{Text, text, decimal, snprintf, strip_prefix, scan_ulong, fgets_lines}
use mini_container.Kernel.{Kernel}
use mini_container.Config.{
  ContainerConfig, ContainerInfo, CpuLimits, MemoryLimits, ResourceLimits, is_running,
}
use mini_container.Resource.{resource_limits_init}
use mini_container.Resource.Stats.{resource_manager_get_stats}
use mini_container.Namespace.{namespace_config_init}
use mini_container.Filesystem.{fs_config_init}
use mini_container.Process.{each}
use mini_container.Manager.Table.{Sys, containers_of, container_manager_get_info}
use mini_container.Manager.Lifecycle.{Fuel, container_manager_stop}
use mini_container.Manager.Runs.{container_manager_run}
use mini_container.Command.Options.{Library, duplicate}
use mini_container.Command.Workloads.{megabytes, busy, job_config, run_config}

-- Prefix of the identifier, and the command before and behind the number of seconds.
abbrev init_jobs : List (Text × Text × Text)
init_jobs =
    (text "cpu_intensive_", text "for i in 1 2 3 4; do yes > /dev/null & done; sleep ", text "")
    ∷ (
      text "ram_intensive_",
      text "python3 -c 'a = [bytearray(50*1024*1024) for _ in range(3)]; import time; time.sleep(",
      text ")'",
    )
    ∷ (
      text "cpu_ram_heavy_",
      text
          "yes > /dev/null & python3 -c 'a = bytearray(120*1024*1024); import time; [i*i for i in range(10000000)]; time.sleep(",
      text ")'",
    )
    ∷ (
      text "cpu_calc_",
      text
          "python3 -c 'import time; start=time.time(); [sum(range(i)) for i in range(50000)]; time.sleep(",
      text ")'",
    )
    ∷ (
      text "mem_stress_",
      text
          "python3 -c 'import time; data = [bytearray(30*1024*1024) for _ in range(5)]; time.sleep(",
      text ")'",
    )
    ∷ (
      text "mixed_workload_",
      text "yes > /dev/null & dd if=/dev/zero of=/tmp/test bs=1M count=50 status=none & sleep ",
      text "",
    )
    ∷ (text "high_cpu_", text "for i in 1 2 3; do yes > /dev/null & done; sleep ", text "")
    ∷ (
      text "high_mem_",
      text "python3 -c 'a = [bytearray(40*1024*1024) for _ in range(5)]; import time; time.sleep(",
      text ")'",
    )
    ∷ (
      text "balanced_",
      text "yes > /dev/null & python3 -c 'a = bytearray(100*1024*1024); import time; time.sleep(",
      text ")'",
    )
    ∷ (
      text "max_stress_",
      text
          "for i in 1 2 3 4 5; do yes > /dev/null & done; python3 -c 'a = [bytearray(35*1024*1024) for _ in range(5)]; import time; [i**2 for i in range(2000000)]; time.sleep(",
      text ")'",
    )
    ∷ []

module _ (K : Kernel) (fuel : Fuel) (lib : Library) where
  open K use {World}

  -- `strdup` whose result is not tested: null if there is no memory.
  unfoldable pub copy_or_null : Text → World → Option Text × World
  copy_or_null s w = let (ok, w') = K.alloc w in (if ok then some s else none, w')

  -- The identifier and the root, then the words of the command.
  unfoldable pub init_job : ℤ → ℕ → Text × Text × Text → Sys K → Sys K
  unfolding copy_or_null
  init_job base_time counter (prefix, before, behind) s =
      let named =
        snprintf 64 (prefix ++ (decimal base_time ++ (text "_" ++ decimal (pos counter)))) in
      let (id, w1) = copy_or_null named s.world in
      let (root, w2) = copy_or_null (text "/") w1 in
      let (shell, w3) = copy_or_null (text "/bin/sh") w2 in
      let (flag, w4) = copy_or_null (text "-c") w3 in
      let (line, w5) = copy_or_null (snprintf 512 (before ++ (decimal (pos 600) ++ behind))) w4 in
      let cpu : CpuLimits = record {
        shares = pos 512;
        quota_us = pos 5000;
        period_us = pos 100000;
      } in
      (run_config K fuel lib
        (job_config lib.unset_root_path id root false (megabytes 128) cpu
          (shell ∷ flag ∷ line ∷ []))
        (record s { world = w5 })).1

  init_jobs_from : ℤ → ℕ → List (Text × Text × Text) → Sys K → Sys K
  init_jobs_from base_time counter [] s = s
  init_jobs_from base_time counter (job ∷ jobs) s =
      init_jobs_from base_time (suc counter) jobs (init_job base_time counter job s)

  unfoldable pub init_containers : Sys K → Sys K
  unfolding init_jobs_from init_job
  init_containers s =
      let (now, w) = K.time s.world in init_jobs_from now 0 init_jobs (record s { world = w })

  -- The wait, then the statistics if the container is there (and RUNNING, if the test asks for
  -- that).
  watch : Bool → Text → ℕ → Sys K → Sys K
  watch only_running id seconds s =
      let s' = record s { world = K.usleep (seconds * 1000000) s.world } in
      let read = record s' { world = (resource_manager_get_stats K s'.manager.rm id s'.world).1 } in
      elim (container_manager_get_info (containers_of K s') id) [
        | none ↦ s'
        | some (i, info) ↦ if not only_running || is_running info.state then read else s'
      ]

  -- What follows a run, if the container started.
  observe : Bool → Bool → Text → ℕ → Sys K → Sys K
  unfolding watch
  observe true only_running id seconds s =
      (container_manager_stop K fuel id (watch only_running id seconds s)).1
  observe false only_running id seconds s = s

  unfoldable pub run_test : Bool → Text → ℕ → ℕ → ℕ → Text → Sys K → Sys K
  unfolding observe copy_or_null
  run_test only_running id memory shares seconds line s =
      let (root, w1) = copy_or_null (text "/") s.world in
      let (shell, w2) = copy_or_null (text "/bin/sh") w1 in
      let (flag, w3) = copy_or_null (text "-c") w2 in
      let (script, w4) = copy_or_null line w3 in
      let cpu = record resource_limits_init.cpu { shares = pos shares } in
      let (started, s') =
        run_config K fuel lib
          (job_config lib.unset_root_path (some id) root false (megabytes memory) cpu
            (shell ∷ flag ∷ script ∷ []))
          (record s { world = w4 }) in
      observe started only_running id seconds s'

  abbrev stamped : Text → ℤ → Text
  stamped prefix now = snprintf 256 (prefix ++ decimal now)

  -- A test under its own time stamp.
  abbrev pub timed : (ℤ → Sys K → Sys K) → Sys K → Sys K
  timed test s = let (now, w) = K.time s.world in test now (record s { world = w })

  abbrev pub chosen : ℤ → ℕ → (Sys K → Sys K) → Sys K → Sys K
  chosen test_num n test s = if eqℤ test_num (pos n) || eqℤ test_num (pos 5) then test s else s

  cpu_usage_test : ℤ → Sys K → Sys K
  cpu_usage_test now = run_test true (stamped (text "test_") now) 128 1024 3 busy

  memory_limit_test : ℤ → Sys K → Sys K
  memory_limit_test now =
      run_test false (stamped (text "test_mem_") now) 64 1024 2
        (text "dd if=/dev/zero of=/tmp/mem bs=1M count=80 status=none 2>&1; echo Exit code: $?")

  cpu_limit_test : ℤ → Sys K → Sys K
  cpu_limit_test now = run_test true (stamped (text "test_cpu_limit_") now) 128 512 3 busy

  combined_test : ℤ → Sys K → Sys K
  combined_test now = run_test true (stamped (text "test_combined_") now) 128 1024 3 (
      text
        "dd if=/dev/zero of=/tmp/stress bs=1M count=16 status=none; i=0; while [ $i -lt 10000000 ]; do i=$((i+1)); done; rm -f /tmp/stress; echo Done")

  chosen_tests : ℤ → ℤ → Sys K → Sys K
  chosen_tests test_num now s = chosen test_num 4 (timed combined_test) (
      chosen test_num 3 (timed cpu_limit_test)
        (chosen test_num 2 (timed memory_limit_test) (chosen test_num 1 (cpu_usage_test now) s)))

  -- For the number that was typed, if a line was.
  pub run_tests : ℤ → Sys K → Sys K
  unfolding chosen_tests
  run_tests test_num s = if eqℤ test_num (pos 0) then s else timed (chosen_tests test_num) s
