-- ===== src/Command/Workloads.antt =====
-- `run_memory_cpu_test` of src/main.cpp, and the configurations that the program runs by itself.
pub mod Laws
use mini_container.Prelude.{
  ℕ, zero, suc, ◌*◌, ◌/◌, ◌%◌, ◌^◌, Bool, true, false, not, ◌&&◌, ◌||◌, List, [], ◌∷◌, ◌++◌, Option,
  none, some, Exec, pure, guard, lift, ◌>>=◌, ◌>>◌, if◌then◌else◌, ℤ, pos, eqℤ, map, is_some,
  length,
}
use mini_container.Text.{Text, text, decimal, snprintf, strip_prefix, scan_ulong, fgets_lines}
use mini_container.Kernel.{Kernel}
use mini_container.Config.{
  ContainerConfig, ContainerInfo, CpuLimits, MemoryLimits, ResourceLimits, is_running,
}
use mini_container.Resource.{resource_limits_init}
use mini_container.Resource.Stats.{resource_manager_get_stats}
use mini_container.Namespace.{namespace_config_init}
use mini_container.Filesystem.{fs_config_init}
use mini_container.Process.{each}
use mini_container.Manager.Table.{Sys, containers_of, container_manager_get_info}
use mini_container.Manager.Lifecycle.{Fuel, container_manager_stop}
use mini_container.Manager.Runs.{container_manager_run}
use mini_container.Command.Options.{Library, duplicate}

abbrev pub megabytes : ℕ → ℕ
megabytes n = n * 1024 * 1024

-- A configuration that runs three words.
unfoldable pub job_config :
    Option Text
    → Option Text
    → Option Text
    → Bool
    → ℕ
    → CpuLimits
    → List (Option Text)
    → ContainerConfig
unfolding namespace_config_init fs_config_init resource_limits_init
job_config unset id root minimal memory cpu command = record {
  id = id;
  root_path = unset;
  ns_config = namespace_config_init;
  res_limits = record resource_limits_init {
    memory = record resource_limits_init.memory { limit_bytes = memory };
    cpu = cpu;
  };
  fs_config = record fs_config_init { root_path = root; create_minimal_fs = minimal };
  command = some command;
  command_argc = pos 3;
}

abbrev pub busy : Text
busy = text "while true; do :; done"

module _ (K : Kernel) (fuel : Fuel) (lib : Library) where
  open K use {World}

  abbrev pub run_config : ContainerConfig → Sys K → Bool × Sys K
  run_config config s =
      let (r, s') = container_manager_run K fuel (some config) s in (is_some r, s')

  -- The first line of /proc/meminfo that gives the total, in bytes.
  mem_total : List Text → Option ℕ
  mem_total [] = none
  mem_total (line ∷ lines) = elim (strip_prefix line (text "MemTotal:")) [
    | none ↦ mem_total lines
    | some rest ↦ elim (scan_ulong rest) [
      | none ↦ mem_total lines
      | some (kb, behind) ↦ some (kb * 1024 % 2 ^ 64)
    ]
  ]

  -- `sysinfo` is the first argument: what it reports, or none if it fails.
  unfoldable pub get_total_system_memory : Option ℕ → World → ℕ × World
  unfolding mem_total
  get_total_system_memory (some total) w = (total, w)
  get_total_system_memory none w =
      let (contents, w') = K.read_text (text "/proc/meminfo") w in
      (
        elim contents [
          | none ↦ megabytes 4096
          | some file ↦ elim (mem_total (fgets_lines 254 254 [] file)) [
            | none ↦ megabytes 4096
            | some total ↦ total
          ]
        ],
        w',
      )

  -- The identifier, the root, the array and the three words; a failed allocation skips the job.
  unfoldable pub test_job : Text → ℕ → CpuLimits → Text → Exec World ContainerConfig
  test_job id memory cpu line = do
    name ← duplicate K id
    root ← duplicate K (snprintf 256 (text "/tmp/mini_container_test_" ++ id))
    array ← lift K.alloc
    guard array
    shell ← duplicate K (text "/bin/sh")
    flag ← duplicate K (text "-c")
    script ← duplicate K line
    pure (
        job_config lib.unset_root_path (some name) (some root) true memory cpu
          (some shell ∷ some flag ∷ some script ∷ []))

  run_made : Option ContainerConfig → Sys K → Sys K
  run_made none s = s
  run_made (some config) s =
      let (started, s') = run_config config s in
      record s' { world = if started then K.usleep 100000 s'.world else s'.world }

  unfoldable pub run_job : Text → ℕ → CpuLimits → Text → Sys K → Sys K
  unfolding run_made test_job
  run_job id memory cpu line s =
      let (made, w) = test_job id memory cpu line s.world in run_made made (record s { world = w })

  abbrev job_id : ℕ → Text → Text
  job_id n kind = text "C" ++ (decimal (pos n) ++ kind)

  memory_job : ℕ × ℕ → Sys K → Sys K
  memory_job (n, limit) = run_job (job_id n (text "MEM")) limit resource_limits_init.cpu (
      snprintf 512 (
        text "python3 -c 'import time; data = [bytearray("
        ++ (decimal (pos (limit / 2)) ++ text ") for _ in range(1)]; time.sleep(3600)'")))

  cpu_job : ℕ × ℕ → Sys K → Sys K
  cpu_job (n, quota) =
      run_job (job_id n (text "CPU")) (megabytes 128)
        (record { shares = pos 1024; quota_us = pos quota; period_us = pos 100000 }) busy

  -- A sixteenth, an eighth and a quarter of the memory, then of a CPU.
  unfoldable pub run_memory_cpu_test : Option ℕ → Sys K → Sys K
  unfolding memory_job cpu_job run_job
  run_memory_cpu_test sysinfo s =
      let (total, w) = get_total_system_memory sysinfo s.world in
      each cpu_job ((1, 6250) ∷ (2, 12500) ∷ (3, 25000) ∷ []) (
        each memory_job ((1, total / 16) ∷ (2, total / 8) ∷ (3, total / 4) ∷ [])
          (record s { world = w }))
