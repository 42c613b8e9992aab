-- ===== src/Command/Workloads/Laws.antt =====
-- The containers of `run_memory_cpu_test` change the table by calls of the container manager alone.
use mini_container.Command.Options.{Library}
use mini_container.Prelude.{ℕ, refl, Option, none, some}
use mini_container.Text.{Text}
use mini_container.Kernel.{Kernel}
use mini_container.Config.{ContainerConfig, CpuLimits}
use mini_container.Manager.Lifecycle.{Fuel}
use mini_container.Manager.Runs.Laws.{Goes-same, Goes-trans, run-Goes}
use mini_container.Manager.History.{IsGoing, each-Goes}
use mini_container.Command.Workloads.{
  test_job, run_made, run_job, memory_job, cpu_job, run_memory_cpu_test,
}

module _ (K : Kernel) (fuel : Fuel) (lib : Library) where
  run_made-Goes : (made : Option ContainerConfig) → IsGoing K (run_made K fuel lib made)
  unfolding run_made
  run_made-Goes none s v = Goes-same v refl
  run_made-Goes (some config) s v = run-Goes K fuel (some config) s v

  run_job-Goes :
      (id : Text) (memory : ℕ) (cpu : CpuLimits) (line : Text)
      → IsGoing K (run_job K fuel lib id memory cpu line)
  unfolding run_job
  run_job-Goes id memory cpu line s v =
      run_made-Goes (test_job K fuel lib id memory cpu line s.world).0
        (record s { world = (test_job K fuel lib id memory cpu line s.world).1 }) v

  memory_job-Goes : (job : ℕ × ℕ) → IsGoing K (memory_job K fuel lib job)
  unfolding memory_job
  memory_job-Goes (n, limit) s v = run_job-Goes _ limit _ _ s v

  cpu_job-Goes : (job : ℕ × ℕ) → IsGoing K (cpu_job K fuel lib job)
  unfolding cpu_job
  cpu_job-Goes (n, quota) s v = run_job-Goes _ _ _ _ s v

  pub run_memory_cpu_test-Goes :
      (sysinfo : Option ℕ) → IsGoing K (run_memory_cpu_test K fuel lib sysinfo)
  unfolding run_memory_cpu_test
  run_memory_cpu_test-Goes sysinfo s v =
      let g = each-Goes K (memory_job K fuel lib) _ memory_job-Goes (record s { world = _ }) v in
      Goes-trans g (each-Goes K (cpu_job K fuel lib) _ cpu_job-Goes _ g.valid)
