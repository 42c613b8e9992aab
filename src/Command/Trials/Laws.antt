-- ===== src/Command/Trials/Laws.antt =====
-- The containers of `init_containers` and of `run_tests` change the table by calls of the container
-- manager alone.
use mini_container.Command.Options.{Library}
use mini_container.Prelude.{ℕ, suc, refl, ◌≡◌, Bool, true, false, List, [], ◌∷◌, arith, ℤ}
use mini_container.Text.{Text}
use mini_container.Kernel.{Kernel}
use mini_container.Manager.Table.{Sys}
use mini_container.Manager.Lifecycle.{Fuel}
use mini_container.Manager.Runs.Laws.{Goes-same, Goes-trans, run-Goes}
use mini_container.Manager.History.{IsGoing, perform, perform-Goes, stop}
use mini_container.Command.Trials.{
  init_job, init_jobs_from, init_containers, watch, observe, run_test, cpu_usage_test,
  memory_limit_test, cpu_limit_test, combined_test, chosen_tests, run_tests, timed, chosen,
  init_jobs,
}

module _ (K : Kernel) (fuel : Fuel) (lib : Library) where
  init_job-Goes :
      (base_time : ℤ) (counter : ℕ) (job : Text × Text × Text)
      → IsGoing K (init_job K fuel lib base_time counter job)
  unfolding init_job
  init_job-Goes base_time counter (prefix, before, behind) s v = run-Goes K fuel _ _ v

  init_jobs_from-Goes :
      (base_time : ℤ) (counter : ℕ) (jobs : List (Text × Text × Text))
      → IsGoing K (init_jobs_from K fuel lib base_time counter jobs)
  unfolding init_jobs_from
  init_jobs_from-Goes base_time counter [] s v = Goes-same v refl
  init_jobs_from-Goes base_time counter (job ∷ jobs) s v =
      let g = init_job-Goes base_time counter job s v in
      Goes-trans g (
        init_jobs_from-Goes base_time (suc counter) jobs
          (init_job K fuel lib base_time counter job s) g.valid)

  pub init_containers-Goes : IsGoing K (init_containers K fuel lib)
  unfolding init_containers
  init_containers-Goes s v =
      let (now, w) = K.time s.world in
      init_jobs_from-Goes now 0 init_jobs (record s { world = w }) v

  watch-manager :
      (only_running : Bool) (id : Text) (seconds : ℕ) (s : Sys K)
      → (watch K fuel lib only_running id seconds s).manager ≡ s.manager
  unfolding watch
  watch-manager only_running id seconds s = ground arith

  observe-Goes :
      (started only_running : Bool) (id : Text) (seconds : ℕ)
      → IsGoing K (observe K fuel lib started only_running id seconds)
  unfolding observe perform
  observe-Goes true only_running id seconds s v =
      let same = Goes-same v (watch-manager only_running id seconds s) in
      Goes-trans same (perform-Goes K fuel (stop id) _ same.valid)
  observe-Goes false only_running id seconds s v = Goes-same v refl

  run_test-Goes :
      (only_running : Bool) (id : Text) (memory shares seconds : ℕ) (line : Text)
      → IsGoing K (run_test K fuel lib only_running id memory shares seconds line)
  unfolding run_test
  run_test-Goes only_running id memory shares seconds line s v =
      let g = run-Goes K fuel _ _ v in
      Goes-trans g (observe-Goes _ only_running id seconds _ g.valid)

  chosen-Goes :
      (test_num : ℤ) (n : ℕ) (test : Sys K → Sys K)
      → IsGoing K test
      → IsGoing K (chosen K fuel lib test_num n test)
  chosen-Goes test_num n test goes s v =
      let g = goes s v in let same = Goes-same {K = K} v refl in ground (arith, g, same)

  timed-Goes :
      (test : ℤ → Sys K → Sys K)
      → ((now : ℤ) → IsGoing K (test now))
      → IsGoing K (timed K fuel lib test)
  timed-Goes test goes s v = goes (K.time s.world).0 (record s { world = (K.time s.world).1 }) v

  cpu_usage_test-Goes : (now : ℤ) → IsGoing K (cpu_usage_test K fuel lib now)
  unfolding cpu_usage_test
  cpu_usage_test-Goes now = run_test-Goes _ _ _ _ _ _

  memory_limit_test-Goes : (now : ℤ) → IsGoing K (memory_limit_test K fuel lib now)
  unfolding memory_limit_test
  memory_limit_test-Goes now = run_test-Goes _ _ _ _ _ _

  cpu_limit_test-Goes : (now : ℤ) → IsGoing K (cpu_limit_test K fuel lib now)
  unfolding cpu_limit_test
  cpu_limit_test-Goes now = run_test-Goes _ _ _ _ _ _

  combined_test-Goes : (now : ℤ) → IsGoing K (combined_test K fuel lib now)
  unfolding combined_test
  combined_test-Goes now = run_test-Goes _ _ _ _ _ _

  chosen_tests-Goes : (test_num now : ℤ) → IsGoing K (chosen_tests K fuel lib test_num now)
  unfolding chosen_tests
  chosen_tests-Goes test_num now s v =
      let usage =
        chosen-Goes test_num 1 (cpu_usage_test K fuel lib now) (cpu_usage_test-Goes now) s v in
      let memory =
        chosen-Goes test_num 2 (timed K fuel lib (memory_limit_test K fuel lib))
          (timed-Goes (memory_limit_test K fuel lib) memory_limit_test-Goes) _ usage.valid in
      let limit =
        chosen-Goes test_num 3 (timed K fuel lib (cpu_limit_test K fuel lib))
          (timed-Goes (cpu_limit_test K fuel lib) cpu_limit_test-Goes) _ memory.valid in
      let combined =
        chosen-Goes test_num 4 (timed K fuel lib (combined_test K fuel lib))
          (timed-Goes (combined_test K fuel lib) combined_test-Goes) _ limit.valid in
      Goes-trans usage (Goes-trans memory (Goes-trans limit combined))

  pub run_tests-Goes : (test_num : ℤ) → IsGoing K (run_tests K fuel lib test_num)
  unfolding run_tests
  run_tests-Goes test_num s v =
      let g = timed-Goes (chosen_tests K fuel lib test_num) (chosen_tests-Goes test_num) s v in
      let same = Goes-same {K = K} v refl in ground (arith, g, same)
