-- ===== src/Command/Handlers/Laws.antt =====
-- The commands change the table by calls of the container manager alone.
use mini_container.Prelude.{
  refl, Bool, true, false, List, [], ◌∷◌, Option, none, some, Option-cases, inl, inr, Exec, arith,
}
use mini_container.Text.{Text}
use mini_container.Kernel.{Kernel}
use mini_container.Manager.Table.{Sys, Found, containers_of, container_manager_get_info}
use mini_container.Manager.Lifecycle.{
  Fuel, container_manager_start, container_manager_stop, container_manager_destroy,
}
use mini_container.Manager.Runs.{container_manager_run}
use mini_container.Manager.Runs.Laws.{Goes-same, Goes-trans, run-Goes}
use mini_container.Manager.History.{IsGoing, perform, perform-Goes, start, stop, destroy, exec}
use mini_container.Command.Options.{Library, RunOptions, parse_run_options}
use mini_container.Command.Handlers.{
  with_id, handle_start, handle_stop, handle_destroy, handle_exec, handle_info, wait_for,
  run_options, handle_run,
}

module _ (K : Kernel) (fuel : Fuel) (lib : Library) where
  with_id-Goes :
      (call : Text → Exec (Sys K) (Unit {0})) (argv : List Text)
      → ((id : Text) → IsGoing K (λ s. (call id s).1))
      → IsGoing K (λ s. (with_id K fuel lib call argv s).1)
  unfolding with_id
  with_id-Goes call (word ∷ id ∷ rest) goes s v = goes id s v
  with_id-Goes call (word ∷ []) goes s v = Goes-same v refl
  with_id-Goes call [] goes s v = Goes-same v refl

  pub handle_start-Goes : (argv : List Text) → IsGoing K (λ s. (handle_start K fuel lib argv s).1)
  unfolding handle_start perform
  handle_start-Goes argv =
      with_id-Goes (container_manager_start K fuel) argv λ id. perform-Goes K fuel (start id)

  pub handle_stop-Goes : (argv : List Text) → IsGoing K (λ s. (handle_stop K fuel lib argv s).1)
  unfolding handle_stop perform
  handle_stop-Goes argv =
      with_id-Goes (container_manager_stop K fuel) argv λ id. perform-Goes K fuel (stop id)

  pub handle_destroy-Goes :
      (argv : List Text) → IsGoing K (λ s. (handle_destroy K fuel lib argv s).1)
  unfolding handle_destroy perform
  handle_destroy-Goes argv =
      with_id-Goes (container_manager_destroy K fuel) argv λ id. perform-Goes K fuel (destroy id)

  pub handle_exec-Goes : (argv : List Text) → IsGoing K (λ s. (handle_exec K fuel lib argv s).1)
  unfolding handle_exec perform
  handle_exec-Goes (word ∷ id ∷ command ∷ rest) s v = perform-Goes K fuel (exec id) s v
  handle_exec-Goes (word ∷ id ∷ []) s v = Goes-same v refl
  handle_exec-Goes (word ∷ []) s v = Goes-same v refl
  handle_exec-Goes [] s v = Goes-same v refl

  pub handle_info-Goes : (argv : List Text) → IsGoing K (λ s. (handle_info K fuel lib argv s).1)
  unfolding handle_info
  handle_info-Goes (word ∷ id ∷ rest) s v = Goes-same v (ground arith)
  handle_info-Goes (word ∷ []) s v = Goes-same v refl
  handle_info-Goes [] s v = Goes-same v refl

  wait_for-Goes :
      (detach : Bool) (found : Found) → IsGoing K (λ s. (wait_for K fuel lib detach found s).1)
  unfolding wait_for
  wait_for-Goes detach none s v = Goes-same v refl
  wait_for-Goes true (some (i, info)) s v = Goes-same v refl
  wait_for-Goes false (some (i, info)) s v = Goes-same v (ground arith)

  run_options-Goes : (o : Option RunOptions) → IsGoing K (λ s. (run_options K fuel lib o s).1)
  unfolding run_options
  run_options-Goes none s v = Goes-same v refl
  run_options-Goes (some o) s v =
      let g = run-Goes K fuel (some o.config) s v in
      let s' = (container_manager_run K fuel (some o.config) s).1 in
      elim (Option-cases (container_manager_run K fuel (some o.config) s).0) [
        | inl e ↦ rw (e, run_options) g
        | inr (id, e) ↦
            rw (e, run_options)
              (Goes-trans g (
                wait_for-Goes o.detach (container_manager_get_info (containers_of K s') id) s'
                  g.valid))
      ]

  pub handle_run-Goes : (argv : List Text) → IsGoing K (λ s. (handle_run K fuel lib argv s).1)
  unfolding handle_run
  handle_run-Goes argv s v =
      run_options-Goes (parse_run_options K lib argv s.world).0
        (record s { world = (parse_run_options K lib argv s.world).1 }) v
