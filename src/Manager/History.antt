-- ===== src/Manager/History.antt =====
-- Calls of the container manager in sequence, as main.cpp and the web server make them.
use mini_container.Prelude.{refl, List, [], ◌∷◌, Option}
use mini_container.Text.{Text}
use mini_container.Kernel.{Kernel}
use mini_container.Config.{ContainerConfig}
use mini_container.Process.{each}
use mini_container.Manager.Table.{Sys}
use mini_container.Manager.Lifecycle.{
  Fuel, container_manager_create, container_manager_start, container_manager_stop,
  container_manager_destroy,
}
use mini_container.Manager.Runs.{container_manager_run, container_manager_exec}
use mini_container.Manager.Runs.Laws.{Goes, Goes-same, Goes-trans, run-Goes}
use mini_container.Manager.Validity.{
  IsValid, create-IsValid, start-IsValid, stop-IsValid, destroy-IsValid,
}
use mini_container.Manager.Steps.{create-Steps, start-Steps, stop-Steps, destroy-Steps}
use mini_container.Manager.Runs.Executing.{exec-manager}

-- A change of the system that is a history of the table.
abbrev pub IsGoing : (K : Kernel) → (Sys K → Sys K) → Type 0
IsGoing K f = (s : Sys K) → IsValid s.manager → Goes K s.manager (f s).manager

pub each-Goes :
    {A : Type 0} (K : Kernel) (body : A → Sys K → Sys K) (xs : List A)
    → ((x : A) → IsGoing K (body x))
    → IsGoing K (each body xs)
unfolding each
each-Goes K body [] goes s v = Goes-same v refl
each-Goes K body (x ∷ xs) goes s v =
    let g = goes x s v in Goes-trans g (each-Goes K body xs goes (body x s) g.valid)

pub data Call : Type 0 where
  create run : Option ContainerConfig → Call
  start stop destroy exec : Text → Call

module _ (K : Kernel) (fuel : Fuel) where
  -- The system after a call, whatever it returns.
  unfoldable pub perform : Call → Sys K → Sys K
  perform (create config) s = (container_manager_create K fuel config s).1
  perform (run config) s = (container_manager_run K fuel config s).1
  perform (start id) s = (container_manager_start K fuel id s).1
  perform (stop id) s = (container_manager_stop K fuel id s).1
  perform (destroy id) s = (container_manager_destroy K fuel id s).1
  perform (exec id) s = (container_manager_exec K id s).1

  unfoldable pub perform_all : List Call → Sys K → Sys K
  unfolding perform
  perform_all [] s = s
  perform_all (call ∷ calls) s = perform_all calls (perform call s)

  pub perform-Goes :
      (call : Call) (s : Sys K) → IsValid s.manager → Goes K s.manager (perform call s).manager
  unfolding perform
  perform-Goes (create o) s v = record {
    valid = create-IsValid K fuel o s v;
    steps = create-Steps K fuel s v o;
  }
  perform-Goes (run o) s v = run-Goes K fuel o s v
  perform-Goes (start id) s v = record {
    valid = start-IsValid K fuel id s v;
    steps = start-Steps K fuel s v id;
  }
  perform-Goes (stop id) s v = record {
    valid = stop-IsValid K fuel id s v;
    steps = stop-Steps K fuel s v id;
  }
  perform-Goes (destroy id) s v = record {
    valid = destroy-IsValid K fuel id s v;
    steps = destroy-Steps K fuel s v id;
  }
  perform-Goes (exec id) s v = Goes-same v (exec-manager K id s)
