-- ===== src/Command/Handlers/Detached.antt =====
-- `handle_run` with -d.
use mathlib.Core.Option.{some-injective}
use mini_container.Prelude.{
  ◌≡◌, refl, sym, ap, ◌∙◌, ◌⊎◌, inl, inr, true, false, ℕ, none, some, arith,
}
use mini_container.Text.{Text, text_eq_refl}
use mini_container.Kernel.{Kernel}
use mini_container.Config.{ContainerInfo, ContainerManager, is_running}
use mini_container.Manager.Table.{Sys, container_manager_get_info}
use mini_container.Manager.Table.Lookup.{find_container-info_of}
use mini_container.Manager.Lifecycle.{Fuel}
use mini_container.Manager.Lifecycle.Creation.{fresh_entry}
use mini_container.Manager.Copying.Laws.{deep_copy}
use mini_container.Manager.Runs.Laws.{launched}
use mini_container.Manager.Runs.{container_manager_run}
use mini_container.Manager.Runs.Outcome.{RunsOrNot, named_config, container_manager_run-RunsOrNot}
use mini_container.Manager.Spec.{View, view, put}
use mini_container.Manager.Validity.{IsValid}
use mini_container.Command.Options.{Library, RunOptions}
use mini_container.Command.Handlers.{RunEnd, exits, sleeps, run_options, wait_for}

-- -1 and the table as it was, or the sleep, with a new container that is RUNNING.
abbrev pub FailsOrSleeps : (K : Kernel) → View → RunEnd × Sys K → Type 0
FailsOrSleeps K v r =
    ((r.0 ≡ exits false) × (view r.1.manager ≡ v))
    ⊎ ((id : Text) × (c : ContainerInfo) × (r.0 ≡ sleeps)
        × (v id ≡ none)
        × (view r.1.manager id ≡ some c)
        × (is_running c.state ≡ true))

get_info-view :
    (m : ContainerManager) (id : Text) (c : ContainerInfo)
    → view m id ≡ some c
    → (i : ℕ) × (container_manager_get_info m.containers id ≡ some (i, c))
unfolding container_manager_get_info
get_info-view m id c has = elim (find_container-info_of m.containers id) [
  | inl (missing, empty) ↦ absurd (cc (sym empty ∙ has))
  | inr (i, d, found, held, named, at) ↦ (
    i,
    rw (found, container_manager_get_info)
        (ap (λ b. some (i, b)) (some-injective d c (sym held ∙ has))),
  )
]

module _ (K : Kernel) (fuel : Fuel) (lib : Library) where
  after_start :
      (o : RunOptions) (s : Sys K) (v : View) (id : Text) (c : ContainerInfo)
      → o.detach ≡ true
      → (container_manager_run K fuel (some o.config) s).0 ≡ some id
      → v id ≡ none
      → view (container_manager_run K fuel (some o.config) s).1.manager ≡ put v id (some c)
      → is_running c.state ≡ true
      → FailsOrSleeps K v (run_options K fuel lib (some o) s)
  unfolding run_options wait_for
  after_start o s v id c detached given new placed on =
      let m = (container_manager_run K fuel (some o.config) s).1.manager in
      let held : view m id ≡ some c = ap (λ w. w id) placed ∙ rw (text_eq_refl id) in
      let (i, found) = get_info-view m id c held in inr (id, c, ground arith, new, ground arith, on)

  after_run :
      (o : RunOptions) (s : Sys K) (v : View)
      → o.detach ≡ true
      → RunsOrNot K fuel v o.config (container_manager_run K fuel (some o.config) s)
      → FailsOrSleeps K v (run_options K fuel lib (some o) s)
  unfolding run_options
  after_run o s v detached (inl (refused, same)) =
      inl (rw (refused, run_options), rw (refused, run_options) same)
  after_run o s v detached
        (inr (id, pid, made, now, cloned, at, told, given, new, started, placed)) =
      after_start o s v id
        (launched pid now (fresh_entry id made (deep_copy (named_config K fuel id o.config))))
        detached given new placed refl

  -- `run -d`, from a valid table: it fails with the table as it was, or its container is RUNNING
  -- and the program sleeps; it never returns with success.
  pub run_options-FailsOrSleeps :
      (o : RunOptions) (s : Sys K)
      → o.detach ≡ true
      → IsValid s.manager
      → FailsOrSleeps K (view s.manager) (run_options K fuel lib (some o) s)
  run_options-FailsOrSleeps o s detached v =
      after_run o s (view s.manager) detached (container_manager_run-RunsOrNot K fuel o.config s v)
