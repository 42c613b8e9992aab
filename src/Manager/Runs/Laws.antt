-- ===== src/Manager/Runs/Laws.antt =====
-- `container_manager_run`: a container that is created and started, or created and removed again.
use mathlib.Core.Path.{subst}
use mathlib.Core.Option.{some-injective}
use mini_container.Prelude.{
  ℕ, ◌≡◌, refl, ap, sym, ◌∙◌, inl, inr, Option, none, some, Option-cases, arith, continue, pure,
  get_elem?, ℤ, pos,
}
use mini_container.Text.{Text, text_eq_refl}
use mini_container.Kernel.{Kernel}
use mini_container.Config.{ContainerConfig, ContainerInfo, ContainerManager, created, running}
use mini_container.Manager.Table.{Sys, find_container, generate_container_id}
use mini_container.Manager.Table.Lookup.{find_container-info_of}
use mini_container.Manager.Table.Updates.{info_of-append}
use mini_container.Manager.Copying.Laws.{deep_copy}
use mini_container.Manager.Lifecycle.{Fuel, cloning, container_manager_create}
use mini_container.Manager.Lifecycle.Frame.{added, cloning-manager, save_state-manager}
use mini_container.Manager.Lifecycle.Creation.{
  fresh_entry, Creates, container_manager_create-Creates,
}
use mini_container.Manager.Lifecycle.Told.{cloning-pid, cloning-IsCloned}
use mini_container.Manager.Lifecycle.Starting.{started, rewritten}
use mini_container.Manager.Validity.{
  IsValid, find-none→info_of, create-IsValid, destroy-IsValid, rewritten-IsValid,
}
use mini_container.Manager.Spec.{
  view, put, Steps, Steps-same, Steps-trans, here, next, starts, view-found, view-rewritten,
}
use mini_container.Manager.Steps.{create-Steps, destroy-Steps}
use mini_container.Manager.Runs.{
  giving_up, start_new, start_saved, start_found, identify, run_named, run_as,
  container_manager_run,
}

-- The manager stays valid and its view goes by steps of a container's life.
pub record Goes (K : Kernel) (m n : ContainerManager) : Type 0 where
  pub valid : IsValid n
  pub steps : Steps K (view m) (view n)

pub Goes-trans : {K : Kernel} {l m n : ContainerManager} → Goes K l m → Goes K m n → Goes K l n
Goes-trans a b = record { valid = b.valid; steps = Steps-trans a.steps b.steps }

pub Goes-same : {K : Kernel} {m n : ContainerManager} → IsValid m → n ≡ m → Goes K m n
Goes-same v e = record { valid = subst IsValid (sym e) v; steps = Steps-same e }

abbrev pub launched : ℤ → ℤ → ContainerInfo → ContainerInfo
launched pid now c = record c { pid = pid; state = running; started_at = now }

module _ (K : Kernel) (fuel : Fuel) where
  giving_up-Goes :
      (id : Text) (s : Sys K)
      → IsValid s.manager
      → Goes K s.manager (giving_up K fuel id s).1.manager
  unfolding giving_up
  giving_up-Goes id s v = record {
    valid = destroy-IsValid K fuel id s v;
    steps = destroy-Steps K fuel s v id;
  }

  pub start_new-fails :
      (id : Text) (i : ℕ) (saved : ContainerConfig) (s : Sys K)
      → (cloning K fuel id saved s).0 ≡ none
      → start_new K fuel id i saved s ≡ giving_up K fuel id (cloning K fuel id saved s).1
  unfolding start_new
  start_new-fails id i saved s e = ground arith

  pub start_new-launches :
      (id : Text) (i : ℕ) (saved : ContainerConfig) (s : Sys K) (pid : ℤ)
      → (cloning K fuel id saved s).0 ≡ some pid
      → (start_new K fuel id i saved s).1.manager
        ≡ rewritten s.manager i (launched pid (K.time (cloning K fuel id saved s).1.world).0)
  unfolding start_new
  start_new-launches id i saved s pid e = grind (arith, cloning-manager, save_state-manager)

  -- A container that was just created, as the table holds it.
  module _ (id : Text) (s : Sys K) (v : IsValid s.manager) (i : ℕ) (c : ContainerInfo)
      (at : get_elem? s.manager.containers i ≡ some c) (new : c.state ≡ created)
      (unset : c.stopped_at ≡ pos 0) where
    start_new-Goes :
        (saved : ContainerConfig)
        → c.saved_config ≡ some saved
        → Goes K s.manager (start_new K fuel id i saved s).1.manager
    start_new-Goes saved has = elim (Option-cases (cloning K fuel id saved s).0) [
      | inl e ↦
          let t = (cloning K fuel id saved s).1 in
          let same = Goes-same v (cloning-manager K fuel s id saved) in
          rw (start_new-fails id i saved s e) (Goes-trans same (giving_up-Goes id t same.valid))
      | inr (pid, e) ↦
          let now = (K.time (cloning K fuel id saved s).1.world).0 in
          let m = start_new-launches id i saved s pid e in
          record {
            valid =
                subst IsValid (sym m)
                  (rewritten-IsValid s.manager i (launched pid now) (λ b. refl) v);
            steps = next here (
                starts c saved pid now (view-found s.manager i c at v) (inl new) has
                  (cloning-pid K fuel id saved s e) (cloning-IsCloned K fuel id saved s e)
                  ((cloning K fuel id saved s).1.world, refl)
                  (ap view m
                    ∙ view-rewritten s.manager (launched pid now) i c (λ b. refl) at v
                    ∙ ap (λ b. put (view s.manager) c.id (some b)) (as_started pid now)));
          }
    ]
      where
        as_started : (pid now : ℤ) → launched pid now c ≡ started pid now c
        as_started pid now =
            λ j. record c { pid = pid; state = running; started_at = now; stopped_at = unset j }

    start_saved-Goes :
        (o : Option ContainerConfig)
        → c.saved_config ≡ o
        → Goes K s.manager (start_saved K fuel id i o s).1.manager
    unfolding start_saved
    start_saved-Goes none e = giving_up-Goes id s v
    start_saved-Goes (some saved) e = elim (Option-cases saved.command) [
      | inl missing ↦ rw (missing, start_saved) (giving_up-Goes id s v)
      | inr (command, has) ↦ rw (has, start_saved) (start_new-Goes saved e)
    ]

  start_found-Goes :
      (id : Text) (s : Sys K) (new : ContainerInfo)
      → IsValid s.manager
      → view s.manager id ≡ some new
      → new.state ≡ created
      → new.stopped_at ≡ pos 0
      → Goes K s.manager
          (start_found K fuel id (find_container s.manager.containers id) s).1.manager
  unfolding start_found
  start_found-Goes id s new v has fresh unset =
      elim (find_container-info_of s.manager.containers id) [
        | inl (missing, empty) ↦ absurd (cc (sym empty ∙ has))
        | inr (i, c, found, held, named, at) ↦
            let same = some-injective c new (sym held ∙ has) in
            rw (found, start_found)
              (start_saved-Goes id s v i c at (ap (λ b. b.state) same ∙ fresh)
                (ap (λ b. b.stopped_at) same ∙ unset) c.saved_config refl)
      ]

  view-added :
      (m : ContainerManager) (info : ContainerInfo)
      → find_container m.containers info.id ≡ none
      → view (added m info) info.id ≡ some info
  view-added m info new =
      info_of-append m.containers info info.id (find-none→info_of m.containers info.id new)
      ∙ rw (text_eq_refl info.id)

  -- The rest of `container_manager_run` after the creation.
  created-Goes :
      (id : Text) (config : ContainerConfig) (s : Sys K) (r : Option (Unit {0}) × Sys K)
      → Creates K fuel (record config { id = some id }) s id r
      → Goes K s.manager r.1.manager
      → Goes K s.manager
          (continue r
            λ u t. start_found K fuel id (find_container t.manager.containers id) t).1.manager
  created-Goes id config s (none, t) h g = g
  created-Goes id config s (some u, t) (inl (refused, e)) g = cc
  created-Goes id config s (some u, t) (inr (now, told, ok, e, new)) g =
      let info = fresh_entry id now (deep_copy (record config { id = some id })) in
      Goes-trans g (
        start_found-Goes id t info g.valid (ap (λ m. view m id) e ∙ view-added s.manager info new)
          refl refl)

  run_as-Goes :
      (id : Text) (config : ContainerConfig) (s : Sys K)
      → IsValid s.manager
      → Goes K s.manager (run_as K fuel id config s).1.manager
  unfolding run_as
  run_as-Goes id config s v =
      let o = some (record config { id = some id }) in
      created-Goes id config s (container_manager_create K fuel o s)
        (container_manager_create-Creates K fuel (record config { id = some id }) s)
        (record { valid = create-IsValid K fuel o s v; steps = create-Steps K fuel s v o })

  run_rest :
      (id : Text) (config : ContainerConfig) (s : Sys K)
      → Goes K s.manager (run_as K fuel id config s).1.manager
      → Goes K s.manager (continue (run_as K fuel id config s) λ u. pure id).1.manager
  run_rest id config s g = ground arith

  pub identify-manager : (o : Option Text) (s : Sys K) → (identify K fuel o s).1.manager ≡ s.manager
  unfolding identify generate_container_id
  identify-manager none s = ground arith
  identify-manager (some id) s = refl

  run_named-Goes :
      (o : Option Text) (config : ContainerConfig) (s : Sys K)
      → IsValid s.manager
      → Goes K s.manager (run_named K fuel o config s).1.manager
  unfolding run_named
  run_named-Goes o config s v =
      let t = (identify K fuel o s).1 in
      let same = Goes-same v (identify-manager o s) in
      elim (Option-cases (identify K fuel o s).0) [
        | inl e ↦ rw (e, continue) same
        | inr (id, e) ↦
            rw (e, continue)
              (Goes-trans same (run_rest id config t (run_as-Goes id config t same.valid)))
      ]

  pub run-Goes :
      (o : Option ContainerConfig) (s : Sys K)
      → IsValid s.manager
      → Goes K s.manager (container_manager_run K fuel o s).1.manager
  unfolding container_manager_run
  run-Goes none s v = Goes-same v refl
  run-Goes (some config) s v = run_named-Goes config.id config s v
