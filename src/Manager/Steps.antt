-- ===== src/Manager/Steps.antt =====
-- Each operation of the container manager goes by the steps of a container's life.
use mathlib.Core.Path.{subst}
use mini_container.Prelude.{
  ℕ, ◌≡◌, refl, arith, ap, sym, ◌∙◌, inl, inr, fun_ext, Option, none, some, Option-cases,
  Bool-cases, get_elem?,
}
use mini_container.Text.{Text, text_eq_iff, text_eq_refl}
use mini_container.Kernel.{Kernel}
use mini_container.Config.{ContainerConfig, ContainerInfo, ContainerManager, is_running}
use mini_container.Manager.Table.{Sys, remove_first}
use mini_container.Manager.Table.Updates.{info_of-append}
use mini_container.Manager.Copying.Laws.{deep_copy}
use mini_container.Manager.Lifecycle.{
  Fuel, container_manager_create, container_manager_start, container_manager_stop,
  container_manager_destroy,
}
use mini_container.Manager.Lifecycle.Creation.{
  fresh_entry, Creates, chosen_id, container_manager_create-Creates,
}
use mini_container.Manager.Lifecycle.Starting.{
  started, halted, found_by, Starts, container_manager_start-Starts,
}
use mini_container.Manager.Lifecycle.Stopping.{
  Stops, container_manager_stop-Stops, destroy_idle, destroy_running, destroy_missing,
}
use mini_container.Manager.Validity.{IsValid, find-none→info_of, stop-IsValid}
use mini_container.Manager.Spec.{
  view, put, Steps, Steps-same, here, next, creates, starts, stops, removes, view-rewritten,
  view-removed, view-found, points,
}
use mini_container.Manager.Removal.{
  container_manager_destroy-view, get_info-of-view, put-put, view-stop,
}

module _ (K : Kernel) (fuel : Fuel) (s : Sys K) (valid : IsValid s.manager) where
  Creates-Steps :
      (config : ContainerConfig)
      → (r : Option (Unit {0}) × Sys K)
      → Creates K fuel config s (chosen_id K fuel config config.id s) r
      → Steps K (view s.manager) (view r.1.manager)
  Creates-Steps config r (inl (refused, e)) = Steps-same e
  Creates-Steps config r (inr (now, told, ok, e, new)) =
      let info = fresh_entry (chosen_id K fuel config config.id s) now (deep_copy config) in
      let absent = find-none→info_of s.manager.containers info.id new in
      next here (
        creates info.id now (deep_copy config) absent told
          (ap view e ∙ fun_ext λ id. info_of-append s.manager.containers info id absent))

  Starts-Steps :
      (id : Text) (r : Option (Unit {0}) × Sys K)
      → Starts K fuel s id r
      → Steps K (view s.manager) (view r.1.manager)
  Starts-Steps id r (inl (refused, e)) = Steps-same e
  Starts-Steps id r (inr (i, c, config, pid, now, found, from, saved, made, told, live, ok, e)) =
      let at = points s.manager.containers id i c found in
      next here (
        starts c config pid now (view-found s.manager i c at valid) from saved live made told
          (ap view e ∙ view-rewritten s.manager (started pid now) i c (λ b. refl) at valid))

  Stops-Steps :
      (id : Text) (r : Option (Unit {0}) × Sys K)
      → Stops K fuel s (found_by K fuel s id) r
      → Steps K (view s.manager) (view r.1.manager)
  Stops-Steps id r h = elim (Option-cases (found_by K fuel s id)) [
    | inl missing ↦ Steps-same (ap (λ t. t.manager) (subst (λ f. Stops K fuel s f r) missing h).1)
    | inr ((i, c), found) ↦
        from i c (points s.manager.containers id i c found)
          (subst (λ f. Stops K fuel s f r) found h)
  ]
    where
      from :
          (i : ℕ) (c : ContainerInfo)
          → get_elem? s.manager.containers i ≡ some c
          → Stops K fuel s (some (i, c)) r
          → Steps K (view s.manager) (view r.1.manager)
      from i c at (inl (idle, refused, e)) = Steps-same (ap (λ t. t.manager) e)
      from i c at (inr (now, told, on, ok, e)) = next here (
          stops c now (view-found s.manager i c at valid) on told
            (ap view e ∙ view-rewritten s.manager (halted now) i c (λ b. refl) at valid))

  pub stop-Steps :
      (id : Text) → Steps K (view s.manager) (view (container_manager_stop K fuel id s).1.manager)
  stop-Steps id =
      Stops-Steps id (container_manager_stop K fuel id s) (container_manager_stop-Stops K fuel s id)

  pub start-Steps :
      (id : Text) → Steps K (view s.manager) (view (container_manager_start K fuel id s).1.manager)
  start-Steps id =
      Starts-Steps id (container_manager_start K fuel id s)
        (container_manager_start-Starts K fuel s id)

  pub create-Steps :
      (o : Option ContainerConfig)
      → Steps K (view s.manager) (view (container_manager_create K fuel o s).1.manager)
  unfolding container_manager_create
  create-Steps none = here
  create-Steps (some config) =
      Creates-Steps config (container_manager_create K fuel (some config) s)
        (container_manager_create-Creates K fuel config s)

  -- A pointer that shows no entry under the identifier given: the container was found by its
  -- process number, and the removal finds nothing.
  unchanged : (m : ContainerManager) (id : Text) → view m id ≡ none → put (view m) id none ≡ view m
  unchanged m id e = fun_ext λ x. ground (arith, text_eq_iff id x)

  -- The container of this identifier is removed, after a stop where it was RUNNING.
  destroy_named-Steps :
      (id : Text) (c : ContainerInfo)
      → view s.manager id ≡ some c
      → Steps K (view s.manager) (view (container_manager_destroy K fuel id s).1.manager)
  destroy_named-Steps id c held =
      let (i, found, named) = get_info-of-view s.manager.containers id c held in
      let own : view s.manager c.id ≡ some c = ap (view s.manager) named ∙ held in
      let gone =
        (container_manager_destroy-view K fuel s valid id c held).1
        ∙ ap (λ x. put (view s.manager) x none) (sym named) in
      elim (Bool-cases (is_running c.state)) [
        | inl on ↦
            let now = (K.time s.world).0 in
            next (next here (stops c now own (ground arith) (s.world, refl) refl)) (
              removes (halted now c) (rw (text_eq_refl c.id) refl) (λ e. ground arith)
                (gone ∙ sym (put-put (view s.manager) c.id c.id (some (halted now c)) refl)))
        | inr off ↦ next here (removes c own (λ e. ground arith) gone)
      ]

  -- The container found has another identifier: it is stopped where it was RUNNING, and stays.
  destroy_other-Steps :
      (id : Text) (i : ℕ) (c : ContainerInfo)
      → view s.manager id ≡ none
      → found_by K fuel s id ≡ some (i, c)
      → Steps K (view s.manager) (view (container_manager_destroy K fuel id s).1.manager)
  destroy_other-Steps id i c absent found = elim (Bool-cases (is_running c.state)) [
    | inl on ↦
        let t = (container_manager_stop K fuel c.id s).1 in
        let (o, stopped) = view-stop K fuel s valid c own in
        let still : view t.manager id ≡ none =
          ap (λ v. v id) stopped ∙ ground (arith, text_eq_iff c.id id, own, absent) in
        ends t.manager (destroy_running K fuel s id i c found on).1
          (stop-IsValid K fuel c.id s valid) still (stop-Steps c.id)
    | inr off ↦ ends s.manager (destroy_idle K fuel s id i c found off).1 valid absent here
  ]
    where
      own : view s.manager c.id ≡ some c
      own = view-found s.manager i c (points s.manager.containers id i c found) valid

      ends :
          (m : ContainerManager)
          → (container_manager_destroy K fuel id s).1.manager
            ≡ record m { containers = remove_first m.containers id }
          → IsValid m
          → view m id ≡ none
          → Steps K (view s.manager) (view m)
          → Steps K (view s.manager) (view (container_manager_destroy K fuel id s).1.manager)
      ends m e v still steps =
          subst (Steps K (view s.manager))
            (sym (ap view e ∙ view-removed m id v ∙ unchanged m id still)) steps

  pub destroy-Steps :
      (id : Text)
      → Steps K (view s.manager) (view (container_manager_destroy K fuel id s).1.manager)
  destroy-Steps id = elim (Option-cases (view s.manager id)) [
    | inr (c, held) ↦ destroy_named-Steps id c held
    | inl absent ↦ elim (Option-cases (found_by K fuel s id)) [
      | inl missing ↦ Steps-same (ap (λ r. r.1.manager) (destroy_missing K fuel s id missing))
      | inr ((i, c), found) ↦ destroy_other-Steps id i c absent found
    ]
  ]
