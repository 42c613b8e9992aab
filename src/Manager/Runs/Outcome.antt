-- ===== src/Manager/Runs/Outcome.antt =====
-- What `container_manager_run` leaves behind: a RUNNING container, or the table as it was.
use mathlib.Core.Path.{subst}
use mathlib.Core.Option.{some-injective}
use mini_container.Prelude.{
  ◌≡◌, ◌≢◌, refl, ap, sym, ◌∙◌, ◌⊎◌, inl, inr, fun_ext, Option, none, some, Option-cases, arith,
  continue, pure, ℤ, minus_one,
}
use mini_container.Text.{Text, text_eq_iff, text_eq_refl}
use mini_container.Kernel.{Kernel}
use mini_container.Config.{ContainerConfig, ContainerInfo}
use mini_container.Manager.Table.{Sys, find_container}
use mini_container.Manager.Table.Updates.{info_of-append}
use mini_container.Manager.Copying.Laws.{deep_copy}
use mini_container.Manager.Lifecycle.{Fuel, container_manager_create}
use mini_container.Manager.Lifecycle.Creation.{
  fresh_entry, Creates, container_manager_create-Creates,
}
use mini_container.Manager.Lifecycle.Told.{IsTime, IsCloned}
use mini_container.Manager.Validity.{IsValid, create-IsValid, find-none→info_of}
use mini_container.Manager.Spec.{View, view, put}
use mini_container.Manager.Runs.{start_found, identify, run_named, run_as, container_manager_run}
use mini_container.Manager.Runs.Laws.{launched, identify-manager}
use mini_container.Manager.Runs.Started.{start_found-Ends}

module _ (K : Kernel) (fuel : Fuel) where
  -- The configuration under the identifier that the call has chosen.
  abbrev pub named_config : Text → ContainerConfig → ContainerConfig
  named_config id config = record config { id = some id }

  -- The table is as it was and -1 returned, or `id` is new and RUNNING.
  abbrev pub Runs : View → Text → ContainerConfig → Option (Unit {0}) × Sys K → Type 0
  Runs v id config r =
      ((r.0 ≡ none) × (view r.1.manager ≡ v))
      ⊎ ((pid : ℤ) × (made : ℤ) × (now : ℤ) × IsCloned K (deep_copy (named_config id config)) pid
          × IsTime K made
          × IsTime K now
          × (r.0 ≡ some tt)
          × (v id ≡ none)
          × (pid ≢ minus_one)
          × (view r.1.manager
              ≡ put v id (
                  some
                    (launched pid now (fresh_entry id made (deep_copy (named_config id config)))))))

  put-put : (v : View) (id : Text) (a b : Option ContainerInfo) → put (put v id a) id b ≡ put v id b
  put-put v id a b = fun_ext λ x. ground arith

  put-none : (v : View) (id : Text) → v id ≡ none → put v id none ≡ v
  put-none v id e = fun_ext λ x. ground (arith, text_eq_iff id x)

  created-Runs :
      (id : Text) (config : ContainerConfig) (s : Sys K) (v : IsValid s.manager)
      → (r : Option (Unit {0}) × Sys K) → Creates K fuel (named_config id config) s id r
      → IsValid r.1.manager
      → Runs
          (view s.manager)
          id
          config
          (continue r λ u t. start_found K fuel id (find_container t.manager.containers id) t)
  created-Runs id config s v (none, t) (inl (refused, e)) valid = inl (refl, ap view e)
  created-Runs id config s v (none, t) (inr (made, at, ok, e, new)) valid = absurd (cc ok)
  created-Runs id config s v (some u, t) (inl (refused, e)) valid = absurd (cc refused)
  created-Runs id config s v (some u, t) (inr (made, at, ok, e, new)) valid =
      let info = fresh_entry id made (deep_copy (named_config id config)) in
      let absent = find-none→info_of s.manager.containers id new in
      let grown = ap view e ∙ fun_ext λ x. info_of-append s.manager.containers info x absent in
      let has = ap (λ w. w id) grown ∙ rw (text_eq_refl id) refl in
      elim (start_found-Ends K fuel id t info valid has) [
        | inl (none_run, left) ↦ inl (
          none_run,
          left
              ∙ ap (λ w. put w id none) grown
              ∙ put-put (view s.manager) id (some info) none
              ∙ put-none (view s.manager) id absent,
        )
        | inr (pid, now, saved, kept, cloned, told, runs, live, left) ↦ inr (
          pid,
          made,
          now,
          subst (λ x. IsCloned K x pid)
              (some-injective saved (deep_copy (named_config id config)) (sym kept)) cloned,
          at,
          told,
          runs,
          absent,
          live,
          left
              ∙ ap (λ w. put w id (some (launched pid now info))) grown
              ∙ put-put (view s.manager) id (some info) (some (launched pid now info)),
        )
      ]

  run_as-Runs :
      (id : Text) (config : ContainerConfig) (s : Sys K)
      → IsValid s.manager
      → Runs (view s.manager) id config (run_as K fuel id config s)
  unfolding run_as
  run_as-Runs id config s v =
      let o = some (named_config id config) in
      created-Runs id config s v (container_manager_create K fuel o s)
        (container_manager_create-Creates K fuel (named_config id config) s)
        (create-IsValid K fuel o s v)

  -- What a call of `container_manager_run` may leave.
  abbrev pub RunsOrNot : View → ContainerConfig → Option Text × Sys K → Type 0
  RunsOrNot v config r =
      ((r.0 ≡ none) × (view r.1.manager ≡ v))
      ⊎ ((id : Text) × (pid : ℤ) × (made : ℤ) × (now : ℤ) × IsCloned K
            (deep_copy (named_config id config)) pid
          × IsTime K made
          × IsTime K now
          × (r.0 ≡ some id)
          × (v id ≡ none)
          × (pid ≢ minus_one)
          × (view r.1.manager
              ≡ put v id (
                  some
                    (launched pid now (fresh_entry id made (deep_copy (named_config id config)))))))

  named-RunsOrNot :
      (id : Text) (config : ContainerConfig) (s : Sys K) (v : View)
      → Runs v id config (run_as K fuel id config s)
      → RunsOrNot v config (continue (run_as K fuel id config s) λ u. pure id)
  named-RunsOrNot id config s v (inl (refused, e)) = inl (ground arith, ground arith)
  named-RunsOrNot id config s v (inr (pid, made, now, cloned, at, told, runs, new, live, e)) = inr (
    id,
    pid,
    made,
    now,
    cloned,
    at,
    told,
    ground arith,
    new,
    live,
    ap view (rest (run_as K fuel id config s)) ∙ e,
  )
    where
      rest :
          (r : Option (Unit {0}) × Sys K)
          → (continue r λ u. pure {S = Sys K} id).1.manager ≡ r.1.manager
      rest (none, t) = refl
      rest (some u, t) = refl

  run_named-RunsOrNot :
      (o : Option Text) (config : ContainerConfig) (s : Sys K)
      → IsValid s.manager
      → RunsOrNot (view s.manager) config (run_named K fuel o config s)
  unfolding run_named
  run_named-RunsOrNot o config s v =
      let t = (identify K fuel o s).1 in
      let same = identify-manager K fuel o s in
      elim (Option-cases (identify K fuel o s).0) [
        | inl e ↦ rw (e, continue) (inl (refl, ap view same))
        | inr (id, e) ↦
            rw (e, continue)
              (subst
                (λ m. RunsOrNot (view m) config (continue (run_as K fuel id config t) λ u. pure id))
                same
                (named-RunsOrNot id config t (view t.manager)
                  (run_as-Runs id config t (subst IsValid (sym same) v))))
      ]

  -- In a valid table, `container_manager_run` either returns -1, and seen as a map from identifiers
  -- to containers the table is as it was: a container that was created but could not be started is
  -- removed again. Or it returns 0, and the identifier that it leaves in the configuration was new
  -- and now belongs to a RUNNING container with a copy of the configuration, a process that the
  -- system cloned with its command and namespaces, and the times of its creation and its start,
  -- which the system told; and no other container has changed.
  pub container_manager_run-RunsOrNot :
      (config : ContainerConfig) (s : Sys K)
      → IsValid s.manager
      → RunsOrNot (view s.manager) config (container_manager_run K fuel (some config) s)
  unfolding container_manager_run
  container_manager_run-RunsOrNot config s v = run_named-RunsOrNot config.id config s v
