-- ===== src/Manager/Lifecycle/Creation.antt =====
-- `container_manager_create`: a new entry at the end of the table, or nothing.
use mini_container.Prelude.{
  ◌≡◌, ap, sym, ◌∙◌, continue, ◌⊎◌, inl, inr, Option, none, some, arith, Option-cases, ℤ, pos, refl,
}
use mini_container.Text.{Text}
use mini_container.Kernel.{Kernel}
use mini_container.Config.{ContainerConfig, ContainerInfo, created}
use mini_container.Manager.Lifecycle.Told.{IsTime}
use mini_container.Manager.Table.{Sys, next_id, find_container, generate_container_id}
use mini_container.Manager.Copying.{copy_container_config}
use mini_container.Manager.Copying.Laws.{deep_copy, copy_container_config-eq}
use mini_container.Manager.Lifecycle.{Fuel, choose_id, create_as, container_manager_create}
use mini_container.Manager.Lifecycle.Frame.{
  added, creating_cgroup-manager, destroying_cgroup-manager, make_root-manager,
  add_container-manager, save_state-manager,
}

-- What a new entry is to hold: no process, CREATED, and only its creation time set.
abbrev pub fresh_entry : Text → ℤ → ContainerConfig → ContainerInfo
fresh_entry id now saved = record {
  id = id;
  pid = pos 0;
  state = created;
  created_at = now;
  started_at = pos 0;
  stopped_at = pos 0;
  saved_config = some saved;
}

ruleset frames = (
  creating_cgroup-manager, destroying_cgroup-manager, make_root-manager, add_container-manager,
  save_state-manager,
)

module _ (K : Kernel) (fuel : Fuel) (config : ContainerConfig) where
  -- A -1 leaves the table; a 0 has added a fresh entry with a copy of the configuration.
  abbrev pub Creates : Sys K → Text → Option (Unit {0}) × Sys K → Type 0
  Creates s id r =
      ((r.0 ≡ none) × (r.1.manager ≡ s.manager))
      ⊎ ((now : ℤ) × IsTime K now
          × (r.0 ≡ some tt)
          × (r.1.manager ≡ added s.manager (fresh_entry id now (deep_copy config)))
          × (find_container s.manager.containers id ≡ none))

  create_as-fails :
      (s : Sys K) (id : Text)
      → (create_as K fuel config id s).0 ≡ none
      → (create_as K fuel config id s).1.manager ≡ s.manager
  unfolding create_as
  create_as-fails s id h = grind (arith, frames)

  copy_at : Sys K → K.World
  copy_at s = (K.time (K.alloc s.world).1).1

  create_as-adds :
      (s : Sys K) (id : Text) (saved : ContainerConfig)
      → (copy_container_config K config (copy_at s)).0 ≡ some saved
      → (create_as K fuel config id s).0 ≡ some tt
      → ((create_as K fuel config id s).1.manager
          ≡ added s.manager (fresh_entry id (K.time (K.alloc s.world).1).0 (deep_copy config)))
        × (find_container s.manager.containers id ≡ none)
  unfolding create_as copy_at
  create_as-adds s id saved e h =
      let copied = copy_container_config-eq K config (copy_at s) e in grind (arith, frames)

  create_as-copies :
      (s : Sys K) (id : Text)
      → (copy_container_config K config (copy_at s)).0 ≡ none
      → (create_as K fuel config id s).0 ≡ none
  unfolding create_as copy_at
  create_as-copies s id e = ground arith

  create_as-Creates : (s : Sys K) (id : Text) → Creates s id (create_as K fuel config id s)
  unfolding copy_at
  create_as-Creates s id = elim (Option-cases (create_as K fuel config id s).0) [
    | inl e ↦ inl (e, create_as-fails s id e)
    | inr (u, e) ↦ elim (Option-cases (copy_container_config K config (copy_at s)).0) [
      | inl e' ↦
          let refused = create_as-copies s id e' in inl (refused, create_as-fails s id refused)
      | inr (saved, e') ↦
          let (m, f) = create_as-adds s id saved e' e in
          inr ((K.time (K.alloc s.world).1).0, ((K.alloc s.world).1, refl), e, m, f)
    ]
  ]

  -- The identifier of the configuration, or the next number.
  abbrev pub chosen_id : Option Text → Sys K → Text
  chosen_id none s = next_id s.manager.containers
  chosen_id (some id) s = id

  choose_id-cases :
      (o : Option Text) (s : Sys K)
      → (((choose_id K fuel o s).0 ≡ none) ⊎ ((choose_id K fuel o s).0 ≡ some (chosen_id o s)))
        × ((choose_id K fuel o s).1.manager ≡ s.manager)
  unfolding choose_id generate_container_id
  choose_id-cases none s = ground arith
  choose_id-cases (some id) s = ground arith

  Creates-from :
      (s t : Sys K) (id : Text) (r : Option (Unit {0}) × Sys K)
      → t.manager ≡ s.manager
      → Creates t id r
      → Creates s id r
  Creates-from s t id r e (inl (a, b)) = inl (a, b ∙ e)
  Creates-from s t id r e (inr (now, told, a, b, c)) = inr (
    now,
    told,
    a,
    b ∙ ap (λ m. added m (fresh_entry id now (deep_copy config))) e,
    ap (λ m. find_container m.containers id) (sym e) ∙ c,
  )

  -- `container_manager_create` either returns -1 and leaves the manager as it was, or returns 0,
  -- and then the table has one entry more, at its end: CREATED at a time that the
  -- system told, with no process and a copy of the configuration, under the given identifier or the
  -- next number, which no container had.
  pub container_manager_create-Creates :
      (s : Sys K)
      → Creates s (chosen_id config.id s) (container_manager_create K fuel (some config) s)
  unfolding container_manager_create
  container_manager_create-Creates s = elim (choose_id-cases config.id s).0 [
    | inl e ↦ inl (ground (arith, choose_id-cases config.id s))
    | inr e ↦
        rw (e, continue)
          (Creates-from s t id (create_as K fuel config id t) (choose_id-cases config.id s).1
            (create_as-Creates t id))
  ]
    where
      t : Sys K
      t = (choose_id K fuel config.id s).1

      id : Text
      id = chosen_id config.id s
