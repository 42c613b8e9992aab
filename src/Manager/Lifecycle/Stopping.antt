-- ===== src/Manager/Lifecycle/Stopping.antt =====
-- `container_manager_stop` and `container_manager_destroy`.
use mini_container.Prelude.{
  ℕ, ◌≡◌, refl, ap, ◌≢◌, ◌⊎◌, inl, inr, true, false, Option, none, some, arith, Option-cases,
  Bool-cases, ℤ,
}
use mini_container.Text.{Text}
use mini_container.Kernel.{Kernel}
use mini_container.Manager.Lifecycle.Told.{IsTime}
use mini_container.Config.{ContainerInfo, ContainerManager, running, is_running}
use mini_container.Manager.Table.{Sys, Found, remove_first, remove_container}
use mini_container.Manager.Lifecycle.{
  Fuel, stop_processes, container_manager_stop, container_manager_destroy,
}
use mini_container.Manager.Lifecycle.Frame.{destroying_cgroup-manager, save_state-manager}
use mini_container.Manager.Lifecycle.Starting.{halted, rewritten, found_by}

-- A stop leaves the manager or marks an entry as stopped.
abbrev pub Halts : ContainerManager → ContainerManager → Type 0
Halts m n = (n ≡ m) ⊎ ((i : ℕ) × (now : ℤ) × (n ≡ rewritten m i (halted now)))

module _ (K : Kernel) (fuel : Fuel) where
  -- What a call of `container_manager_stop` does, from what the lookup finds.
  abbrev pub Stops : Sys K → Found → Option (Unit {0}) × Sys K → Type 0
  Stops s none r = (r.0 ≡ none) × (r.1 ≡ s)
  Stops s (some (i, c)) r =
      ((c.state ≢ running) × (r.0 ≡ none) × (r.1 ≡ s))
      ⊎ ((now : ℤ) × IsTime K now
          × (c.state ≡ running)
          × (r.0 ≡ some tt)
          × (r.1.manager ≡ rewritten s.manager i (halted now)))

  stop_idle :
      (s : Sys K) (id : Text) (i : ℕ) (c : ContainerInfo)
      → found_by K fuel s id ≡ some (i, c)
      → is_running c.state ≡ false
      → container_manager_stop K fuel id s ≡ (none, s)
  unfolding container_manager_stop
  stop_idle s id i c e h = ground arith

  stop_running :
      (s : Sys K) (id : Text) (i : ℕ) (c : ContainerInfo)
      → found_by K fuel s id ≡ some (i, c)
      → is_running c.state ≡ true
      → ((container_manager_stop K fuel id s).0 ≡ some tt)
        × ((container_manager_stop K fuel id s).1.manager
            ≡ rewritten s.manager i
                (halted (K.time (stop_processes K fuel s.manager.rm c.id c.pid s.world)).0))
  unfolding container_manager_stop
  stop_running s id i c e h = grind (arith, save_state-manager)

  stop_missing :
      (s : Sys K) (id : Text)
      → found_by K fuel s id ≡ none
      → container_manager_stop K fuel id s ≡ (none, s)
  unfolding container_manager_stop
  stop_missing s id e = ground arith

  -- `container_manager_stop` returns -1 and changes nothing where no container is found or the one
  -- found is not RUNNING. Otherwise, whatever the system answers to the signals, it returns 0, and
  -- the entry found is STOPPED, its stop time one that the system told, and no other entry has
  -- changed.
  pub container_manager_stop-Stops :
      (s : Sys K) (id : Text) → Stops s (found_by K fuel s id) (container_manager_stop K fuel id s)
  container_manager_stop-Stops s id = elim (Option-cases (found_by K fuel s id)) [
    | inl missing ↦
        rw missing
          (ap (λ r. r.0) (stop_missing s id missing), ap (λ r. r.1) (stop_missing s id missing))
    | inr ((i, c), found) ↦ rw found (elim (Bool-cases (is_running c.state)) [
      | inl on ↦
          let (ok, m) = stop_running s id i c found on in
          inr (
            (K.time (stop_processes K fuel s.manager.rm c.id c.pid s.world)).0,
            (stop_processes K fuel s.manager.rm c.id c.pid s.world, refl),
            ground arith,
            ok,
            m,
          )
      | inr off ↦
          let same = stop_idle s id i c found off in
          inl (λ e. ground arith, ap (λ r. r.0) same, ap (λ r. r.1) same)
    ])
  ]

  pub stop-Halts :
      (s : Sys K) (id : Text) → Halts s.manager (container_manager_stop K fuel id s).1.manager
  stop-Halts s id = from (found_by K fuel s id) (container_manager_stop-Stops s id)
    where
      from :
          (f : Found)
          → Stops s f (container_manager_stop K fuel id s)
          → Halts s.manager (container_manager_stop K fuel id s).1.manager
      from none (r, e) = inl (ap (λ t. t.manager) e)
      from (some (i, c)) (inl (n, r, e)) = inl (ap (λ t. t.manager) e)
      from (some (i, c)) (inr (now, told, on, r, e)) = inr (i, now, e)

  -- What `container_manager_destroy` does once it has found a container: the table loses its first
  -- entry with the identifier that the caller gave.
  pub destroy_idle :
      (s : Sys K) (id : Text) (i : ℕ) (c : ContainerInfo)
      → found_by K fuel s id ≡ some (i, c)
      → is_running c.state ≡ false
      → ((container_manager_destroy K fuel id s).0 ≡ some tt)
        × ((container_manager_destroy K fuel id s).1.manager
            ≡ record s.manager { containers = remove_first s.manager.containers id })
  unfolding container_manager_destroy remove_container
  destroy_idle s id i c e h = grind (arith, save_state-manager, destroying_cgroup-manager)

  pub destroy_running :
      (s : Sys K) (id : Text) (i : ℕ) (c : ContainerInfo)
      → found_by K fuel s id ≡ some (i, c)
      → is_running c.state ≡ true
      → let m = (container_manager_stop K fuel c.id s).1.manager in
        ((container_manager_destroy K fuel id s).0 ≡ some tt)
        × ((container_manager_destroy K fuel id s).1.manager
            ≡ record m { containers = remove_first m.containers id })
  unfolding container_manager_destroy remove_container
  destroy_running s id i c e h = grind (arith, save_state-manager, destroying_cgroup-manager)

  pub destroy_found :
      (s : Sys K) (id : Text) (i : ℕ) (c : ContainerInfo)
      → found_by K fuel s id ≡ some (i, c)
      → (m : ContainerManager) × Halts s.manager m
        × ((container_manager_destroy K fuel id s).0 ≡ some tt)
        × ((container_manager_destroy K fuel id s).1.manager
            ≡ record m { containers = remove_first m.containers id })
  destroy_found s id i c e = elim (Bool-cases (is_running c.state)) [
    | inl on ↦
        let (ok, m) = destroy_running s id i c e on in
        ((container_manager_stop K fuel c.id s).1.manager, stop-Halts s c.id, ok, m)
    | inr off ↦ let (ok, m) = destroy_idle s id i c e off in (s.manager, inl refl, ok, m)
  ]

  pub destroy_missing :
      (s : Sys K) (id : Text)
      → found_by K fuel s id ≡ none
      → container_manager_destroy K fuel id s ≡ (none, s)
  unfolding container_manager_destroy
  destroy_missing s id e = ground arith
