-- ===== src/Manager/Lifecycle/Starting.antt =====
-- `container_manager_start` and `container_manager_stop`: a write through the pointer that the
-- lookup returns, or nothing.
use mini_container.Prelude.{
  ℕ, ◌≡◌, refl, ◌≢◌, ◌⊎◌, inl, inr, Option, none, some, arith, Option-cases, modify, ℤ, pos,
  minus_one,
}
use mini_container.Text.{Text}
use mini_container.Kernel.{Kernel}
use mini_container.Manager.Lifecycle.Told.{IsTime, IsCloned, cloning-pid, cloning-IsCloned}
use mini_container.Config.{
  ContainerConfig, ContainerInfo, ContainerManager, ContainerState, created, running, stopped,
}
use mini_container.Manager.Table.{Sys, Found, container_manager_get_info}
use mini_container.Manager.Lifecycle.{Fuel, cloning, creating_cgroup, container_manager_start}
use mini_container.Manager.Lifecycle.Frame.{
  creating_cgroup-manager, cloning-manager, save_state-manager,
}

abbrev pub started : ℤ → ℤ → ContainerInfo → ContainerInfo
started pid now c = record c { pid = pid; state = running; started_at = now; stopped_at = pos 0 }

abbrev pub halted : ℤ → ContainerInfo → ContainerInfo
halted now c = record c { state = stopped; stopped_at = now }

-- The manager with the entry at a position rewritten.
abbrev pub rewritten : ContainerManager → ℕ → (ContainerInfo → ContainerInfo) → ContainerManager
rewritten m i f = record m { containers = modify f m.containers i }

-- A container may be started from here.
abbrev pub IsStartable : ContainerState → Type 0
IsStartable s = (s ≡ created) ⊎ (s ≡ stopped)

module _ (K : Kernel) (fuel : Fuel) where
  abbrev pub found_by : Sys K → Text → Found
  found_by s id = container_manager_get_info s.manager.containers id

  start-fails :
      (s : Sys K) (id : Text)
      → (container_manager_start K fuel id s).0 ≡ none
      → (container_manager_start K fuel id s).1.manager ≡ s.manager
  unfolding container_manager_start
  start-fails s id h = grind (arith, creating_cgroup-manager, cloning-manager, save_state-manager)

  pub start-finds :
      (s : Sys K) (id : Text)
      → found_by s id ≡ none
      → (container_manager_start K fuel id s).0 ≡ none
  unfolding container_manager_start
  start-finds s id e = ground arith

  start-IsStartable :
      (s : Sys K) (id : Text) (i : ℕ) (c : ContainerInfo)
      → found_by s id ≡ some (i, c)
      → (container_manager_start K fuel id s).0 ≡ some tt
      → IsStartable c.state
  unfolding container_manager_start
  start-IsStartable s id i c e h = ground arith

  start_at :
      (s : Sys K) (id : Text) (i : ℕ) (c : ContainerInfo) (config : ContainerConfig)
      → found_by s id ≡ some (i, c)
      → c.saved_config ≡ some config
      → (container_manager_start K fuel id s).0 ≡ some tt
      → (pid : ℤ) × (now : ℤ) × IsCloned K config pid
        × IsTime K now
        × (pid ≢ minus_one)
        × ((container_manager_start K fuel id s).1.manager
            ≡ rewritten s.manager i (started pid now))
  unfolding container_manager_start
  start_at s id i c config e saved h =
      let t = (creating_cgroup K fuel id config s).1 in
      elim (Option-cases (cloning K fuel id config t).0) [
        | inl none_cloned ↦ absurd (ground arith)
        | inr (pid, cloned) ↦ (
          pid,
          (K.time (cloning K fuel id config t).1.world).0,
          cloning-IsCloned K fuel id config t cloned,
          ((cloning K fuel id config t).1.world, refl),
          cloning-pid K fuel id config t cloned,
          grind (arith, creating_cgroup-manager, cloning-manager, save_state-manager),
        )
      ]

  -- What a call of `container_manager_start` may do.
  abbrev pub Starts : Sys K → Text → Option (Unit {0}) × Sys K → Type 0
  Starts s id r =
      ((r.0 ≡ none) × (r.1.manager ≡ s.manager))
      ⊎ ((i : ℕ) × (c : ContainerInfo) × (config : ContainerConfig) × (pid : ℤ) × (now : ℤ)
          × (found_by s id ≡ some (i, c))
          × IsStartable c.state
          × (c.saved_config ≡ some config)
          × IsCloned K config pid
          × IsTime K now
          × (pid ≢ minus_one)
          × (r.0 ≡ some tt)
          × (r.1.manager ≡ rewritten s.manager i (started pid now)))

  pub start_saved :
      (s : Sys K) (id : Text) (i : ℕ) (c : ContainerInfo)
      → found_by s id ≡ some (i, c)
      → c.saved_config ≡ none
      → (container_manager_start K fuel id s).0 ≡ none
  unfolding container_manager_start
  start_saved s id i c e h = ground arith

  start_found-Starts :
      (s : Sys K) (id : Text) (i : ℕ) (c : ContainerInfo)
      → found_by s id ≡ some (i, c)
      → (container_manager_start K fuel id s).0 ≡ some tt
      → Starts s id (container_manager_start K fuel id s)
  start_found-Starts s id i c e h = elim (Option-cases c.saved_config) [
    | inl missing ↦
        let refused = start_saved s id i c e missing in inl (refused, start-fails s id refused)
    | inr (config, saved) ↦
        let (pid, now, made, told, live, m) = start_at s id i c config e saved h in
        inr
          (i, c, config, pid, now, e, start-IsStartable s id i c e h, saved, made, told, live, h, m)
  ]

  -- `container_manager_start` either returns -1 and leaves the manager as it was, or returns 0, and
  -- then it found a CREATED or STOPPED container with a saved configuration, which now is RUNNING
  -- under a process that the system cloned with the command and namespaces saved, its start time
  -- one that the system told and its stop time cleared, and no other entry has changed.
  pub container_manager_start-Starts :
      (s : Sys K) (id : Text) → Starts s id (container_manager_start K fuel id s)
  container_manager_start-Starts s id =
      elim (Option-cases (container_manager_start K fuel id s).0) [
        | inl e ↦ inl (e, start-fails s id e)
        | inr (u, e) ↦ elim (Option-cases (found_by s id)) [
          | inl missing ↦
              let refused = start-finds s id missing in inl (refused, start-fails s id refused)
          | inr ((i, c), found) ↦ start_found-Starts s id i c found e
        ]
      ]
