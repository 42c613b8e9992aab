-- ===== src/Manager/Lifecycle/Frame.antt =====
-- Which steps leave the manager alone, whatever the system does.
use mini_container.Prelude.{
  ◌≡◌, refl, ◌⊎◌, none, some, arith, if◌then◌else◌, leb, length, ◌*◌, [], ◌∷◌, ◌++◌,
}
use mini_container.Text.{Text}
use mini_container.Kernel.{Kernel}
use mini_container.Config.{ContainerConfig, ContainerInfo, ContainerManager}
use mini_container.Manager.Table.{Sys, add_container}
use mini_container.Manager.StateFile.{save_state}
use mini_container.Manager.Lifecycle.{Fuel, destroying_cgroup, creating_cgroup, make_root, cloning}

module _ (K : Kernel) (fuel : Fuel) (s : Sys K) where
  pub save_state-manager : (save_state K s).manager ≡ s.manager
  unfolding save_state
  save_state-manager = refl

  pub creating_cgroup-manager :
      (id : Text) (config : ContainerConfig)
      → (creating_cgroup K fuel id config s).1.manager ≡ s.manager
  unfolding creating_cgroup
  creating_cgroup-manager id config = refl

  pub destroying_cgroup-manager :
      (id : Text) → (destroying_cgroup K fuel id s).1.manager ≡ s.manager
  unfolding destroying_cgroup
  destroying_cgroup-manager id = refl

  pub make_root-manager :
      (config : ContainerConfig) → (make_root K fuel config s).1.manager ≡ s.manager
  unfolding make_root
  make_root-manager config = ground arith

  pub cloning-manager :
      (id : Text) (config : ContainerConfig) → (cloning K fuel id config s).1.manager ≡ s.manager
  unfolding cloning
  cloning-manager id config = ground arith

-- The table with one entry more, its array doubled if it was full.
abbrev pub added : ContainerManager → ContainerInfo → ContainerManager
added m info = record m {
  containers = m.containers ++ (info ∷ []);
  max_containers =
      if leb m.max_containers (length m.containers) then m.max_containers * 2 else m.max_containers;
}

pub add_container-manager :
    (K : Kernel) (s : Sys K) (info : ContainerInfo)
    → (((add_container K info s).0 ≡ none) × ((add_container K info s).1.manager ≡ s.manager))
      ⊎ (((add_container K info s).0 ≡ some tt)
          × ((add_container K info s).1.manager ≡ added s.manager info))
unfolding add_container
add_container-manager K s info = ground arith
