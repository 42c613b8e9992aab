-- ===== src/Manager/Runs/Initial.antt =====
-- The manager that `container_manager_init` returns.
use mathlib.Core.Path.{subst}
use mini_container.Prelude.{
  ◌≡◌, ◌<◌, ◌≤◌, sym, [], ◌∷◌, some, arith, length, length-append, ℤ, All, is_positive, to_ℕ,
  if◌then◌else◌, inl, inr, Option-cases,
}
use mini_container.Kernel.{Kernel}
use mini_container.Config.{ContainerManager, ContainerInfo, ResourceManager}
use mini_container.Text.{text}
use mini_container.Resource.{resource_manager_init}
use mini_container.Manager.Table.{Sys}
use mini_container.Manager.StateFile.{loaded_info, save_state}
use mini_container.Manager.StateFile.Keeping.{IsKept, load_state-Holds}
use mini_container.Manager.Lifecycle.Frame.{added}
use mini_container.Manager.Reload.{IsReloaded, load_state-Reloaded}
use mini_container.Manager.Runs.{load_and_save, default_max_containers, container_manager_init}

-- The containers fit the array, which has room for one at least.
abbrev pub Fits : ContainerManager → Type 0
Fits m = (length m.containers ≤ m.max_containers) × (0 < m.max_containers)

added-Fits : (m : ContainerManager) (info : ContainerInfo) → Fits m → Fits (added m info)
added-Fits m info h = ground (arith, length-append m.containers (info ∷ []))

pub Fits-IsKept : IsKept Fits
Fits-IsKept m l h k fits = added-Fits m (loaded_info m.containers l) fits

module _ (K : Kernel) where
  abbrev pub IsInitial : ContainerManager → Type 0
  IsInitial m = Fits m × All IsReloaded m.containers

  load_and_save-IsInitial :
      (m : ContainerManager) (w : K.World) → IsInitial m → IsInitial (load_and_save K m w).0
  unfolding load_and_save save_state
  load_and_save-IsInitial m w (fits, all) =
      let s : Sys K = record { manager = m; world = w } in
      ground (arith, load_state-Holds K Fits Fits-IsKept s fits, load_state-Reloaded K s all)

  -- The manager before `load_state`.
  abbrev fresh_manager : ResourceManager → ℤ → ContainerManager
  fresh_manager rm max_containers = record {
    rm = rm;
    containers = [];
    max_containers =
        if is_positive max_containers then to_ℕ max_containers else default_max_containers;
  }

  fresh-IsInitial : (rm : ResourceManager) (z : ℤ) → IsInitial (fresh_manager rm z)
  fresh-IsInitial rm z = ((omega arith, ground arith), tt)

  init_from :
      (z : ℤ) (w : K.World) (m : ContainerManager)
      → (container_manager_init K z w).0 ≡ some m
      → (rm : ResourceManager) × (v : K.World) × (m ≡ (load_and_save K (fresh_manager rm z) v).0)
  unfolding container_manager_init
  init_from z w m e =
      let w2 = (K.alloc (K.alloc w).1).1 in
      let (made, v) = resource_manager_init K (text "mini_container") w2 in
      elim (Option-cases made) [
        | inl failed ↦ absurd (ground arith)
        | inr (rm, ok) ↦ (rm, v, ground arith)
      ]

  -- A manager that `container_manager_init` returns has an array with room for a container at
  -- least, its containers fit the array, and none has a configuration or is STOPPED or DESTROYED.
  pub container_manager_init-IsInitial :
      (max_containers : ℤ) (w : K.World) (m : ContainerManager)
      → (container_manager_init K max_containers w).0 ≡ some m
      → IsInitial m
  container_manager_init-IsInitial max_containers w m e =
      let (rm, v, same) = init_from max_containers w m e in
      subst IsInitial (sym same) (
        load_and_save-IsInitial (fresh_manager rm max_containers) v
          (fresh-IsInitial rm max_containers))
