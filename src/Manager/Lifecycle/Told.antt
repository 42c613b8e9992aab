-- ===== src/Manager/Lifecycle/Told.antt =====
-- The numbers that the manager records and that the system gives: a time, and a cloned process.
use Prim.Native.Nat.{bit_or}
use mathlib.Core.Path.{subst}
use mini_container.Prelude.{
  ◌≡◌, ◌≢◌, refl, sym, ◌∙◌, Option, none, some, arith, List, ℤ, minus_one, is_positive, Bool-cases,
  inl, inr,
}
use mini_container.Text.{Text}
use mini_container.Kernel.{Kernel}
use mini_container.Config.{ContainerConfig}
use mini_container.Namespace.{sigchld, namespace_create_container_with_cgroup}
use mini_container.Resource.{resource_manager_add_process}
use mini_container.Manager.Table.{Sys}
use mini_container.Manager.Lifecycle.{Fuel, cloning}

-- The system told this time at some moment.
abbrev pub IsTime : Kernel → ℤ → Type 0
IsTime K now = (w : K.World) × ((K.time w).0 ≡ now)

-- The system gave this answer to a `clone` for the namespaces and the command of a configuration.
abbrev pub IsCloned : Kernel → ContainerConfig → ℤ → Type 0
IsCloned K config pid =
    (command : List (Option Text)) × (config.command ≡ some command)
    × (w : K.World) × ((K.clone (bit_or config.ns_config.flags sigchld) command w).0 ≡ pid)

module _ (K : Kernel) (fuel : Fuel) where
  create_container-IsCloned :
      (config : ContainerConfig) (command : Option (List (Option Text))) (argc : ℤ)
      (callback : Option (ℤ → K.World → K.World)) (w : K.World)
      → config.command ≡ command
      → let pid =
          (namespace_create_container_with_cgroup K config.ns_config command argc callback w).0 in
        pid ≢ minus_one → IsCloned K config pid
  unfolding namespace_create_container_with_cgroup
  create_container-IsCloned config none argc callback w e live = absurd (live refl)
  create_container-IsCloned config (some command) argc callback w e live =
      elim (Bool-cases (is_positive argc)) [
        | inl on ↦ (command, e, w, ground arith)
        | inr off ↦ absurd (ground arith)
      ]

  pub cloning-pid :
      (id : Text) (config : ContainerConfig) (s : Sys K) {pid : ℤ}
      → (cloning K fuel id config s).0 ≡ some pid
      → pid ≢ minus_one
  unfolding cloning
  cloning-pid id config s h = ground arith

  pub cloning-IsCloned :
      (id : Text) (config : ContainerConfig) (s : Sys K) {pid : ℤ}
      → (cloning K fuel id config s).0 ≡ some pid
      → IsCloned K config pid
  unfolding cloning
  cloning-IsCloned id config s {pid} h =
      let cloned : (namespace_create_container_with_cgroup K config.ns_config config.command
            config.command_argc (some λ p w. (resource_manager_add_process K s.manager.rm id p w).1)
            s.world).0
          ≡ pid =
        ground arith in
      subst (IsCloned K config) cloned (
        create_container-IsCloned config config.command config.command_argc _ s.world refl
          λ e. cloning-pid id config s h (sym cloned ∙ e))
