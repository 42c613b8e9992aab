-- ===== src/Manager/Runs/Executing.antt =====
-- `container_manager_exec` and its child.
use mini_container.Prelude.{◌≡◌, ◌↔◌, true, List, Option, some, arith, ℤ}
use mini_container.Text.{Text, text}
use mini_container.Kernel.{Kernel}
use mini_container.Namespace.{runs, ns_pid, ns_mnt, namespace_join}
use mini_container.Namespace.Child.{Joins, ns_file, namespace_join-Joins, Joins-namespace_join}
use mini_container.Manager.Table.{Sys}
use mini_container.Manager.Runs.{exec_child, container_manager_exec}

module _ (K : Kernel) where
  pub exec-manager : (id : Text) (s : Sys K) → (container_manager_exec K id s).1.manager ≡ s.manager
  unfolding container_manager_exec
  exec-manager id s = ground arith

  child-joins :
      (target : ℤ) (command ran : List (Option Text)) (w : K.World)
      → (exec_child K target command w).0 ≡ runs ran
      → let joined = namespace_join K target ns_pid w in
        let both = namespace_join K target ns_mnt joined.1 in
        (ran ≡ command)
        × (joined.0 ≡ some tt)
        × (both.0 ≡ some tt)
        × ((K.execvp command both.1).0 ≡ true)
  unfolding exec_child
  child-joins target command ran w h = ground arith

  joins-child :
      (target : ℤ) (command ran : List (Option Text)) (w u v : K.World)
      → ran ≡ command
      → namespace_join K target ns_pid w ≡ (some tt, u)
      → namespace_join K target ns_mnt u ≡ (some tt, v)
      → (K.execvp command v).0 ≡ true
      → (exec_child K target command w).0 ≡ runs ran
  unfolding exec_child
  joins-child target command ran w u v same joined both replaced = ground arith

  -- `exec_child` runs a command exactly if it is the one given, the descriptors of the PID and the
  -- mount namespace of the target under /proc could be opened, one after the other, `setns` on each
  -- returned, each was closed, and then `execvp` replaced the process.
  pub exec_child-runs :
      (target : ℤ) (command ran : List (Option Text)) (w : K.World)
      → ((exec_child K target command w).0 ≡ runs ran) ↔ (
          (ran ≡ command)
          × ((u : K.World) × (v : K.World) × Joins K (ns_file target (text "pid")) ns_pid w u
              × Joins K (ns_file target (text "mnt")) ns_mnt u v
              × ((K.execvp command v).0 ≡ true)))
  exec_child-runs target command ran w = (
    λ h.
        let (same, joined, both, replaced) = child-joins target command ran w h in
        let u = (namespace_join K target ns_pid w).1 in
        (
          same,
          (
            u,
            (namespace_join K target ns_mnt u).1,
            namespace_join-Joins K target ns_pid w joined,
            namespace_join-Joins K target ns_mnt u both,
            replaced,
          ),
        ),
    λ (same, (u, v, joined, both, replaced)).
        joins-child target command ran w u v same (Joins-namespace_join K target ns_pid w u joined)
          (Joins-namespace_join K target ns_mnt u v both) replaced,
  )
