-- ===== src/Manager/Reload.antt =====
-- What the state file brings back: containers without a configuration, none of them stopped.
use mathlib.Core.Path.{subst}
use mathlib.Core.Option.{some-injective}
use mini_container.Prelude.{
  ℕ, ◌≡◌, refl, sym, inl, inr, false, List, [], ◌∷◌, none, some, Option-cases, arith, get_elem?,
  All, All-append, ℤ, eqℤ, pos, zero, suc,
}
use mini_container.Text.{Text}
use mini_container.Kernel.{Kernel}
use mini_container.Config.{ContainerInfo, is_stopped, is_destroyed}
use mini_container.Manager.Table.{Sys, container_manager_get_info}
use mini_container.Manager.StateText.{state_of_number}
use mini_container.Manager.StateFile.{load_state}
use mini_container.Manager.StateFile.Keeping.{IsKept, load_state-Holds}
use mini_container.Manager.Lifecycle.{Fuel, container_manager_start}
use mini_container.Manager.Lifecycle.Starting.{start_saved, start-finds}
use mini_container.Manager.Spec.{points}

-- A container without a configuration, neither STOPPED nor DESTROYED.
abbrev pub IsReloaded : ContainerInfo → Type 0
IsReloaded c =
    (c.saved_config ≡ none) × (is_stopped c.state ≡ false) × (is_destroyed c.state ≡ false)

All-at :
    (cs : List ContainerInfo) (i : ℕ) {c : ContainerInfo}
    → All IsReloaded cs
    → get_elem? cs i ≡ some c
    → IsReloaded c
All-at [] i all e = absurd (cc e)
All-at (b ∷ cs) zero (h, all) e = subst IsReloaded (some-injective _ _ e) h
All-at (b ∷ cs) (suc i) (h, all) e = All-at cs i all e

state_of_number-live :
    (z : ℤ)
    → eqℤ z (pos 2) ≡ false
    → eqℤ z (pos 3) ≡ false
    → (is_stopped (state_of_number z) ≡ false) × (is_destroyed (state_of_number z) ≡ false)
state_of_number-live z h k = ground arith

module _ (K : Kernel) where
  abbrev pub Reloaded : Sys K → Type 0
  Reloaded s = All IsReloaded s.manager.containers

  Reloaded-IsKept : IsKept (λ m. All IsReloaded m.containers)
  Reloaded-IsKept m l h k all =
      let (live, there) = state_of_number-live l.state h k in
      All-append IsReloaded m.containers _ all ((refl, live, there), tt)

  -- Where no container of the table has a configuration and none is STOPPED or DESTROYED, so it is
  -- after `load_state`, whatever the state file holds: what was stopped is not brought back, and
  -- what is brought back comes without its configuration.
  pub load_state-Reloaded : (s : Sys K) → Reloaded s → Reloaded (load_state K s).1
  load_state-Reloaded s all =
      load_state-Holds K (λ m. All IsReloaded m.containers) Reloaded-IsKept s all

  module _ (fuel : Fuel) (s : Sys K) (empty : s.manager.containers ≡ []) where
    -- Nothing that `load_state` brings back into an empty table can be started: each entry comes
    -- without a configuration, so `container_manager_start` returns -1 for every text, whatever
    -- the state file holds.
    pub load_state-container_manager_start :
        (id : Text) → (container_manager_start K fuel id (load_state K s).1).0 ≡ none
    load_state-container_manager_start id =
        let s' = (load_state K s).1 in
        let all = load_state-Reloaded s (subst (All IsReloaded) (sym empty) tt) in
        elim (Option-cases (container_manager_get_info s'.manager.containers id)) [
          | inl missing ↦ start-finds K fuel s' id missing
          | inr ((i, c), found) ↦
              let at = points s'.manager.containers id i c found in
              start_saved K fuel s' id i c found (All-at s'.manager.containers i all at).0
        ]
