-- ===== src/Command/Shutdown/Loops.antt =====
-- The loops over the table of src/main.cpp: what their bodies keep, they keep.
use mini_container.Prelude.{ℕ, zero, suc, inl, inr, Option-cases, get_elem?, length}
use mini_container.Kernel.{Kernel}
use mini_container.Config.{ContainerInfo}
use mini_container.Manager.Table.{Sys}
use mini_container.Manager.Lifecycle.{Fuel}
use mini_container.Command.Shutdown.{count_up, at_entry, over_table}

module _ (K : Kernel) (fuel : Fuel) where
  abbrev Body : Type 0
  Body = ℕ → ContainerInfo → Sys K → Sys K

  -- A loop over the table keeps what its body keeps.
  module _ (P : Sys K → Type 0) (body : Body)
      (keeps : (i : ℕ) (c : ContainerInfo) (s : Sys K) → P s → P (body i c s)) where
    at_entry-keeps : (i : ℕ) (s : Sys K) → P s → P (at_entry K fuel body i s)
    unfolding at_entry
    at_entry-keeps i s h = elim (Option-cases (get_elem? s.manager.containers i)) [
      | inl e ↦ rw (e, at_entry) h
      | inr (c, e) ↦ rw (e, at_entry) (keeps i c s h)
    ]

    count_up-keeps : (n i : ℕ) (s : Sys K) → P s → P (count_up (at_entry K fuel body) n i s)
    unfolding count_up
    count_up-keeps zero i s h = h
    count_up-keeps (suc n) i s h =
        count_up-keeps n (suc i) (at_entry K fuel body i s) (at_entry-keeps i s h)

    pub over_table-keeps : (s : Sys K) → P s → P (over_table K fuel body s)
    unfolding over_table
    over_table-keeps s h = count_up-keeps (length s.manager.containers) 0 s h
