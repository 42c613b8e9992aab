-- ===== src/Manager/StateFile/Keeping.antt =====
-- What every container that `load_state` adds keeps true, `load_state` keeps true.
use mathlib.Core.Path.{subst}
use mini_container.Prelude.{
  ◌≡◌, sym, ◌⊎◌, inl, inr, false, List, [], ◌∷◌, Option-cases, arith, pos, eqℤ,
}
use mini_container.Text.{Text, fgets_lines}
use mini_container.Kernel.{Kernel}
use mini_container.Config.{ContainerManager}
use mini_container.Process.{each}
use mini_container.Manager.Table.{Sys}
use mini_container.Manager.StateText.{Loader, read_fields, skip_blank, fresh_loader}
use mini_container.Manager.StateFile.{
  loaded_info, check_alive, add_loaded, finish_container, load_line, load_state,
  get_state_file_path,
}
use mini_container.Manager.Lifecycle.Frame.{add_container-manager, added}

-- A container whose state was read as STOPPED or DESTROYED is not added.
abbrev pub IsKept : (ContainerManager → Type 0) → Type 0
IsKept P =
    (m : ContainerManager) (l : Loader)
    → eqℤ l.state (pos 2) ≡ false
    → eqℤ l.state (pos 3) ≡ false
    → P m
    → P (added m (loaded_info m.containers l))

add_loaded-manager :
    (K : Kernel) (l : Loader) (s : Sys K)
    → ((add_loaded K l s).1.manager ≡ s.manager)
      ⊎ ((add_loaded K l s).1.manager ≡ added s.manager (loaded_info s.manager.containers l))
unfolding add_loaded
add_loaded-manager K l s = grind (arith, add_container-manager)

module _ (K : Kernel) (P : ContainerManager → Type 0) (kept : IsKept P) where
  abbrev Holds : Sys K → Type 0
  Holds s = P s.manager

  add_loaded-Holds :
      (l : Loader) (s : Sys K)
      → eqℤ l.state (pos 2) ≡ false
      → eqℤ l.state (pos 3) ≡ false
      → Holds s
      → Holds (add_loaded K l s).1
  add_loaded-Holds l s h k all = elim (add_loaded-manager K l s) [
    | inl e ↦ subst P (sym e) all
    | inr e ↦ subst P (sym e) (kept s.manager l h k all)
  ]

  finish-Holds : (l : Loader) (s : Sys K) → Holds s → Holds (finish_container K (l, s)).1
  unfolding finish_container
  finish-Holds l s all =
      let l' = (check_alive K l s.world).0 in
      let s' = record s { world = (check_alive K l s.world).1 } in
      ground (arith, add_loaded-Holds l' s')

  load_line-Holds :
      (line : Text) (l : Loader) (s : Sys K) → Holds s → Holds (load_line K line (l, s)).1
  unfolding load_line
  load_line-Holds line l s all = ground (arith, finish-Holds (read_fields (skip_blank line) l) s)

  each-Holds :
      (lines : List Text) (l : Loader) (s : Sys K)
      → Holds s
      → Holds (each (load_line K) lines (l, s)).1
  unfolding each
  each-Holds [] l s all = all
  each-Holds (line ∷ lines) l s all =
      let next = load_line K line (l, s) in
      each-Holds lines next.0 next.1 (load_line-Holds line l s all)

  pub load_state-Holds : (s : Sys K) → Holds s → Holds (load_state K s).1
  unfolding load_state
  load_state-Holds s all =
      let (path, w) = get_state_file_path K s.world in
      let (contents, w') = K.read_text path w in
      let s' = record s { world = w' } in
      elim (Option-cases contents) [
        | inl e ↦ rw (e, load_state) all
        | inr (file, e) ↦
            ground (arith, each-Holds (fgets_lines 1022 1022 [] file) (fresh_loader 0) s')
      ]
