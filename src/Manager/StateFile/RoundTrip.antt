-- ===== src/Manager/StateFile/RoundTrip.antt =====
-- The state file brings back what it keeps: `load_state` after `save_state`.
use mini_container.Prelude.{
  ℕ, ◌≡◌, refl, true, [], ◌∷◌, ◌++◌, arith, All, length, ◌+◌, sym, ap, ◌∙◌, List, some,
  is_empty_list, length-append,
}
use mini_container.Text.{Text, text, fgets_lines}
use mini_container.Kernel.{Kernel}
use mini_container.Manager.Table.{Sys}
use mini_container.Manager.StateText.{
  info_lines, table_lines, state_lines, state_text, fresh_loader,
}
use mini_container.Manager.StateFile.{
  load_line, state_file_path, load_state, save_state, get_state_file_path,
}
use mathlib.Core.List.{append_assoc, append-nil}
use mini_container.Config.{ContainerInfo, ContainerManager}
use mini_container.Process.{each}
use mini_container.Manager.Lifecycle.Frame.{added}
use mini_container.Manager.StateText.Stored.{IsStored, fgets_lines-state_text}
use mini_container.Manager.StateFile.Rounds.{first_lines, last_lines, info_lines-round}
use mini_container.Manager.StateFile.Live.{
  live_one, live_ones, HasProcess, finish_container-printed,
}

module _ (K : Kernel) (allocates : (w : K.World) → (K.alloc w).0 ≡ true) where
  -- The lines of the table.
  table_lines-round :
      (cs : List ContainerInfo) (rest : List Text) (k : ℕ) (s : Sys K)
      → All IsStored cs
      → All (HasProcess K) cs
      → (s' : Sys K) × (each (load_line K) (table_lines cs ++ rest) (fresh_loader k, s)
          ≡ each (load_line K) rest (fresh_loader (k + length (live_ones cs)), s'))
        × (s'.manager.containers ≡ s.manager.containers ++ live_ones cs)
  unfolding table_lines live_ones
  table_lines-round [] rest k s hs alive = (
    s,
    ap (λ n. each (load_line K) rest (fresh_loader n, s)) (omega arith),
    sym (append-nil s.manager.containers),
  )
  table_lines-round (c ∷ cs) rest k s (h, hs) (alive, alives) =
      let (s', e, m) = finish_container-printed K allocates c k s h alive in
      let (s'', f, n) = table_lines-round cs rest (k + length (live_one c)) s' hs alives in
      let lines = info_lines c (is_empty_list cs) in
      (
        s'',
        ap (λ ls. each (load_line K) ls (fresh_loader k, s))
              (append_assoc lines (table_lines cs) rest)
            ∙ info_lines-round K c (is_empty_list cs) (table_lines cs ++ rest) k s h
            ∙ ap (each (load_line K) (table_lines cs ++ rest)) e
            ∙ f
            ∙ ap (λ n. each (load_line K) rest (fresh_loader n, s''))
                (omega (arith, length-append (live_one c) (live_ones cs))),
        n
            ∙ ap (λ cs'. cs' ++ live_ones cs) m
            ∙ append_assoc s.manager.containers (live_one c) (live_ones cs),
      )

  -- The lines of the file.
  state_lines-round :
      (cs : List ContainerInfo) (s : Sys K)
      → All IsStored cs
      → All (HasProcess K) cs
      → (s' : Sys K) × (each (load_line K) (state_lines cs) (fresh_loader 0, s)
          ≡ (fresh_loader (length (live_ones cs)), s'))
        × (s'.manager.containers ≡ s.manager.containers ++ live_ones cs)
  unfolding state_lines
  state_lines-round cs s hs alive =
      let (s', e, m) = table_lines-round cs (text "  ]\n" ∷ text "}\n" ∷ []) 0 s hs alive in
      let count = ap (λ n. (fresh_loader n, s')) (omega arith) in
      (s', first_lines K _ s ∙ e ∙ last_lines K _ s' ∙ count, m)

  module _ (there : (w : K.World) → K.stat (text "/var/run/mini-container") w ≡ true)
      (kept : (t : Text) (w : K.World)
        → (K.read_text state_file_path (K.write_text state_file_path t w).1).0 ≡ some t) where
    path_there : (w : K.World) → get_state_file_path K w ≡ (state_file_path, w)
    unfolding get_state_file_path
    path_there w = rw (get_state_file_path, there w) refl

    save_state-writes :
        (s : Sys K)
        → (save_state K s).world
          ≡ (K.write_text state_file_path (state_text s.manager.containers) s.world).1
    unfolding save_state
    save_state-writes s = rw (save_state, path_there s.world) refl

    load_state-lines :
        (s : Sys K) (file : Text)
        → (K.read_text state_file_path s.world).0 ≡ some file
        → load_state K s ≡ (
            let opened = record s { world = (K.read_text state_file_path s.world).1 } in
            let (l, s') =
              each (load_line K) (fgets_lines 1022 1022 [] file) (fresh_loader 0, opened) in
            (l.loaded, s'))
    unfolding load_state
    load_state-lines s file e = rw (load_state, path_there s.world, e, path_there s.world) refl

    -- Where memory is given, the directory of the state file is there and a file that is written
    -- holds what was written: let every container of a table have a positive `int` as its
    -- identifier, a named state, a process identifier that is an `int` and times that a `long`
    -- holds, none of them negative, and let the processes of the RUNNING ones be there. When the
    -- table is saved and loaded into an empty one, the new table holds the CREATED and the RUNNING
    -- containers, in order and with every field, but without their configurations, and the result
    -- counts them.
    pub load_state-save_state :
        (s : Sys K) (m : ContainerManager)
        → All IsStored s.manager.containers
        → All (HasProcess K) s.manager.containers
        → m.containers ≡ []
        → let r = load_state K (record { manager = m; world = (save_state K s).world }) in
          (r.0 ≡ length (live_ones s.manager.containers))
          × (r.1.manager.containers ≡ live_ones s.manager.containers)
    load_state-save_state s m hs alive empty =
        let cs = s.manager.containers in
        let saved = (K.write_text state_file_path (state_text cs) s.world).1 in
        let opened = (K.read_text state_file_path saved).1 in
        let (s', e, added) =
          state_lines-round cs (record { manager = m; world = opened }) hs alive in
        let read =
          load_state-lines (record { manager = m; world = saved }) (state_text cs)
            (kept (state_text cs) s.world) in
        rw (save_state-writes s, read, fgets_lines-state_text cs hs, e)
          (refl, added ∙ ap (λ old. old ++ live_ones cs) empty)
