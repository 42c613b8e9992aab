-- ===== src/Manager/StateFile.antt =====
-- The state file of src/container_manager.cpp: `save_state`, `load_state`.
pub mod Keeping
pub mod Rounds
pub mod Live
pub mod Repeats
pub mod RoundTrip
use mini_container.Prelude.{
  ℕ, ◌+◌, Bool, not, ◌&&◌, List, [], none, some, Exec, lift, guard, succeeds, ◌>>=◌, ◌>>◌,
  if◌then◌else◌, eqℤ, is_negative,
}
use mini_container.Text.{Text, text, contains, is_empty, fgets_lines}
use mini_container.Kernel.{Kernel, is_returned}
use mini_container.Config.{ContainerInfo, ContainerState, running, stopped, destroyed}
use mini_container.Process.{each, is_pid_alive}
use mini_container.Manager.Table.{
  extract_numeric_id, next_id, add_container, Sys, on_world, containers_of,
}
use mini_container.Manager.StateText.{
  state_number, state_of_number, state_text, Loader, fresh_loader, skip_blank, is_skipped,
  read_fields,
}

abbrev pub state_file_path : Text
state_file_path = text "/var/run/mini-container/state.json"

abbrev pub state_file_path_fallback : Text
state_file_path_fallback = text "/tmp/mini-container-state.json"

-- The identifier of a loaded container: its own if that is a number, else the next free number.
unfoldable pub loaded_id : List ContainerInfo → Text → Text
loaded_id cs id = if is_negative (extract_numeric_id id) then next_id cs else id

abbrev pub loaded_info : List ContainerInfo → Loader → ContainerInfo
loaded_info cs l = record {
  id = loaded_id cs l.container_id;
  pid = l.pid;
  state = state_of_number l.state;
  created_at = l.created_at;
  started_at = l.started_at;
  stopped_at = l.stopped_at;
  saved_config = none;
}

module _ (K : Kernel) where
  unfoldable pub get_state_file_path : K.World → Text × K.World
  get_state_file_path w =
      let dir = text "/var/run/mini-container" in
      let (made, w') = K.mkdir dir w in
      if K.stat dir w
      then (state_file_path, w)
      else if is_returned made
      then (state_file_path, w')
      else (state_file_path_fallback, w')

  -- A file that cannot be opened is left alone.
  unfoldable pub save_state : Sys K → Sys K
  unfolding get_state_file_path state_text
  save_state s =
      let (path, w) = get_state_file_path s.world in
      record s { world = (K.write_text path (state_text (containers_of K s)) w).1 }

  abbrev state_is : ContainerState → Loader → Bool
  state_is state l = eqℤ l.state (state_number state)

  -- A running container whose process is gone has stopped now.
  unfoldable pub check_alive : Loader → K.World → Loader × K.World
  check_alive l w =
      let (alive, w') = is_pid_alive K l.pid w in
      let (now, w'') = K.time w' in
      if state_is running l
      then (if alive
          then (l, w')
          else (record l { state = state_number stopped; stopped_at = now }, w''))
      else (l, w)

  -- calloc, strdup and `add_container`; the result counts what was loaded.
  unfoldable pub add_loaded : Loader → Exec (Sys K) (Unit {0})
  add_loaded l s =
      (do
        allocated ← on_world K (lift K.alloc)
        guard allocated
        copied ← on_world K (lift K.alloc)
        add_container K (loaded_info (containers_of K s) l))
        s

  -- The container that ends on this line, if it has an identifier. Else nothing is reset.
  unfoldable pub finish_container : Loader × Sys K → Loader × Sys K
  unfolding check_alive add_loaded
  finish_container (l, s) =
      let (l', w) = check_alive l s.world in
      let s' = record s { world = w } in
      let (added, s'') = succeeds (add_loaded l') s' in
      if is_empty l.container_id
      then (l, s)
      else if not (state_is destroyed l') && not (state_is stopped l')
      then (fresh_loader (if added then l.loaded + 1 else l.loaded), s'')
      else (fresh_loader l.loaded, s')

  unfoldable pub load_line : Text → Loader × Sys K → Loader × Sys K
  load_line line (l, s) =
      let p = skip_blank line in
      let l' = read_fields p l in
      if is_skipped p
      then (l, s)
      else if l'.in_container && contains p (text "}")
      then finish_container (l', s)
      else (l', s)

  -- The number of containers loaded, and the system with them.
  unfoldable pub load_state : Sys K → ℕ × Sys K
  load_state s =
      let (path, w) = get_state_file_path s.world in
      let (contents, w') = K.read_text path w in
      let s' = record s { world = w' } in
      elim contents [
        | none ↦ (0, s')
        | some file ↦
            let (l, s'') = each load_line (fgets_lines 1022 1022 [] file) (fresh_loader 0, s') in
            (l.loaded, s'')
      ]
