-- ===== src/Manager/Table.antt =====
-- The table of containers of src/container_manager.cpp: identifiers, lookup, insertion, removal.
pub mod Ids
pub mod Lookup
pub mod Updates
use mini_container.Prelude.{
  ℕ, zero, suc, ◌+◌, ◌*◌, ◌&&◌, List, [], ◌∷◌, ◌++◌, Option, none, some, Exec, pure, guard, when,
  lift, ◌>>=◌, ◌>>◌, if◌then◌else◌, leb, length, modify, ℤ, pos, negsuc, eqℤ, ltℤ, is_positive,
  int_of_long, minus_one,
}
use mini_container.Text.{Text, text_eq, snprintf, strtol, decimal, is_empty}
use mini_container.Kernel.{Kernel}
use mini_container.Config.{ContainerInfo, ContainerManager}

-- The manager that the calls share, and the system that it runs on.
pub record System (W : Type 0) : Type 0 where
  pub manager : ContainerManager
  pub world : W

abbrev pub default_max_containers : ℕ
default_max_containers = 10

-- The whole text as a positive number, or -1. A `long` that is no `int` is cut to its low bits.
unfoldable pub extract_numeric_id : Text → ℤ
extract_numeric_id id =
    let (num, rest) = strtol id in
    if is_empty rest && is_positive num then int_of_long num else minus_one

-- The loop over the table, from the greatest number so far.
unfoldable pub max_numeric_id : ℤ → List ContainerInfo → ℤ
max_numeric_id max_id [] = max_id
max_numeric_id max_id (c ∷ cs) =
    let num_id = extract_numeric_id c.id in
    max_numeric_id (if ltℤ max_id num_id then num_id else max_id) cs

-- max_id + 1, as an `int`
abbrev pub add_one_int : ℤ → ℤ
add_one_int (pos n) = int_of_long (pos (n + 1))
add_one_int (negsuc zero) = pos 0
add_one_int (negsuc (suc n)) = negsuc n

unfoldable pub next_id : List ContainerInfo → Text
next_id cs = snprintf 64 (decimal (add_one_int (max_numeric_id (pos 0) cs)))

-- A pointer into the table: the position, with what stands there.
abbrev pub Found : Type 0
Found = Option (ℕ × ContainerInfo)

abbrev pub shift : Found → Found
shift none = none
shift (some (i, c)) = some (suc i, c)

unfoldable pub find_container : List ContainerInfo → Text → Found
find_container [] id = none
find_container (c ∷ cs) id = if text_eq c.id id then some (0, c) else shift (find_container cs id)

unfoldable pub find_container_by_pid : List ContainerInfo → ℤ → Found
find_container_by_pid [] pid = none
find_container_by_pid (c ∷ cs) pid =
    if eqℤ c.pid pid then some (0, c) else shift (find_container_by_pid cs pid)

abbrev or_else : Found → Found → Found
or_else none other = other
or_else (some r) other = some r

-- By its identifier, or else by its process identifier.
unfoldable pub container_manager_get_info : List ContainerInfo → Text → Found
container_manager_get_info cs id =
    let (pid_num, rest) = strtol id in
    or_else (find_container cs id) (
      if is_empty rest && is_positive pid_num
      then find_container_by_pid cs (int_of_long pid_num)
      else none)

-- The loop of `remove_container`: the first entry with the identifier goes, those behind it move
-- up.
unfoldable pub remove_first : List ContainerInfo → Text → List ContainerInfo
remove_first [] id = []
remove_first (c ∷ cs) id = if text_eq c.id id then cs else c ∷ remove_first cs id

module _ (K : Kernel) where
  abbrev pub Sys : Type 0
  Sys = System K.World

  -- A call on the system that leaves the manager alone.
  abbrev pub on_world : {A : Type 0} → Exec K.World A → Exec Sys A
  on_world m s = let (r, w) = m s.world in (r, record s { world = w })

  abbrev pub lift_world : {A : Type 0} → (K.World → A × K.World) → Exec Sys A
  lift_world f = on_world (lift f)

  abbrev pub containers_of : Sys → List ContainerInfo
  containers_of s = s.manager.containers

  abbrev pub with_containers : (List ContainerInfo → List ContainerInfo) → Sys → Sys
  with_containers f s = record s {
    manager = record s.manager { containers = f s.manager.containers };
  }

  unfoldable pub generate_container_id : Exec Sys Text
  generate_container_id s =
      (do allocated ← lift_world K.alloc; guard allocated; pure (next_id (containers_of s))) s

  -- realloc to twice the size
  grow : Exec Sys (Unit {0})
  grow = do
    allocated ← lift_world K.alloc
    guard allocated
    lift λ s. (
      tt,
      record s { manager = record s.manager { max_containers = s.manager.max_containers * 2 } },
    )

  unfoldable pub add_container : ContainerInfo → Exec Sys (Unit {0})
  unfolding grow
  add_container info s =
      (do
        when (leb s.manager.max_containers (length (containers_of s))) grow
        lift λ s. (tt, with_containers (λ cs. cs ++ (info ∷ [])) s))
        s

  unfoldable pub remove_container : Text → Sys → Sys
  unfolding remove_first
  remove_container id = with_containers λ cs. remove_first cs id

  -- A write through a pointer into the table.
  abbrev pub update_at : ℕ → (ContainerInfo → ContainerInfo) → Sys → Sys
  update_at i f = with_containers λ cs. modify f cs i
