-- ===== src/Command/Monitor.antt =====
-- The monitors of src/main.cpp: which containers they show, in which order, and what they read.
-- The numbers that a row shows are in Figures.
pub mod Order
use mini_container.Prelude.{
  ℕ, ◌+◌, ◌-◌, ◌%◌, ◌^◌, Bool, true, false, not, ◌&&◌, ◌||◌, List, [], ◌∷◌, Option, none, some, ltb,
  length, take, ◌==◌, if◌then◌else◌, ℤ, pos, eqℤ, ltℤ, is_positive,
}
use mini_container.Kernel.{Kernel}
use mini_container.Config.{ContainerInfo, ContainerManager, is_running}
use mini_container.Process.{each}
use mini_container.Resource.Stats.{Stats, resource_manager_get_stats}
use mini_container.Manager.Table.{Sys, containers_of}
use mini_container.Command.Listing.{active_containers}

-- The order that `std::sort` is given: RUNNING first, then the one started last.
unfoldable pub shown_before : ContainerInfo → ContainerInfo → Bool
shown_before a b =
    if is_running a.state && not (is_running b.state)
    then true
    else if not (is_running a.state) && is_running b.state
    then false
    else ltℤ b.started_at a.started_at

unfoldable pub running_count : List ContainerInfo → ℕ
running_count [] = 0
running_count (c ∷ cs) = if is_running c.state then running_count cs + 1 else running_count cs

-- `std::sort` with the order above.
abbrev pub Sort : Type 0
Sort = (ContainerInfo → ContainerInfo → Bool) → List ContainerInfo → List ContainerInfo

-- What the compact monitor shows: the counts, the memory of all RUNNING containers, the rows, ten
-- at most, and how many more there are.
pub record Screen : Type 0 where
  pub running : ℕ
  pub total : ℕ
  pub memory : ℕ
  pub rows : List ContainerInfo
  pub more : ℕ

module _ (K : Kernel) where
  open K use {World}

  -- `calculate_cpu_percent` asks for the time unless the start is 0.
  abbrev pub cpu_percent_world : ℤ → World → World
  cpu_percent_world start w = if eqℤ start (pos 0) then w else (K.time w).1

  -- The memory of a RUNNING container, added to a sum.
  unfoldable pub add_memory : ContainerManager → ContainerInfo → ℕ × World → ℕ × World
  add_memory m info (sum, w) =
      let (stats, w') = resource_manager_get_stats K m.rm info.id w in
      if is_running info.state
      then (
        (sum + stats.memory_usage) % 2 ^ 64,
        if is_positive info.started_at then cpu_percent_world info.started_at w' else w',
      )
      else (sum, w)

  -- The statistics of a row.
  unfoldable pub read_row : ContainerManager → ContainerInfo → World → World
  read_row m info w =
      if is_running info.state
      then cpu_percent_world info.started_at (resource_manager_get_stats K m.rm info.id w).1
      else w

  unfoldable pub display_compact_monitor : Sort → Sys K → Screen × Sys K
  display_compact_monitor sort s =
      let active = active_containers (containers_of K s) in
      let (memory, w) = each (add_memory s.manager) active (0, s.world) in
      let sorted = sort shown_before active in
      let rows = take 10 sorted in
      (
        record {
          running = running_count active;
          total = length active;
          memory = memory;
          rows = rows;
          more = length sorted - 10;
        },
        record s { world = each (read_row s.manager) rows (K.time w).1 },
      )

  unfoldable pub monitor_screen : Sort → Sys K → Sys K
  monitor_screen sort s = record s {
    world =
        each (read_row s.manager) (sort shown_before (active_containers (containers_of K s)))
          (K.time s.world).1;
  }

  -- `display_monitor`, over the keys that are read after each screen, none where there is none; the
  -- list ends with the signal that ends the program.
  unfoldable pub display_monitor : Sort → List (Option ℕ) → Sys K → Sys K
  display_monitor sort [] s = s
  display_monitor sort (key ∷ keys) s =
      let t = monitor_screen sort s in
      let next = display_monitor sort keys (record t { world = K.usleep 5000000 t.world }) in
      elim key [ none ↦ next | some c ↦ if c == b'q' || c == b'Q' then t else next ]
