-- ===== src/Resource/Stats.antt =====
-- `resource_manager_get_stats` of src/resource_manager.cpp, for a caller that asks for both values.
pub mod Counts
use mini_container.Prelude.{
  ℕ, ◌*◌, ◌%◌, ◌^◌, ◌++◌, Bool, true, false, not, ◌&&◌, ◌||◌, List, [], ◌∷◌, Option, none, some,
  Exec, if◌then◌else◌, ◌==◌,
}
use mini_container.Text.{Text, text, text_eq, is_empty, starts_with, strtoul}
use mini_container.Kernel.{Kernel, r_ok}
use mini_container.Config.{ResourceManager, CgroupVersion, cgroup_v1, cgroup_v2}
use mini_container.Resource.Paths.{
  buf_size, cgroup_root, cpu_cgroup_path, cpuacct_cgroup_path, cpu_cpuacct_cgroup_path,
  memory_cgroup_path, group_file,
}
use mini_container.Resource.Files.{read_file}

-- strstr(s, t): the rest of `s` from the first place where `t` stands.
unfoldable pub strstr : Text → Text → Option Text
strstr [] t = if starts_with [] t then some [] else none
strstr (c ∷ s) t = if starts_with (c ∷ s) t then some (c ∷ s) else strstr s t

abbrev is_blank : ℕ → Bool
is_blank c = c == 32 || c == 9

skip_word : Text → Text
skip_word [] = []
skip_word (c ∷ s) = if is_blank c then c ∷ s else skip_word s

skip_blanks : Text → Text
skip_blanks [] = []
skip_blanks (c ∷ s) = if is_blank c then skip_blanks s else c ∷ s

-- The number behind `usage_usec`, in nanoseconds as an `unsigned long`; 0 where none can be read.
unfoldable pub cpu_stat_usage : Text → ℕ
unfolding strstr skip_word skip_blanks
cpu_stat_usage buffer = elim (strstr buffer (text "usage_usec")) [
  | none ↦ 0
  | some usage_line ↦
      let value_start = skip_blanks (skip_word usage_line) in
      let (value, rest) = strtoul value_start in
      if not (is_empty value_start) && not (text_eq rest value_start)
      then value * 1000 % 2 ^ 64
      else 0
]

abbrev ends_number : Text → Bool
ends_number [] = true
ends_number (c ∷ s) = c == 10 || c == 32

-- A number at the start of a file, if a newline, a space or nothing follows; 0 otherwise.
unfoldable pub plain_count : Text → ℕ
plain_count buffer =
    let (value, rest) = strtoul buffer in
    if not (text_eq rest buffer) && ends_number rest then value else 0

-- The code 0 or -1, and what the two pointers are given.
pub record Stats : Type 0 where
  pub succeeded : Bool
  pub cpu_usage : ℕ
  pub memory_usage : ℕ

module _ (K : Kernel) (rm : ResourceManager) (container_id : Text) where
  open K use {World}

  -- The first of the three files that can be read.
  unfoldable pub find_cpuacct_usage_path : World → Option Text
  find_cpuacct_usage_path w =
      let joint = group_file cpu_cpuacct_cgroup_path rm container_id (text "/cpuacct.usage") in
      let cpuacct = group_file cpuacct_cgroup_path rm container_id (text "/cpuacct.usage") in
      let cpu = group_file cpu_cgroup_path rm container_id (text "/cpuacct.usage") in
      if K.access r_ok joint w
      then some joint
      else if K.access r_ok cpuacct w
      then some cpuacct
      else if K.access r_ok cpu w
      then some cpu
      else none

  -- A file read through `count`; 0 if it cannot be read.
  read_through : (Text → ℕ) → Text → World → ℕ × World
  read_through count path w =
      let (contents, w') = read_file K path buf_size w in
      (elim contents [ none ↦ 0 | some buffer ↦ count buffer ], w')

  read_found : Option Text → World → ℕ × World
  unfolding read_through
  read_found none w = (0, w)
  read_found (some path) w = read_through plain_count path w

  -- Under v2 `cgroup.procs` is read first, for the log alone.
  unfoldable pub stats_at : CgroupVersion → World → Stats × World
  unfolding read_found
  stats_at cgroup_v2 w =
      let (logged, w1) =
        read_through (λ s. 0) (group_file cgroup_root rm container_id (text "/cgroup.procs")) w in
      let (cpu, w2) =
        read_through cpu_stat_usage (group_file cgroup_root rm container_id (text "/cpu.stat"))
          w1 in
      let (memory, w3) =
        read_through plain_count (group_file cgroup_root rm container_id (text "/memory.current"))
          w2 in
      (record { succeeded = true; cpu_usage = cpu; memory_usage = memory }, w3)
  stats_at cgroup_v1 w =
      let (cpu, w1) = read_found (find_cpuacct_usage_path w) w in
      let (memory, w2) =
        read_through plain_count
          (group_file memory_cgroup_path rm container_id (text "/memory.usage_in_bytes")) w1 in
      (record { succeeded = true; cpu_usage = cpu; memory_usage = memory }, w2)

  unfoldable pub resource_manager_get_stats : World → Stats × World
  unfolding stats_at
  resource_manager_get_stats w =
      if rm.initialized
      then stats_at rm.version w
      else (record { succeeded = false; cpu_usage = 0; memory_usage = 0 }, w)
