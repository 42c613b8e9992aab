-- ===== src/Resource/Limits.antt =====
-- `set_cpu_limits`, `set_memory_limits` and `resource_limits_init` of src/resource_manager.cpp.
-- An `int` product that overflows is undefined in C++; the model wraps it, as compiled code does.
use mini_container.Prelude.{
  ℕ, suc, ◌*◌, ◌/◌, ◌-◌, ◌++◌, not, ◌&&◌, Exec, guard, when, ◌>>◌, ltb, if◌then◌else◌, ℤ, pos,
  negsuc, is_positive, ltℤ, to_ℕ, int_of_long, length,
}
use mini_container.Text.{Text, text, snprintf, decimal}
use mini_container.Kernel.{Kernel, f_ok}
use mini_container.Config.{
  CpuLimits, MemoryLimits, ResourceLimits, ResourceManager, CgroupVersion, cgroup_v1, cgroup_v2,
}
use mini_container.Resource.Paths.{
  buf_size, cgroup_root, cpu_cgroup_path, cpu_cpuacct_cgroup_path, memory_cgroup_path, group_file,
  group_dir,
}
use mini_container.Resource.Files.{write_file}

unfoldable pub resource_limits_init : ResourceLimits
resource_limits_init = record {
  cpu = record { shares = pos 1024; quota_us = negsuc 0; period_us = pos 100000 };
  memory = record { limit_bytes = 128 * 1024 * 1024; swap_limit_bytes = 0 };
  enabled = pos 1;
}

-- Division of an `int`, towards 0.
abbrev pub div_int : ℤ → ℕ → ℤ
div_int (pos a) n = pos (a / n)
div_int (negsuc a) n = let q = suc a / n in if ltb 0 q then negsuc (q - 1) else pos 0

unfoldable pub period_of : CpuLimits → ℤ
period_of l = if is_positive l.period_us then l.period_us else pos 100000

-- The quota that the shares amount to, at least 1000 microseconds.
unfoldable pub quota_of_shares : ℤ → ℤ → ℤ
quota_of_shares shares period =
    let quota = div_int (int_of_long (pos (to_ℕ shares * to_ℕ period))) 1024 in
    if ltℤ quota (pos 1000) then pos 1000 else quota

unfoldable pub quota_of : CpuLimits → ℤ
unfolding period_of quota_of_shares
quota_of l =
    if not (is_positive l.quota_us) && is_positive l.shares
    then quota_of_shares l.shares (period_of l)
    else l.quota_us

-- The line for `cpu.max`, in a buffer of 64 bytes.
abbrev pub quota_line : ℤ → ℤ → Text
quota_line quota period = snprintf 64 (decimal quota ++ (text " " ++ decimal period))

module _ (K : Kernel) (rm : ResourceManager) (container_id : Text) where
  open K use {World}

  -- A file below `dir`, unless the buffer cuts its path.
  abbrev write_below : Text → Text → ℤ → Exec World (Unit {0})
  write_below dir file value = do
    let path = dir ++ file
    guard (ltb (length path) buf_size)
    write_file K path (decimal value)

  unfoldable pub set_cpu_limits_v2 : ℤ → ℤ → Exec World (Unit {0})
  set_cpu_limits_v2 quota period =
      let path = group_file cgroup_root rm container_id (text "/cpu.max") in
      if is_positive quota
      then write_file K path (quota_line quota period)
      else write_file K path (text "max")

  unfoldable pub cpu_dir_v1 : World → Text
  cpu_dir_v1 w =
      let joint = group_dir cpu_cpuacct_cgroup_path rm container_id in
      if K.access f_ok joint w then joint else group_dir cpu_cgroup_path rm container_id

  unfoldable pub set_cpu_limits_v1 : ℤ → ℤ → ℤ → Exec World (Unit {0})
  unfolding cpu_dir_v1
  set_cpu_limits_v1 quota period shares w =
      let cpu_path = cpu_dir_v1 w in
      (do
        when (is_positive quota) do
          write_below cpu_path (text "/cpu.cfs_quota_us") quota
          write_below cpu_path (text "/cpu.cfs_period_us") period
        when (is_positive shares) (write_below cpu_path (text "/cpu.shares") shares))
        w

  cpu_limits_at : CgroupVersion → CpuLimits → Exec World (Unit {0})
  unfolding set_cpu_limits_v1 set_cpu_limits_v2
  cpu_limits_at cgroup_v2 limits = set_cpu_limits_v2 (quota_of limits) (period_of limits)
  cpu_limits_at cgroup_v1 limits =
      set_cpu_limits_v1 (quota_of limits) (period_of limits) limits.shares

  unfoldable pub set_cpu_limits : CpuLimits → Exec World (Unit {0})
  unfolding cpu_limits_at
  set_cpu_limits limits = cpu_limits_at rm.version limits

  memory_limits_at : CgroupVersion → MemoryLimits → Exec World (Unit {0})
  memory_limits_at cgroup_v2 limits = do
    write_file K (group_file cgroup_root rm container_id (text "/memory.max"))
        (if ltb 0 limits.limit_bytes then decimal (pos limits.limit_bytes) else text "max")
    when (ltb 0 limits.swap_limit_bytes) (
        write_file K (group_file cgroup_root rm container_id (text "/memory.swap.max"))
          (decimal (pos limits.swap_limit_bytes)))
  memory_limits_at cgroup_v1 limits = do
    when (ltb 0 limits.limit_bytes) (
        write_file K (group_file memory_cgroup_path rm container_id (text "/memory.limit_in_bytes"))
          (decimal (pos limits.limit_bytes)))
    when (ltb 0 limits.swap_limit_bytes) (
        write_file K
          (group_file memory_cgroup_path rm container_id (text "/memory.memsw.limit_in_bytes"))
          (decimal (pos limits.swap_limit_bytes)))

  unfoldable pub set_memory_limits : MemoryLimits → Exec World (Unit {0})
  unfolding memory_limits_at
  set_memory_limits limits = memory_limits_at rm.version limits
