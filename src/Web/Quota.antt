-- ===== src/Web/Quota.antt =====
-- The limits of a container as `SimpleWebServer::getContainerListJSON` reads them from the control
-- group's files.
pub mod Written
use mini_container.Prelude.{
  ℕ, ◌*◌, ◌^◌, Bool, true, false, ◌||◌, [], ◌∷◌, ◌++◌, Option, none, some, ltb, ◌==◌, if◌then◌else◌,
  take, length,
}
use mini_container.Text.{
  Text, text, text_eq, snprintf, skip_space, scan_digits, starts_digit, sign, clamp_ulong, strtoul,
}
use mini_container.Kernel.{Kernel, f_ok}
use mini_container.Config.{ResourceManager, CgroupVersion, cgroup_v1, cgroup_v2}
use mini_container.Resource.Paths.{
  cgroup_root, cpu_cgroup_path, cpu_cpuacct_cgroup_path, memory_cgroup_path, group_name, group_dir,
}

-- `std::stoul`: none where it throws, for want of a digit or out of range.
unfoldable pub stoul : Text → Option ℕ
unfolding skip_space scan_digits
stoul s =
    let (neg, t) = sign (skip_space s) in
    let (n, rest) = scan_digits 0 t in
    if starts_digit t then (if ltb n (2 ^ 64) then some (clamp_ulong neg n) else none) else none

-- `std::getline`: up to the newline.
unfoldable pub first_line : Text → Text
first_line [] = []
first_line (c ∷ s) = if c == 10 then [] else c ∷ first_line s

-- What stands before and behind the first blank.
unfoldable pub split_blank : Text → Option (Text × Text)
split_blank [] = none
split_blank (c ∷ s) =
    let rest = split_blank s in
    if c == 32
    then some ([], s)
    else elim rest [ none ↦ none | some (before, behind) ↦ some (c ∷ before, behind) ]

abbrev no_quota : ℕ × ℕ
no_quota = (0, 100000)

abbrev both : Option ℕ → Option ℕ → Option (ℕ × ℕ)
both none p = none
both (some q) none = none
both (some q) (some p) = some (q, p)

-- Quota and period of the line of `cpu.max`; none where `std::stoul` throws.
unfoldable pub quota_of_line : Text → Option (ℕ × ℕ)
unfolding split_blank stoul
quota_of_line line = if text_eq line (text "max") then some no_quota else elim (split_blank line) [
  | none ↦ some no_quota
  | some (quota, period) ↦ both (stoul quota) (stoul period)
]

-- The value of a line that is a number up to its end or a blank, and else 0.
abbrev ends_value : Text → Bool
ends_value [] = true
ends_value (c ∷ s) = c == 10 || c == 32

unfoldable pub limit_of_line : Text → ℕ
unfolding strtoul
limit_of_line line =
    let (value, rest) = strtoul line in
    if text_eq line (text "max") then 0 else if ends_value rest then value else 0

-- What a container's files limit.
pub record Limits : Type 0 where
  pub cpu_quota_us : ℕ
  pub cpu_period_us : ℕ
  pub memory_limit : ℕ

module _ (K : Kernel) (rm : ResourceManager) (id : Text) where
  open K use {World}

  unfoldable pub read_cgroup_limit : Text → World → ℕ × World
  unfolding limit_of_line first_line
  read_cgroup_limit path w =
      let (contents, w') = K.read_text path w in
      (elim contents [ none ↦ 0 | some file ↦ limit_of_line (take 255 (first_line file)) ], w')

  -- A file below the group of the CPU, unless the buffer cuts its path.
  below : Text → Text → World → ℕ × World
  unfolding read_cgroup_limit
  below dir file w =
      let path = dir ++ file in
      let (value, w') = read_cgroup_limit path w in
      if ltb (length path) 1024 then (value, w') else (0, w)

  limits_v1 : World → Limits × World
  unfolding below read_cgroup_limit
  limits_v1 w =
      let joint = group_dir cpu_cpuacct_cgroup_path rm id in
      let dir = if K.access f_ok joint w then joint else group_dir cpu_cgroup_path rm id in
      let (quota, w1) = below dir (text "/cpu.cfs_quota_us") w in
      let (period, w2) = below dir (text "/cpu.cfs_period_us") w1 in
      let path =
        snprintf 1024 (group_name memory_cgroup_path rm id (text "/memory.limit_in_bytes")) in
      let (memory, w3) = read_cgroup_limit path w2 in
      (
        record {
          cpu_quota_us = quota;
          cpu_period_us = if ltb 0 period then period else 100000;
          memory_limit = memory;
        },
        w3,
      )

  quota_of_file : Option Text → Option (ℕ × ℕ)
  unfolding quota_of_line first_line
  quota_of_file none = some no_quota
  quota_of_file (some file) = quota_of_line (first_line file)

  -- Nothing where `std::stoul` throws.
  limits_v2 : World → Option Limits × World
  unfolding quota_of_file read_cgroup_limit
  limits_v2 w =
      let (contents, w1) =
        K.read_text (snprintf 1024 (group_name cgroup_root rm id (text "/cpu.max"))) w in
      let path = snprintf 1024 (group_name cgroup_root rm id (text "/memory.max")) in
      let (memory, w2) = read_cgroup_limit path w1 in
      elim (quota_of_file contents) [
        | none ↦ (none, w1)
        | some (quota, period) ↦ (
          some (record { cpu_quota_us = quota; cpu_period_us = period; memory_limit = memory }),
          w2,
        )
      ]

  limits_at : CgroupVersion → World → Option Limits × World
  unfolding limits_v1 limits_v2
  limits_at cgroup_v2 w = limits_v2 w
  limits_at cgroup_v1 w = let (limits, w') = limits_v1 w in (some limits, w')

  unfoldable pub read_limits : World → Option Limits × World
  unfolding limits_at
  read_limits w = limits_at rm.version w
