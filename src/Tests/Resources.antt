-- ===== src/Tests/Resources.antt =====
-- The limits and the counters at concrete inputs.
use mini_container.Prelude.{ℕ, ◌≡◌, refl, ◌↔◌, ◌∷◌, [], true, some, pos, arith, ◌||◌, if◌then◌else◌}
use mini_container.Text.{Text}
use mini_container.Config.{CpuLimits, ResourceLimits, ResourceManager, cgroup_v1, cgroup_v2}
use mini_container.Resource.Paths.{
  cgroup_root, cpu_cgroup_path, cpu_cpuacct_cgroup_path, cpuacct_cgroup_path, memory_cgroup_path,
}
use mini_container.Resource.Limits.{period_of, quota_of}
use mini_container.Resource.Quotas.{quota_of_lem, quota_of_overflow}
use mini_container.Resource.Cgroups.{resource_manager_create_cgroup}
use mini_container.Resource.Cgroups.Creation.{made, after, create_cgroup_v1, create_cgroup_v2}
use mini_container.Tests.Machine.{machine}

abbrev shares_of : ℕ → CpuLimits
shares_of n = record { shares = pos n; quota_us = pos 0; period_us = pos 0 }

period_default : (n : ℕ) → period_of (shares_of n) ≡ pos 100000
unfolding period_of
period_default n = refl

quota_of_lem_example : quota_of (shares_of 1024) ≡ pos 100000
quota_of_lem_example =
    quota_of_lem (shares_of 1024) 1024 100000 refl (period_default 1024) refl (omega arith)
      (omega arith)

quota_of_overflow_example : quota_of (shares_of 22000) ≡ pos 1000
quota_of_overflow_example =
    quota_of_overflow (shares_of 22000) 22000 100000 refl (period_default 22000) refl (omega arith)
      (omega arith)

abbrev old : ResourceManager
old = record { cgroup_path = b'm' ∷ []; initialized = true; version = cgroup_v1 }

abbrev new : ResourceManager
new = record { cgroup_path = b'm' ∷ []; initialized = true; version = cgroup_v2 }

abbrev swap_only : ResourceLimits
swap_only = record {
  cpu = shares_of 0;
  memory = record { limit_bytes = 0; swap_limit_bytes = 4096 };
  enabled = pos 1;
}

abbrev one : Text
one = b'1' ∷ []

create_cgroup_v2_example :
    ((resource_manager_create_cgroup machine new one swap_only 5).0 ≡ some tt)
    ↔ ((new.initialized ≡ true) × (made machine new one cgroup_root 5 ≡ true))
create_cgroup_v2_example = create_cgroup_v2 machine new one swap_only 5 refl

create_cgroup_v1_example :
    ((resource_manager_create_cgroup machine old one swap_only 5).0 ≡ some tt) ↔ (
      ((made machine old one cpu_cpuacct_cgroup_path 5
          || made machine old one cpu_cgroup_path (after machine old one cpu_cpuacct_cgroup_path 5))
        ≡ true)
      × (made machine old one memory_cgroup_path (
            if made machine old one cpu_cpuacct_cgroup_path 5
            then after machine old one cpu_cpuacct_cgroup_path 5
            else after machine old one cpuacct_cgroup_path (
                after machine old one cpu_cgroup_path
                  (after machine old one cpu_cpuacct_cgroup_path 5)))
          ≡ true))
create_cgroup_v1_example = create_cgroup_v1 machine old one swap_only 5 refl refl
