-- ===== src/Config.antt =====
-- The configuration and state types of include/*.hpp. A `char *` that may be null is an option.
use mini_container.Prelude.{ℕ, Bool, true, false, List, Option, ℤ}
use mini_container.Text.{Text}

pub record CpuLimits : Type 0 where
  pub shares : ℤ
  pub quota_us : ℤ
  pub period_us : ℤ

pub record MemoryLimits : Type 0 where
  pub limit_bytes : ℕ
  pub swap_limit_bytes : ℕ

pub record ResourceLimits : Type 0 where
  pub cpu : CpuLimits
  pub memory : MemoryLimits
  pub enabled : ℤ

pub data CgroupVersion : Type 0 where
  cgroup_v1 cgroup_v2 : CgroupVersion

pub record ResourceManager : Type 0 where
  pub cgroup_path : Text
  pub initialized : Bool
  pub version : CgroupVersion

pub data FsIsolationMethod : Type 0 where
  fs_chroot : FsIsolationMethod

pub record FsConfig : Type 0 where
  pub root_path : Option Text
  pub method : FsIsolationMethod
  pub create_minimal_fs : Bool

pub record NamespaceConfig : Type 0 where
  -- the bits of the `int`
  pub flags : ℕ

-- `command` is the array, its entries null or not.
pub record ContainerConfig : Type 0 where
  pub id : Option Text
  pub root_path : Option Text
  pub ns_config : NamespaceConfig
  pub res_limits : ResourceLimits
  pub fs_config : FsConfig
  pub command : Option (List (Option Text))
  pub command_argc : ℤ

-- `unnamed` stands for the numbers outside the enumeration, which `load_state` can produce.
pub data ContainerState : Type 0 where
  created running stopped destroyed : ContainerState
  unnamed : ℤ → ContainerState

abbrev pub is_running : ContainerState → Bool
is_running s = elim s [ running ↦ true | _ ↦ false ]

abbrev pub is_created : ContainerState → Bool
is_created s = elim s [ created ↦ true | _ ↦ false ]

abbrev pub is_stopped : ContainerState → Bool
is_stopped s = elim s [ stopped ↦ true | _ ↦ false ]

abbrev pub is_destroyed : ContainerState → Bool
is_destroyed s = elim s [ destroyed ↦ true | _ ↦ false ]

pub record ContainerInfo : Type 0 where
  pub id : Text
  pub pid : ℤ
  pub state : ContainerState
  pub created_at : ℤ
  pub started_at : ℤ
  pub stopped_at : ℤ
  pub saved_config : Option ContainerConfig

-- `containers` holds the first `container_count` entries of the array.
pub record ContainerManager : Type 0 where
  pub rm : ResourceManager
  pub containers : List ContainerInfo
  pub max_containers : ℕ
