-- ===== src/Resource.antt =====
-- src/resource_manager.cpp: the control groups of the containers.
pub mod Paths
pub mod Files
pub mod Limits
pub mod Cgroups
pub mod Quotas
pub mod Stats
unfoldable pub use Paths.*
unfoldable pub use Files.*
unfoldable pub use Limits.*
unfoldable pub use Cgroups.*
