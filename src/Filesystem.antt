-- ===== src/Filesystem.antt =====
-- src/filesystem_manager.cpp: the root directory of a container.
pub mod Roots
unfoldable pub use Roots.*
