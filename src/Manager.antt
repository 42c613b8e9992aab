-- ===== src/Manager.antt =====
-- src/container_manager.cpp: the table of containers and the operations on it.
pub mod Table
pub mod Copying
pub mod StateText
pub mod StateFile
pub mod Lifecycle
pub mod Runs
pub mod Validity
pub mod Spec
pub mod History
pub mod Removal
pub mod Steps
pub mod Reload
pub mod Restart
