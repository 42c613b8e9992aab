-- ===== src/Command.antt =====
-- The program of src/main.cpp.
pub mod Words
pub mod Options
pub mod Listing
pub mod Handlers
pub mod Shutdown
pub mod Monitor
pub mod Figures
pub mod Form
pub mod Menu
pub mod Dispatch
pub mod Workloads
pub mod Trials
