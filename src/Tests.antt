-- ===== src/Tests.antt =====
-- The theorems at concrete inputs, and runs of the code.
mod Machine
mod Tables
mod Store
mod Blocks
mod Files
mod Resources
mod Calls
mod Pipe
mod Initial
mod Commands
mod Web
