-- ===== src/Web.antt =====
-- The web server of src/web_server_simple.cpp, and the port of src/web_server_main.cpp.
pub mod Request
pub mod Quota
pub mod Containers
pub mod System
pub mod Server
