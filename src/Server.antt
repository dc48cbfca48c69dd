-- ===== src/Server.antt =====
-- cmd/server/app.go: how the server is put together, started and stopped.
pub mod Startup
pub mod Running
pub mod Lifecycle
mod Tests
