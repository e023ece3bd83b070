-- ===== src/Server.antt =====
-- internal/server/server.go
pub mod Invariant
pub mod Routes
pub mod Entry
pub mod Lifetime
mod Tests
