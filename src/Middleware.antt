-- ===== src/Middleware.antt =====
-- internal/middleware
pub mod Auth
pub mod Cors
mod Tests
