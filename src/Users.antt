-- ===== src/Users.antt =====
-- internal/users
pub mod Model
pub mod Repository
pub mod Context
pub mod Body
pub mod Handler
mod Tests
