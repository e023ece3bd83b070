-- ===== src/Organizations.antt =====
-- internal/organizations
pub mod Slug
pub mod Model
pub mod Repository
pub mod Handler
mod Tests
