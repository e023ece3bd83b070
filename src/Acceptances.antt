-- ===== src/Acceptances.antt =====
-- internal/acceptances
pub mod Model
pub mod Repository
pub mod Storage
pub mod Pdf
pub mod Path
pub mod Service
pub mod Handler
mod Tests
