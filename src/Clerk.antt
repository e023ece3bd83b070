-- ===== src/Clerk.antt =====
-- internal/auth/clerk
pub mod Jwks
pub mod Verifier
pub mod Soundness
pub mod Numbers
pub mod Document
pub mod Keys
mod Tests
