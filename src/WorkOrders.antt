-- ===== src/WorkOrders.antt =====
-- internal/workorders
pub mod Model
pub mod Repository
pub mod Handler
mod Tests
