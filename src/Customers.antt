-- ===== src/Customers.antt =====
-- internal/customers
pub mod Model
pub mod Repository
mod Tests
