-- ===== src/Trading.antt =====
-- The package fundlab/trading.
pub mod Fees
pub mod Intent
pub mod State
pub mod Quantity
pub mod Pricing
pub mod Repository
pub mod Tests
