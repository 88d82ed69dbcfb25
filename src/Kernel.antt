-- ===== src/Kernel.antt =====
-- trading/kernel.py: the class `TradingKernel`.
pub mod Setup
pub mod Orders
pub mod Actions
pub mod Close
pub mod Session
pub mod Submission
pub mod Valid
pub mod Tests
