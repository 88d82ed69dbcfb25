-- ===== src/Simulation.antt =====
-- trading/schedule.py, trading/runtime.py and trading/reporting.py: what drives the kernel over the
-- sessions of a clock and stores its results.
pub mod Schedule
pub mod Service
pub mod Feedback
pub mod Static
mod Tests
