-- ===== src/Examples.antt =====
-- Concrete rows, and the theorems at them.
mod Data
mod Reports
mod Plans
mod Runs
mod Files
mod Callbacks
mod Jobs
