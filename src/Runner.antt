-- ===== src/Runner.antt =====
-- The agent runner, jump_agent_runner/jump_agent_runner: it hands a task to an engine by one of
-- two routes, and to another engine where that fails.
pub mod Types
pub mod World
pub mod Extract
pub mod Validator
pub mod Provider
pub mod Failover
