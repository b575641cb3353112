-- ===== src/Agents.antt =====
-- The backend's side of the agents: jobs that are published, callbacks of the workers, and what the
-- stand-ins of the workers write.
pub mod Auth
pub mod Results
pub mod Queue
pub mod Life
pub mod Stub
pub mod Analyzer
