-- ===== src/Baseline.antt =====
-- Baselines and scope changes: backend/app/api/v1/baselines.py and client_portal.py.
mod Deliverables
pub mod Transition
pub mod Diff
pub mod Frozen
unfoldable pub use Deliverables.*
