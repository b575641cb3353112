-- ===== src/HealthScore.antt =====
-- backend/app/services/health_score.py: the score of a project, from five weighted components.
mod Arithmetic
mod Queries
mod Components
mod Score
pub mod Bounds
pub mod Frame
pub use Arithmetic.{Floats, decimal}
unfoldable pub use Arithmetic.{clamp}
unfoldable pub use Queries.*
unfoldable pub use Components.*
unfoldable pub use Score.*
