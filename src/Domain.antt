-- ===== src/Domain.antt =====
-- The data model of backend/app/models: the enumerations and the rows of the tables.
mod Enums
mod Values
mod Entities
mod Messages
pub use Enums.*
pub use Values.*
pub use Entities.*
pub use Messages.*
