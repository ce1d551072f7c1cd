-- ===== src/Db.antt =====
-- The rows of the tables that the case workflow reads and writes (src/vulnops/cases/models.py,
-- src/vulnops/db/models, src/vulnops/assets/models.py, src/vulnops/services/models.py).
pub mod Classes
mod Values
mod Rows
pub use Values.*
pub use Rows.*
