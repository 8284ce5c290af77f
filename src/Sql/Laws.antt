-- ===== src/Sql/Laws.antt =====
-- Laws of the statements.
mod Count
mod Pick
mod Rows
mod OnFile
pub use Count.*
pub use Pick.*
pub use Rows.*
pub use OnFile.*
