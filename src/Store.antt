-- ===== src/Store.antt =====
-- The collections of the database (packages/database/src/schemas) and the transactions over them.
mod Model
mod Monad
pub mod Rules
pub use Model.*
pub use Monad.*
