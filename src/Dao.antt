-- ===== src/Dao.antt =====
-- src/dao/mod.rs: the trait `Dao` and its implementations, which turn a struct into the clauses of
-- one SQL statement.
mod Types
mod Insert
mod Change
mod Read
pub mod Quoting
unfoldable pub use Types.*
unfoldable pub use Insert.*
unfoldable pub use Change.*
unfoldable pub use Read.*
