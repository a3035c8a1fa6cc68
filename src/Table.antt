-- ===== src/Table.antt =====
-- A table of the relational database, which is not part of this repository: a parameter of the
-- repositories. One operation is one statement with its commit. SQL gives no order to rows that no
-- ORDER BY asks for, so the laws speak of rows up to `Perm`, and of what an ORDER BY returns.
mod Defs
pub mod Groups
pub mod Memory
pub use Defs.*
