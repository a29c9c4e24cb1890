-- ===== src/Db.antt =====
-- The PostgreSQL database of the master: its tables, and the statements and transactions that the
-- repositories of crates/decentgpu-master/src/db and the ledger send to it.
mod Schema
mod Statements
pub mod Rules
pub mod Example
pub mod Pages
pub use Schema.*
unfoldable pub use Statements.*
