-- ===== src/Store.antt =====
-- The PostgreSQL tables of migrations/*.up.sql that the services read and write, as lists of rows
-- in order of insertion. A uuid is a number, a time is a number of microseconds, and a numeric(_, 6)
-- column is a number of millionths. Children: Store/Table (UPDATE, DELETE and SELECT by a test) and
-- Store/Tx (transactions).
pub mod Table
pub mod Tx
mod Rows
pub use Rows.*
