-- ===== src/Postgres.antt =====
-- The package `postgres`.
pub mod Placeholders
pub mod Identifier
pub mod QueryBuilder
pub mod Select
pub mod Insert
pub mod Update
pub mod Delete
pub mod Errors
pub mod Tx
pub mod Statements
pub mod Pool
pub mod Migrate
