-- ===== src/Store.antt =====
-- internal/store: the rows, the transaction helper and the statements on each table.
pub mod Model
pub mod Tx
pub mod Open
pub mod Migrate
pub mod Statements
pub mod Contents
pub mod Publish
pub mod Schedules
pub mod Public
pub mod Exactly
pub mod Queued
pub mod Versioned
pub mod History
