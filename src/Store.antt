-- ===== src/Store.antt =====
-- internal/storage/store and its SQLite implementation, internal/storage/store/sqlite.
pub mod Table
pub mod Records
pub mod Order
pub mod Sandbox
pub mod Transition
pub mod Artifact
pub mod Build
pub mod Request
pub mod Migrations
