-- ===== src/Db.antt =====
-- The package db.
mod Tests
pub mod Page
pub mod Dsn
pub mod Settings
pub mod Connect
pub mod Jsonb
pub mod Tx
